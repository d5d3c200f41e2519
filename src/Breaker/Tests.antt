-- ===== src/Breaker/Tests.antt =====
-- A run of a breaker, and the theorems at concrete values.
use facturacion_sifen.Prelude.{◌++◌}
use facturacion_sifen.Breaker.Invariant.{peek_at, success_with}
use facturacion_sifen.Breaker.Probe.{run, acquire_while_half_open}
use facturacion_sifen.Breaker.Opening.{fail_all, fail_all_opens}
use facturacion_sifen.Breaker.Gateway.{
  Breakers, AllValid, enviar_lote, transport, paused_until, gateway-AllValid,
}
use facturacion_sifen.Prelude.{ℕ, ◌+◌, ◌≡◌, refl, arith, some, ok, err, [], ◌∷◌, List}
use facturacion_sifen.Breaker.{
  CircuitBreaker, closed, opened, half_open, create, default_options, acquire, success, failure,
  release, trip, expire_probe, peek, allowed, refused, bad_max_open,
}
use facturacion_sifen.Breaker.Gateway.{begin, settle, settle_breaker, create_gateway}
use facturacion_sifen.Breaker.Invariant.{IsValid}

operations : Unit {0}
unfolding create acquire success failure release trip expire_probe peek begin settle settle_breaker
    create_gateway
operations = tt

abbrev fresh : CircuitBreaker
fresh = record {
  options = default_options;
  current = closed;
  failures = 0;
  trips = 0;
  open_until = 0;
  probe_deadline = 0;
  generation = 0;
}

fresh_created : create default_options ≡ ok fresh
unfolding operations
fresh_created = refl

abbrev tripped : CircuitBreaker
tripped = record fresh { current = opened; trips = 1; open_until = 31000; generation = 1 }

abbrev probing : CircuitBreaker
probing = record tripped { current = half_open; probe_deadline = 92000; generation = 2 }

probe_run : acquire 32000 tripped ≡ (probing, allowed 2)
unfolding operations
probe_run = refl

fresh-IsValid : IsValid fresh
fresh-IsValid = omega arith

probing-IsValid : IsValid probing
probing-IsValid = omega arith

no_window : create (record default_options { max_open_ms = 259200000 }) ≡ err bad_max_open
unfolding operations
no_window = refl

-- A late success of the first call, and a look, while the probe is out.
acquire_while_half_open_example :
    acquire 90000 (run (success_with (some 0) ∷ peek_at 80000 ∷ []) probing)
    ≡ (probing, refused 92000)
acquire_while_half_open_example =
    acquire_while_half_open (success_with (some 0) ∷ peek_at 80000 ∷ []) probing 90000 refl
      ((λ e. omega arith), (omega arith, tt)) (omega arith)

abbrev four : List ℕ
four = 100 ∷ 200 ∷ 300 ∷ 400 ∷ []

fail_all_opens_example :
    ((fail_all four fresh).current ≡ closed)
    × ((fail_all (four ++ 1000 ∷ []) fresh).current ≡ opened)
    × ((fail_all (four ++ 1000 ∷ []) fresh).open_until ≡ 1000 + 30000)
fail_all_opens_example = fail_all_opens four 1000 fresh fresh-IsValid refl refl

abbrev all_fresh : Breakers
all_fresh operation = fresh

gateway_created : create_gateway default_options ≡ ok all_fresh
unfolding operations
gateway_created = refl

gateway-AllValid_example :
    AllValid all_fresh
    × AllValid (begin enviar_lote 1000 all_fresh).0
    × AllValid (paused_until enviar_lote 1000 all_fresh).0
    × AllValid (settle enviar_lote 0 1000 (err transport) all_fresh)
gateway-AllValid_example =
    gateway-AllValid default_options all_fresh all_fresh enviar_lote 0 1000 (err transport)
      gateway_created (λ op. fresh-IsValid)
