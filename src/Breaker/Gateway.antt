-- ===== src/Breaker/Gateway.antt =====
-- packages/sifen-gateway/src/resilience/circuit-breaker-gateway.ts: one breaker for each operation.
-- A guarded call is two steps, since other calls run while it is awaited: `begin` asks the breaker,
-- and `settle` takes what the inner gateway answered. `OPERATIONS` is all of them, so that no breaker
-- is missing.
use facturacion_sifen.Prelude.{
  ℕ, ◌≡◌, subst, ok-injective, >>=-eq-ok, Option, some, Bool, true, false, Result, ok, err, ◌>>=◌,
  if◌then◌else◌,
}
use facturacion_sifen.Breaker.{
  CircuitBreaker, CircuitBreakerOptions, OptionsError, create, acquire, peek, success, release,
  failure, Acquisition,
}
use facturacion_sifen.Breaker.Invariant.{
  IsValid, create-IsValid, apply-IsValid, success_with, release_at, failure_at, acquire_at, peek_at,
}

pub data SifenOperation : Type 0 where
  enviar_lote consultar_lote enviar_de_sincronico consultar_de : SifenOperation
  enviar_eventos consultar_ruc : SifenOperation

abbrev pub eq_operation : SifenOperation → SifenOperation → Bool
eq_operation enviar_lote enviar_lote = true
eq_operation consultar_lote consultar_lote = true
eq_operation enviar_de_sincronico enviar_de_sincronico = true
eq_operation consultar_de consultar_de = true
eq_operation enviar_eventos enviar_eventos = true
eq_operation consultar_ruc consultar_ruc = true
eq_operation _ _ = false

-- The errors of the inner gateway, by the classes that `guard` tells apart.
pub data GatewayError : Type 0 where
  tenant_unavailable client_certificate transport timeout other_error : GatewayError

-- The `breakers` map.
abbrev pub Breakers : Type 0
Breakers = SifenOperation → CircuitBreaker

unfoldable pub create_gateway : CircuitBreakerOptions → Result OptionsError Breakers
create_gateway options = do breaker ← create options; ok (λ operation. breaker)

abbrev pub set_breaker : SifenOperation → CircuitBreaker → Breakers → Breakers
set_breaker operation b breakers op = if eq_operation op operation then b else breakers op

unfoldable pub paused_until : SifenOperation → ℕ → Breakers → Breakers × Option ℕ
paused_until operation now breakers =
    let (b, at) = peek now (breakers operation) in (set_breaker operation b breakers, at)

-- `guard` up to the call: the token of a call that goes out, or the refusal with its `retryAt`.
unfoldable pub begin : SifenOperation → ℕ → Breakers → Breakers × Acquisition
begin operation now breakers =
    let (b, answer) = acquire now (breakers operation) in (set_breaker operation b breakers, answer)

-- What `guard` does with the outcome of the call it made with this token.
unfoldable pub settle_breaker :
    ℕ → ℕ → Result GatewayError (Unit {0}) → CircuitBreaker → CircuitBreaker
settle_breaker token now (ok _) b = success (some token) b
settle_breaker token now (err tenant_unavailable) b = release (some token) now b
settle_breaker token now (err client_certificate) b = release (some token) now b
settle_breaker token now (err transport) b = failure (some token) now b
settle_breaker token now (err timeout) b = failure (some token) now b
settle_breaker token now (err other_error) b = success (some token) b

unfoldable pub settle :
    SifenOperation → ℕ → ℕ → Result GatewayError (Unit {0}) → Breakers → Breakers
settle operation token now outcome breakers =
    set_breaker operation (settle_breaker token now outcome (breakers operation)) breakers

abbrev pub AllValid : Breakers → Type 0
AllValid breakers = (op : SifenOperation) → IsValid (breakers op)

set_breaker-IsValid :
    (operation op : SifenOperation) (b : CircuitBreaker) (breakers : Breakers)
    → IsValid b
    → IsValid (breakers op)
    → IsValid (set_breaker operation b breakers op)
set_breaker-IsValid operation op b breakers v w = by_test (eq_operation op operation)
  where
    by_test : (t : Bool) → IsValid (if t then b else breakers op)
    by_test true = v
    by_test false = w

settle_breaker-IsValid :
    (token now : ℕ) (outcome : Result GatewayError (Unit {0})) (b : CircuitBreaker)
    → IsValid b
    → IsValid (settle_breaker token now outcome b)
unfolding settle_breaker
settle_breaker-IsValid token now (ok _) b v = apply-IsValid (success_with (some token)) b v
settle_breaker-IsValid token now (err tenant_unavailable) b v =
    apply-IsValid (release_at (some token) now) b v
settle_breaker-IsValid token now (err client_certificate) b v =
    apply-IsValid (release_at (some token) now) b v
settle_breaker-IsValid token now (err transport) b v =
    apply-IsValid (failure_at (some token) now) b v
settle_breaker-IsValid token now (err timeout) b v = apply-IsValid (failure_at (some token) now) b v
settle_breaker-IsValid token now (err other_error) b v =
    apply-IsValid (success_with (some token)) b v

-- A gateway starts with valid breakers, and each of its steps keeps them valid.
pub gateway-AllValid :
    (options : CircuitBreakerOptions) (breakers next : Breakers) (operation : SifenOperation)
    (token now : ℕ) (outcome : Result GatewayError (Unit {0}))
    → create_gateway options ≡ ok breakers
    → AllValid next
    → AllValid breakers
      × AllValid (begin operation now next).0
      × AllValid (paused_until operation now next).0
      × AllValid (settle operation token now outcome next)
unfolding create_gateway begin paused_until settle
gateway-AllValid options breakers next operation token now outcome h v = (
  created,
  λ op.
      set_breaker-IsValid operation op _ next (apply-IsValid (acquire_at now) _ (v operation))
        (v op),
  λ op.
      set_breaker-IsValid operation op _ next (apply-IsValid (peek_at now) _ (v operation)) (v op),
  λ op.
      set_breaker-IsValid operation op _ next
        (settle_breaker-IsValid token now outcome _ (v operation)) (v op),
)
  where
    created : AllValid breakers
    created =
        let (b, made, same) = >>=-eq-ok (create options) (λ c. ok (λ op. c)) h in
        subst AllValid (ok-injective same) (λ op. (create-IsValid options b made).0)

-- A guarded call of one operation leaves the breakers of all others alone.
pub others_untouched :
    (operation op : SifenOperation) (token now later : ℕ) (outcome : Result GatewayError (Unit {0}))
    (breakers : Breakers)
    → eq_operation op operation ≡ false
    → settle operation token later outcome (begin operation now breakers).0 op ≡ breakers op
unfolding begin settle
others_untouched operation op token now later outcome breakers h = rw h
