-- ===== src/Breaker/Probe.antt =====
-- The half-open probe, and the tokens of calls that settle late.
use facturacion_sifen.Prelude.{
  ℕ, ◌≤◌, ◌<◌, ◌≡◌, ◌≢◌, ◌↔◌, refl, ap, ◌∙◌, arith, none, some, List, [], ◌∷◌,
}
use facturacion_sifen.Breaker.{
  half_open, CircuitBreaker, expire_probe, acquire, peek, success, release, failure, refused,
  acquire_from, peek_from,
}
use facturacion_sifen.Breaker.Invariant.{
  Call, acquire_at, peek_at, success_with, release_at, failure_at, apply,
}

refused_iff :
    (now : ℕ) (b : CircuitBreaker) (t : ℕ)
    → (peek_from now b ≡ some t) ↔ ((acquire_from now b).1 ≡ refused t)
unfolding peek_from acquire_from
refused_iff now b t = (λ h. ground arith, λ h. ground arith)

-- `peek` names an instant exactly when `acquire` would refuse the call until that instant.
pub peek-acquire :
    (now : ℕ) (b : CircuitBreaker) (t : ℕ)
    → ((peek now b).1 ≡ some t) ↔ ((acquire now b).1 ≡ refused t)
unfolding peek acquire
peek-acquire now b t = refused_iff now (expire_probe now b) t

-- A call that does not settle the probe of `b`, made before its deadline.
abbrev pub IsIdle : CircuitBreaker → Call → Type 0
IsIdle b (acquire_at now) = now < b.probe_deadline
IsIdle b (peek_at now) = now < b.probe_deadline
IsIdle b (success_with none) = ⊥
IsIdle b (success_with (some t)) = t ≢ b.generation
IsIdle b (release_at none now) = ⊥
IsIdle b (release_at (some t) now) = t ≢ b.generation
IsIdle b (failure_at none now) = ⊥
IsIdle b (failure_at (some t) now) = t ≢ b.generation

-- Every one of the calls is such.
abbrev pub AllCalls : (Call → Type 0) → List Call → Type 0
AllCalls Holds [] = Unit {0}
AllCalls Holds (c ∷ cs) = Holds c × AllCalls Holds cs

abbrev pub run : List Call → CircuitBreaker → CircuitBreaker
run [] b = b
run (c ∷ cs) b = run cs (apply c b)

idle_step : (b : CircuitBreaker) (c : Call) → b.current ≡ half_open → IsIdle b c → apply c b ≡ b
unfolding acquire acquire_from expire_probe peek success release failure
idle_step b (acquire_at now) h i = ground arith
idle_step b (peek_at now) h i = ground arith
idle_step b (success_with none) h i = absurd i
idle_step b (success_with (some t)) h i = ground arith
idle_step b (release_at none now) h i = absurd i
idle_step b (release_at (some t) now) h i = ground arith
idle_step b (failure_at none now) h i = absurd i
idle_step b (failure_at (some t) now) h i = ground arith

idle_run :
    (cs : List Call) (b : CircuitBreaker)
    → b.current ≡ half_open
    → AllCalls (IsIdle b) cs
    → run cs b ≡ b
idle_run [] b h i = refl
idle_run (c ∷ cs) b h i = ap (run cs) (idle_step b c h i.0) ∙ idle_run cs b h i.1

-- While a probe is out, whatever other calls come, a further call is refused until its deadline: there
-- is never a second probe.
pub acquire_while_half_open :
    (cs : List Call) (b : CircuitBreaker) (now : ℕ)
    → b.current ≡ half_open
    → AllCalls (IsIdle b) cs
    → now < b.probe_deadline
    → acquire now (run cs b) ≡ (b, refused b.probe_deadline)
unfolding acquire acquire_from expire_probe
acquire_while_half_open cs b now h i lt = ap (acquire now) (idle_run cs b h i) ∙ ground arith

generation_step : (c : Call) (b : CircuitBreaker) → b.generation ≤ (apply c b).generation
unfolding acquire acquire_from expire_probe peek success release failure
generation_step (acquire_at now) b = ground arith
generation_step (peek_at now) b = ground arith
generation_step (success_with token) b = ground arith
generation_step (release_at token now) b = ground arith
generation_step (failure_at token now) b = ground arith

generation_run : (cs : List Call) (b : CircuitBreaker) → b.generation ≤ (run cs b).generation
generation_run [] b = omega arith
generation_run (c ∷ cs) b = omega (arith, generation_step c b, generation_run cs (apply c b))

stale_settles :
    (b : CircuitBreaker) (token now : ℕ)
    → token < b.generation
    → (success (some token) b ≡ b)
      × (failure (some token) now b ≡ b)
      × (release (some token) now b ≡ b)
unfolding success failure release
stale_settles b token now h = ground arith

-- A call that began before a transition settles without effect, whatever the breaker has done since.
pub stale_settles_after :
    (cs : List Call) (b : CircuitBreaker) (token now : ℕ)
    → token < b.generation
    → (success (some token) (run cs b) ≡ run cs b)
      × (failure (some token) now (run cs b) ≡ run cs b)
      × (release (some token) now (run cs b) ≡ run cs b)
stale_settles_after cs b token now h =
    stale_settles (run cs b) token now (omega (arith, generation_run cs b))

-- Every transition takes a new generation, so that the tokens before it are told apart.
pub apply_generation :
    (c : Call) (b : CircuitBreaker)
    → (apply c b).current ≢ b.current
    → b.generation < (apply c b).generation
unfolding acquire acquire_from expire_probe peek success release failure
apply_generation (acquire_at now) b h = ground arith
apply_generation (peek_at now) b h = ground arith
apply_generation (success_with token) b h = ground arith
apply_generation (release_at token now) b h = ground arith
apply_generation (failure_at token now) b h = ground arith
