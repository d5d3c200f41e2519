-- ===== src/Breaker/Invariant.antt =====
-- What holds of a breaker between its calls.
use facturacion_sifen.Prelude.{ℕ, ◌≤◌, ◌<◌, ◌≡◌, arith, Option, ok}
use facturacion_sifen.Breaker.{
  CircuitState, closed, opened, half_open, CircuitBreaker, CircuitBreakerOptions, create,
  expire_probe, acquire, acquire_from, peek, success, release, failure, max_allowed_open_ms,
}

-- The state of a breaker: failures are counted only while it is closed, and stay below the threshold;
-- it has tripped since the last success exactly when it is not closed.
abbrev pub StateFits : CircuitState → (failures trips threshold : ℕ) → Type 0
StateFits closed failures trips threshold = (failures < threshold) × (trips ≡ 0)
StateFits opened failures trips threshold = (failures ≡ 0) × (0 < trips)
StateFits half_open failures trips threshold = (failures ≡ 0) × (0 < trips)

pub record IsValid (b : CircuitBreaker) : Type 0 where
  pub threshold_pos : 0 < b.options.failure_threshold
  pub base_pos : 0 < b.options.base_open_ms
  pub max_range :
      (b.options.base_open_ms ≤ b.options.max_open_ms)
      × (b.options.max_open_ms < max_allowed_open_ms)
  pub state_fits : StateFits b.current b.failures b.trips b.options.failure_threshold

-- The constructor gives a valid breaker, closed and with nothing counted.
pub create-IsValid :
    (o : CircuitBreakerOptions) (b : CircuitBreaker)
    → create o ≡ ok b
    → IsValid b × (b.options ≡ o) × (b.current ≡ closed)
unfolding create
create-IsValid o b h = ground arith

expire_probe-IsValid : (now : ℕ) (b : CircuitBreaker) → IsValid b → IsValid (expire_probe now b)
unfolding expire_probe
expire_probe-IsValid now b v = ground arith

acquire_from-IsValid : (now : ℕ) (b : CircuitBreaker) → IsValid b → IsValid (acquire_from now b).0
unfolding acquire_from
acquire_from-IsValid now b v = ground arith

-- The calls of a breaker, each at its instant.
pub data Call : Type 0 where
  acquire_at peek_at : ℕ → Call
  success_with : Option ℕ → Call
  release_at failure_at : Option ℕ → ℕ → Call

abbrev pub apply : Call → CircuitBreaker → CircuitBreaker
apply (acquire_at now) b = (acquire now b).0
apply (peek_at now) b = (peek now b).0
apply (success_with token) b = success token b
apply (release_at token now) b = release token now b
apply (failure_at token now) b = failure token now b

-- Every call keeps a valid breaker valid.
pub apply-IsValid : (c : Call) (b : CircuitBreaker) → IsValid b → IsValid (apply c b)
unfolding acquire peek success release failure
apply-IsValid (acquire_at now) b v =
    acquire_from-IsValid now (expire_probe now b) (expire_probe-IsValid now b v)
apply-IsValid (peek_at now) b v = expire_probe-IsValid now b v
apply-IsValid (success_with token) b v = ground arith
apply-IsValid (release_at token now) b v = ground arith
apply-IsValid (failure_at token now) b v = ground arith
