-- ===== src/Breaker.antt =====
-- packages/sifen-gateway/src/resilience/circuit-breaker.ts: the circuit breaker of one SIFEN endpoint.
-- Instants and durations are whole milliseconds, and one call reads the clock as one instant `now`.
-- The observer `onStateChange` is called on each transition; its exceptions are swallowed and it
-- changes no state here, so it is left out. A `token?` is an `Option`.
pub mod Invariant
pub mod Probe
pub mod Opening
pub mod Gateway
mod Tests
use facturacion_sifen.Prelude.{
  ℕ, zero, suc, ◌+◌, ◌-◌, ◌*◌, ◌^◌, min, Bool, true, false, not, Option, none, some, Result, ok,
  err, ltb, leb, ◌==◌, ◌&&◌, ◌||◌, if◌then◌else◌,
}

pub data CircuitState : Type 0 where
  closed opened half_open : CircuitState

pub record CircuitBreakerOptions : Type 0 where
  pub failure_threshold : ℕ
  pub base_open_ms : ℕ
  pub max_open_ms : ℕ
  pub probe_timeout_ms : ℕ

abbrev pub default_options : CircuitBreakerOptions
default_options = record {
  failure_threshold = 5;
  base_open_ms = 30000;
  max_open_ms = 900000;
  probe_timeout_ms = 60000;
}

-- 72 hours.
abbrev pub max_allowed_open_ms : ℕ
max_allowed_open_ms = 259200000

pub data Acquisition : Type 0 where
  allowed : (token : ℕ) → Acquisition
  refused : (retry_at : ℕ) → Acquisition

pub record CircuitBreaker : Type 0 where
  pub options : CircuitBreakerOptions
  pub current : CircuitState
  pub failures : ℕ
  pub trips : ℕ
  pub open_until : ℕ
  pub probe_deadline : ℕ
  pub generation : ℕ

pub data OptionsError : Type 0 where
  bad_failure_threshold bad_base_open bad_max_open bad_probe_timeout : OptionsError

-- The constructor.
unfoldable pub create : CircuitBreakerOptions → Result OptionsError CircuitBreaker
create o =
    if ltb o.failure_threshold 1
    then err bad_failure_threshold
    else if not (ltb 0 o.base_open_ms)
    then err bad_base_open
    else if ltb o.max_open_ms o.base_open_ms || leb max_allowed_open_ms o.max_open_ms
    then err bad_max_open
    else if not (ltb 0 o.probe_timeout_ms)
    then err bad_probe_timeout
    else ok (record {
      options = o;
      current = closed;
      failures = 0;
      trips = 0;
      open_until = 0;
      probe_deadline = 0;
      generation = 0;
    })

unfoldable pub transition : CircuitState → CircuitBreaker → CircuitBreaker
transition to b = record b { current = to; generation = b.generation + 1 }

-- The cool-down of the trip with this number, from 1.
unfoldable pub wait_of : CircuitBreakerOptions → ℕ → ℕ
wait_of o trips = min (o.base_open_ms * 2 ^ (trips - 1)) o.max_open_ms

-- `open()`
unfoldable pub trip : ℕ → CircuitBreaker → CircuitBreaker
unfolding wait_of transition
trip now b = transition opened (record b {
  trips = b.trips + 1;
  open_until = now + wait_of b.options (b.trips + 1);
  failures = 0;
})

unfoldable pub expire_probe : ℕ → CircuitBreaker → CircuitBreaker
unfolding trip
expire_probe now b = elim b.current [
  | half_open ↦ if leb b.probe_deadline now then trip now b else b
  | _ ↦ b
]

-- `acquire()` once an expired probe has been reaped.
unfoldable pub acquire_from : ℕ → CircuitBreaker → CircuitBreaker × Acquisition
unfolding transition
acquire_from now b = elim b.current [
  | closed ↦ (b, allowed b.generation)
  | half_open ↦ (b, refused b.probe_deadline)
  | opened ↦
      if ltb now b.open_until
      then (b, refused b.open_until)
      else let probing = transition half_open b in
        (
          record probing { probe_deadline = now + b.options.probe_timeout_ms },
          allowed probing.generation,
        )
]

unfoldable pub acquire : ℕ → CircuitBreaker → CircuitBreaker × Acquisition
unfolding acquire_from expire_probe
acquire now b = acquire_from now (expire_probe now b)

-- `peek()` once an expired probe has been reaped.
unfoldable pub peek_from : ℕ → CircuitBreaker → Option ℕ
peek_from now b = elim b.current [
  | closed ↦ none
  | half_open ↦ some b.probe_deadline
  | opened ↦ if leb b.open_until now then none else some b.open_until
]

unfoldable pub peek : ℕ → CircuitBreaker → CircuitBreaker × Option ℕ
unfolding peek_from expire_probe
peek now b = let b' = expire_probe now b in (b', peek_from now b')

-- `token !== undefined && token !== this.generation`
unfoldable pub is_stale : Option ℕ → CircuitBreaker → Bool
is_stale none b = false
is_stale (some token) b = not (token == b.generation)

unfoldable pub success : Option ℕ → CircuitBreaker → CircuitBreaker
unfolding is_stale transition
success token b =
    let settled = record b { failures = 0; trips = 0 } in
    if is_stale token b
    then b
    else elim b.current [ closed ↦ settled | _ ↦ transition closed settled ]

unfoldable pub release : Option ℕ → ℕ → CircuitBreaker → CircuitBreaker
unfolding is_stale transition
release token now b =
    if is_stale token b
    then b
    else elim b.current [ half_open ↦ transition opened (record b { open_until = now }) | _ ↦ b ]

unfoldable pub failure : Option ℕ → ℕ → CircuitBreaker → CircuitBreaker
unfolding is_stale trip
failure token now b =
    let counted = record b { failures = b.failures + 1 } in
    if is_stale token b then b else elim b.current [
      | opened ↦ b
      | half_open ↦ trip now counted
      | closed ↦
          if leb b.options.failure_threshold (b.failures + 1) then trip now counted else counted
    ]
