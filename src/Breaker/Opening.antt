-- ===== src/Breaker/Opening.antt =====
-- When the breaker opens, for how long, and how it closes again.
use native.Mathlib.Nat.{pow-suc}
use facturacion_sifen.Prelude.{
  ℕ, zero, suc, ◌+◌, ◌-◌, ◌*◌, ◌^◌, ◌≤◌, ◌<◌, ◌≡◌, refl, ap, ◌∙◌, subst, arith, some, List, [], ◌∷◌,
  ◌++◌, length, min,
}
use facturacion_sifen.Breaker.{
  CircuitBreakerOptions, closed, opened, half_open, CircuitBreaker, expire_probe, acquire,
  acquire_from, success, release, failure, trip, wait_of, allowed, refused,
}
use facturacion_sifen.Breaker.Invariant.{IsValid}

pow_pos : (n : ℕ) → 0 < 2 ^ n
pow_pos zero = omega arith
pow_pos (suc n) = rw (pow-suc 2 n) (omega (arith, pow_pos n))

-- A cool-down doubles with each trip, up to the cap.
wait_of_doubles :
    (o : CircuitBreakerOptions) (k : ℕ)
    → wait_of o (suc (suc k)) ≡ min (2 * wait_of o (suc k)) o.max_open_ms
unfolding wait_of
wait_of_doubles o k =
    ap (λ (n : ℕ). min (o.base_open_ms * 2 ^ n) o.max_open_ms)
      (let e : suc (suc k) - 1 ≡ suc k = omega arith in e)
    ∙ ap (λ (n : ℕ). min (o.base_open_ms * n) o.max_open_ms) (pow-suc 2 k)
    ∙ doubled (2 ^ k)
    ∙ ap (λ (n : ℕ). min (2 * min (o.base_open_ms * 2 ^ n) o.max_open_ms) o.max_open_ms)
        (let e : k ≡ suc k - 1 = omega arith in e)
  where
    doubled :
        (p : ℕ)
        → min (o.base_open_ms * (p * 2)) o.max_open_ms
          ≡ min (2 * min (o.base_open_ms * p) o.max_open_ms) o.max_open_ms
    doubled p = omega arith

-- The cool-downs: the first is the base, each next one twice the last up to the cap, and each is
-- positive and within the cap.
pub wait_of_schedule :
    (b : CircuitBreaker) (k : ℕ)
    → IsValid b
    → (wait_of b.options 1 ≡ b.options.base_open_ms)
      × (wait_of b.options (suc (suc k))
          ≡ min (2 * wait_of b.options (suc k)) b.options.max_open_ms)
      × (0 < wait_of b.options (suc k))
      × (wait_of b.options (suc k) ≤ b.options.max_open_ms)
wait_of_schedule b k v = (first, wait_of_doubles b.options k, positive, capped)
  where
    first : wait_of b.options 1 ≡ b.options.base_open_ms
    first = unfold wait_of in omega (arith, v.max_range)

    product_pos : 0 < b.options.base_open_ms * 2 ^ (suc k - 1)
    product_pos = grind (arith, pow_pos, v.base_pos)

    positive : 0 < wait_of b.options (suc k)
    positive = unfold wait_of in omega (arith, product_pos, v.base_pos, v.max_range)

    capped : wait_of b.options (suc k) ≤ b.options.max_open_ms
    capped = unfold wait_of in omega arith

-- Failures of calls acquired while the breaker is closed, one at each instant.
abbrev pub fail_all : List ℕ → CircuitBreaker → CircuitBreaker
fail_all [] b = b
fail_all (now ∷ nows) b = fail_all nows (failure (some b.generation) now b)

failure_below :
    (now : ℕ) (b : CircuitBreaker)
    → b.current ≡ closed
    → b.failures + 1 < b.options.failure_threshold
    → failure (some b.generation) now b ≡ record b { failures = b.failures + 1 }
unfolding failure
failure_below now b c h = ground arith

fail_all_below :
    (nows : List ℕ) (b : CircuitBreaker)
    → b.current ≡ closed
    → b.failures + length nows < b.options.failure_threshold
    → fail_all nows b ≡ record b { failures = b.failures + length nows }
fail_all_below [] b c h =
    ap (λ n. record b { failures = n }) (let e : b.failures ≡ b.failures + 0 = omega arith in e)
fail_all_below (now ∷ nows) b c h =
    ap (fail_all nows) (failure_below now b c (omega arith))
    ∙ fail_all_below nows (record b { failures = b.failures + 1 }) c (omega arith)
    ∙ ap (λ n. record b { failures = n })
        (let e : b.failures + 1 + length nows ≡ b.failures + suc (length nows) = omega arith in e)

failure_reaches :
    (now : ℕ) (b : CircuitBreaker)
    → b.current ≡ closed
    → b.failures + 1 ≡ b.options.failure_threshold
    → ((failure (some b.generation) now b).current ≡ opened)
      × ((failure (some b.generation) now b).open_until ≡ now + wait_of b.options (b.trips + 1))
unfolding failure trip
failure_reaches now b c h = ground arith

fail_all-snoc :
    (nows : List ℕ) (now : ℕ) (b : CircuitBreaker)
    → fail_all (nows ++ now ∷ []) b
      ≡ failure (some (fail_all nows b).generation) now (fail_all nows b)
fail_all-snoc [] now b = refl
fail_all-snoc (n ∷ nows) now b = fail_all-snoc nows now (failure (some b.generation) n b)

-- A closed breaker stays closed while its consecutive failures are below the threshold, and the
-- failure that reaches the threshold opens it for the first cool-down.
pub fail_all_opens :
    (nows : List ℕ) (now : ℕ) (b : CircuitBreaker)
    → IsValid b
    → b.current ≡ closed
    → b.failures + length nows + 1 ≡ b.options.failure_threshold
    → ((fail_all nows b).current ≡ closed)
      × ((fail_all (nows ++ now ∷ []) b).current ≡ opened)
      × ((fail_all (nows ++ now ∷ []) b).open_until ≡ now + b.options.base_open_ms)
fail_all_opens nows now b v c h =
    let before = fail_all_below nows b c (omega arith) in
    let reaches =
      failure_reaches now (record b { failures = b.failures + length nows }) c (omega arith) in
    let no_trips : b.trips ≡ 0 = closed_trips b v c in
    (
      ap (λ (d : CircuitBreaker). d.current) before ∙ c,
      ap (λ (d : CircuitBreaker). d.current)
            (fail_all-snoc nows now b ∙ ap (λ d. failure (some d.generation) now d) before)
          ∙ reaches.0,
      ap (λ (d : CircuitBreaker). d.open_until)
            (fail_all-snoc nows now b ∙ ap (λ d. failure (some d.generation) now d) before)
          ∙ reaches.1
          ∙ ap (λ (n : ℕ). now + wait_of b.options (n + 1)) no_trips
          ∙ ap (λ (n : ℕ). now + n) (wait_of_schedule b 0 v).0,
    )
  where
    closed_trips : (d : CircuitBreaker) → IsValid d → d.current ≡ closed → d.trips ≡ 0
    closed_trips d w e = ground arith

-- Once the cool-down has passed one probe is let through. Its success closes the breaker and forgets
-- all failures; its failure opens it for the next cool-down; its release opens it with no wait.
pub probe_settles :
    (b : CircuitBreaker) (now later : ℕ)
    → b.current ≡ opened
    → b.open_until ≤ now
    → ((acquire now b).1 ≡ allowed (b.generation + 1))
      × ((acquire now b).0.current ≡ half_open)
      × ((success (some (b.generation + 1)) (acquire now b).0).current ≡ closed)
      × ((success (some (b.generation + 1)) (acquire now b).0).trips ≡ 0)
      × ((failure (some (b.generation + 1)) later (acquire now b).0).open_until
          ≡ later + wait_of b.options (b.trips + 1))
      × ((acquire later (release (some (b.generation + 1)) later (acquire now b).0)).1
          ≡ allowed (b.generation + 3))
unfolding acquire acquire_from expire_probe success failure release trip
probe_settles b now later c h =
    (ground arith, ground arith, ground arith, ground arith, ground arith, ground arith)

wait_pos : (b : CircuitBreaker) → IsValid b → 0 < wait_of b.options (b.trips + 1)
wait_pos b v =
    subst (λ n. 0 < wait_of b.options n) (let e : suc b.trips ≡ b.trips + 1 = omega arith in e)
      (wait_of_schedule b b.trips v).2

-- A probe that is never settled counts as failed: at its deadline the breaker opens again.
pub probe_expires :
    (b : CircuitBreaker) (now : ℕ)
    → IsValid b
    → b.current ≡ half_open
    → b.probe_deadline ≤ now
    → ((acquire now b).0.current ≡ opened)
      × ((acquire now b).1 ≡ refused (now + wait_of b.options (b.trips + 1)))
unfolding acquire acquire_from expire_probe trip
probe_expires b now v c h = (ground (arith, wait_pos b v), ground (arith, wait_pos b v))
