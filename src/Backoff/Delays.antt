-- ===== src/Backoff/Delays.antt =====
-- src/coven/reconnect.rs: the bounds of the delays and the number of attempts.
use gorp_rs.Base.{
  ℕ, zero, suc, ◌+◌, ◌*◌, ◌^◌, ◌%◌, ◌<◌, ◌≤◌, min, ltb, Bool, true, false, ◌&&◌, none, some,
  if◌then◌else◌, ◌≡◌, refl, sym, leb, Bool-cases, ap, ◌∙◌, arith, ◌⊎◌, inl, inr,
}
use native.Mathlib.Nat.{mul-le-mul_left, mul-le-mul_right, pow-zero, pow-suc, mul_assoc, mul-one}
use gorp_rs.Backoff.{
  duration_bound, checked_mul, BackoffConfig, BackoffState, new_backoff, record_success, next_delay,
  gives_up, record_failure, after_failures,
}

-- The delays start below the largest one and do not shrink.
abbrev pub IsSensible : BackoffConfig → Type 0
IsSensible config =
    (1 ≤ config.multiplier)
    × (config.initial_delay ≤ config.max_delay)
    × (config.max_delay < duration_bound)

grows : (m d : ℕ) → 1 ≤ m → d ≤ d * m
grows m d h = omega (arith, mul-le-mul_left d h)

capped_cases : (a m d : ℕ) → 1 ≤ m → (a ≤ d) ⊎ (d ≤ a) → min (min a d * m) d ≡ min (a * m) d
capped_cases a m d h (inl low) = ap (λ x. min (x * m) d) (omega (arith, low))
capped_cases a m d h (inr high) =
    let top : min a d ≡ d = omega (arith, high) in
    ap (λ x. min (x * m) d) top ∙ omega (arith, grows m d h, mul-le-mul_right m high)

capped : (a m d : ℕ) → 1 ≤ m → min (min a d * m) d ≡ min (a * m) d
capped a m d h = capped_cases a m d h (ground arith)

next_delay_lem :
    (config : BackoffConfig) (d : ℕ)
    → config.max_delay < duration_bound
    → next_delay config d ≡ min (d * config.multiplier) config.max_delay
unfolding next_delay checked_mul
next_delay_lem config d h = ground arith

failures_lem :
    (b : BackoffState)
    → (record_failure b).0.consecutive_failures ≡ (b.consecutive_failures + 1) % 2 ^ 32
unfolding record_failure
failures_lem b = ground arith

config_lem : (b : BackoffState) → (record_failure b).0.config ≡ b.config
unfolding record_failure
config_lem b = ground arith

goes_on :
    (b : BackoffState)
    → gives_up b.config ((b.consecutive_failures + 1) % 2 ^ 32) ≡ false
    → ((record_failure b).0.current_delay ≡ next_delay b.config b.current_delay)
      × ((record_failure b).1 ≡ some b.current_delay)
unfolding record_failure
goes_on b h = ground arith

stops :
    (b : BackoffState)
    → gives_up b.config ((b.consecutive_failures + 1) % 2 ^ 32) ≡ true
    → (record_failure b).1 ≡ none
unfolding record_failure
stops b h = ground arith

config-after_failures : (n : ℕ) (b : BackoffState) → (after_failures n b).config ≡ b.config
unfolding after_failures
config-after_failures zero b = refl
config-after_failures (suc n) b = config_lem _ ∙ config-after_failures n b

-- The failures are counted modulo 2 ^ 32.
counted :
    (n : ℕ) (config : BackoffConfig)
    → n < 2 ^ 32
    → (after_failures n (new_backoff config)).consecutive_failures ≡ n
unfolding after_failures
counted zero config h = refl
counted (suc n) config h =
    failures_lem (after_failures n (new_backoff config))
    ∙ omega (arith, counted n config (omega (arith, h)), h)

within :
    (n : ℕ) (config : BackoffConfig)
    → suc n < 2 ^ 32
    → (config.max_retries ≡ 0) ⊎ (suc n ≤ config.max_retries)
    → let b = after_failures n (new_backoff config) in
      gives_up b.config ((b.consecutive_failures + 1) % 2 ^ 32) ≡ false
unfolding gives_up
within n config h allowed =
    rw (config-after_failures n (new_backoff config), counted n config (omega (arith, h)))
      (ground (arith, h, allowed))

capped_start : {a d : ℕ} → a ≤ d → a ≡ min a d
capped_start h = omega (arith, h)

-- Without a limit, or before it is reached, the next delay is the initial one times the multiplier to the
-- number of failures, but no more than the largest delay.
current_delay-after_failures :
    (n : ℕ) (config : BackoffConfig)
    → IsSensible config
    → n < 2 ^ 32
    → (config.max_retries ≡ 0) ⊎ (n ≤ config.max_retries)
    → (after_failures n (new_backoff config)).current_delay
      ≡ min (config.initial_delay * config.multiplier ^ n) config.max_delay
unfolding after_failures
current_delay-after_failures zero config sensible h allowed =
    rw (pow-zero config.multiplier, mul-one config.initial_delay) (capped_start sensible.1)
current_delay-after_failures (suc n) config (positive, start, bound) h allowed =
    let b = after_failures n (new_backoff config) in
    (goes_on b (within n config h allowed)).0
    ∙ ap (λ c. next_delay c b.current_delay) (config-after_failures n (new_backoff config))
    ∙ next_delay_lem config b.current_delay bound
    ∙ ap (λ x. min (x * config.multiplier) config.max_delay)
        (current_delay-after_failures n config (positive, start, bound) (ground (arith, h))
          (ground (arith, allowed)))
    ∙ capped (config.initial_delay * config.multiplier ^ n) config.multiplier config.max_delay
        positive
    ∙ ap (λ x. min x config.max_delay)
        (mul_assoc config.initial_delay (config.multiplier ^ n) config.multiplier
          ∙ ap (λ x. config.initial_delay * x) (sym (pow-suc config.multiplier n)))

-- Whether the attempt after `n` failures gives up.
abbrev pub is_last : BackoffConfig → ℕ → Bool
is_last config n = ltb 0 config.max_retries && leb config.max_retries n

gives_up_lem :
    (n : ℕ) (config : BackoffConfig)
    → suc n < 2 ^ 32
    → let b = after_failures n (new_backoff config) in
      gives_up b.config ((b.consecutive_failures + 1) % 2 ^ 32) ≡ is_last config n
unfolding gives_up
gives_up_lem n config h =
    rw (config-after_failures n (new_backoff config), counted n config (omega (arith, h)))
      (ground (arith, h))

-- With a multiplier of at least 1, an initial delay no larger than the largest one and fewer than 2 ^ 32
-- failures, the attempt after n failures in a row gives up exactly when there is a limit and n has reached
-- it, and otherwise waits the initial delay times the multiplier to the n, capped by the largest delay.
pub record_failure-after_failures :
    (n : ℕ) (config : BackoffConfig)
    → IsSensible config
    → suc n < 2 ^ 32
    → (record_failure (after_failures n (new_backoff config))).1 ≡ (
        if is_last config n
        then none
        else some (min (config.initial_delay * config.multiplier ^ n) config.max_delay))
record_failure-after_failures n config sensible h =
    let b = after_failures n (new_backoff config) in
    elim (Bool-cases (is_last config n)) [
      | inl last ↦ rw last (stops b (gives_up_lem n config h ∙ last))
      | inr more ↦ rw more (
          (goes_on b (gives_up_lem n config h ∙ more)).1
          ∙ ap some (
              current_delay-after_failures n config sensible (omega (arith, h))
                (ground (arith, more))))
    ]

-- A success after any number of failures in a row starts the delays again.
pub record_success-after_failures :
    (n : ℕ) (config : BackoffConfig)
    → record_success (after_failures n (new_backoff config)) ≡ new_backoff config
unfolding record_success
record_success-after_failures n config =
    ap new_backoff (config-after_failures n (new_backoff config))
