-- ===== src/Backoff.antt =====
-- src/coven/reconnect.rs: the delays between the attempts to reconnect a stream of the coven gateway.
-- A Duration is its number of nanoseconds; a u32 counter wraps at 2 ^ 32, as in a release build.
pub mod Delays
use gorp_rs.Base.{
  ℕ, zero, suc, ◌+◌, ◌*◌, ◌^◌, ◌%◌, ltb, min, Bool, ◌&&◌, Option, none, some, if◌then◌else◌,
}

-- One above the largest Duration: 2 ^ 64 seconds.
abbrev pub duration_bound : ℕ
duration_bound = 2 ^ 64 * 1000000000

unfoldable pub checked_mul : ℕ → ℕ → Option ℕ
checked_mul d m = if ltb (d * m) duration_bound then some (d * m) else none

pub record BackoffConfig : Type 0 where
  pub initial_delay : ℕ
  pub max_delay : ℕ
  pub multiplier : ℕ
  pub max_retries : ℕ

-- 2 s, 60 s, doubled, no limit of attempts.
abbrev pub default_config : BackoffConfig
default_config = record {
  initial_delay = 2000000000;
  max_delay = 60000000000;
  multiplier = 2;
  max_retries = 0;
}

pub record BackoffState : Type 0 where
  pub config : BackoffConfig
  pub consecutive_failures : ℕ
  pub current_delay : ℕ

abbrev pub new_backoff : BackoffConfig → BackoffState
new_backoff config = record {
  config = config;
  consecutive_failures = 0;
  current_delay = config.initial_delay;
}

unfoldable pub record_success : BackoffState → BackoffState
record_success b = record {
  config = b.config;
  consecutive_failures = 0;
  current_delay = b.config.initial_delay;
}

-- The delay of the next failure.
unfoldable pub next_delay : BackoffConfig → ℕ → ℕ
unfolding checked_mul
next_delay config d = elim (checked_mul d config.multiplier) [
  | none ↦ config.max_delay
  | some product ↦ min product config.max_delay
]

unfoldable pub gives_up : BackoffConfig → ℕ → Bool
gives_up config failures = ltb 0 config.max_retries && ltb config.max_retries failures

unfoldable pub record_failure : BackoffState → BackoffState × Option ℕ
unfolding next_delay gives_up
record_failure b =
    let failures = (b.consecutive_failures + 1) % 2 ^ 32 in
    if gives_up b.config failures
    then (
      record {
        config = b.config;
        consecutive_failures = failures;
        current_delay = b.current_delay;
      },
      none,
    )
    else (
      record {
        config = b.config;
        consecutive_failures = failures;
        current_delay = next_delay b.config b.current_delay;
      },
      some b.current_delay,
    )

-- The delays given by `n` failures in a row.
unfoldable pub after_failures : ℕ → BackoffState → BackoffState
unfolding record_failure
after_failures zero b = b
after_failures (suc n) b = (record_failure (after_failures n b)).0
