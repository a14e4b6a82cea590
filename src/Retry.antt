-- ===== src/Retry.antt =====
-- internal/retry/policy.go: when to try again, and after what pause.
-- `int` and `time.Duration` are int64; a duration counts nanoseconds.
pub mod Backoff
use flashsale_reservation.Prelude.{
  ℕ, zero, suc, ◌+◌, ◌-◌, ◌*◌, ◌^◌, ◌≤◌, ◌<◌, ◌≡◌, refl, Bool, true, false, ◌&&◌, arith,
  if◌then◌else◌,
}
use flashsale_reservation.Prelude.Int.{ℤ, pos, negsuc, ◌+ℤ◌, ◌-ℤ◌, ltb_ℤ, leb_ℤ, int64, pos_part}

pub record Policy : Type 0 where
  pub max_attempts : ℤ
  pub max_elapsed : ℤ
  pub base_backoff : ℤ
  pub max_backoff : ℤ

abbrev pub second : ℕ
second = 1_000_000_000

unfoldable pub default_policy : Policy
default_policy = record {
  max_attempts = pos 5;
  max_elapsed = pos (120 * second);
  base_backoff = pos second;
  max_backoff = pos (30 * second);
}

unfoldable pub should_retry : Policy → ℤ → ℤ → Bool
should_retry p attempt_count elapsed =
    if ltb_ℤ (pos 0) p.max_attempts && leb_ℤ p.max_attempts attempt_count
    then false
    else if ltb_ℤ (pos 0) p.max_elapsed && leb_ℤ p.max_elapsed elapsed
    then false
    else true

-- The two fallbacks at the top of `NextBackoff`.
abbrev pub base_of : Policy → ℤ
base_of p = if leb_ℤ p.base_backoff (pos 0) then pos second else p.base_backoff

abbrev pub max_of : Policy → ℤ
max_of p = if leb_ℤ p.max_backoff (pos 0) then pos (30 * second) else p.max_backoff

-- The loop, by the rounds left: `backoff *= 2` on an int64, then the test of the cap. What
-- follows the loop is its last clause.
unfoldable pub double_backoff : ℕ → ℤ → ℤ → ℤ
double_backoff zero limit backoff = if ltb_ℤ limit backoff then limit else backoff
double_backoff (suc rounds) limit backoff =
    let doubled = int64 (backoff +ℤ backoff) in
    let rest = double_backoff rounds limit doubled in if leb_ℤ limit doubled then limit else rest

-- `for i := 1; i < attemptCount; i++` runs attemptCount - 1 rounds, and none below 2.
unfoldable pub next_backoff : Policy → ℤ → ℤ
unfolding double_backoff
next_backoff p attempt_count = double_backoff (pos_part attempt_count - 1) (max_of p) (base_of p)

default_backoffs : next_backoff default_policy (pos 4) ≡ pos (8 * second)
unfolding next_backoff default_policy int64 ◌+ℤ◌
default_backoffs = refl
