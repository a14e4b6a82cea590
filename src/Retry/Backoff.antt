-- ===== src/Retry/Backoff.antt =====
-- internal/retry/policy.go: the loop of `NextBackoff` against a closed form, and `ShouldRetry`.
use Prim.Native.Nat.{min}
use native.Mathlib.Nat.{pow-suc}
use flashsale_reservation.Prelude.{
  ℕ, zero, suc, ◌+◌, ◌-◌, ◌*◌, ◌^◌, ◌≤◌, ◌<◌, ◌≡◌, false, arith, inl, inr, Bool-cases, leb,
}
use flashsale_reservation.Prelude.Int.{ℤ, pos, ◌+ℤ◌, ◌≤ℤ◌, int64, int64_pos}
use flashsale_reservation.Retry.{
  Policy, should_retry, base_of, max_of, double_backoff, next_backoff,
}

pow_pos : (k : ℕ) → 0 < 2 ^ k
pow_pos zero = omega arith
pow_pos (suc k) = rw pow-suc (omega (arith, pow_pos k))

int64_double : (b : ℕ) → b < 2 ^ 62 → int64 (pos b +ℤ pos b) ≡ pos (b + b)
unfolding ◌+ℤ◌
int64_double b h = ground (arith, int64_pos (b + b))

scale_suc : (b k : ℕ) → b * 2 ^ suc k ≡ (b + b) * 2 ^ k
scale_suc b k = rw pow-suc (omega arith)

le_scale : (b k : ℕ) → b ≤ b * 2 ^ k
le_scale b k = grind (arith, pow_pos k)

-- The loop from `backoff` with `k` rounds left.
double_backoff-eq :
    (k m b : ℕ)
    → b < 2 ^ 62
    → m ≤ 2 ^ 62
    → double_backoff k (pos m) (pos b) ≡ pos (min (b * 2 ^ k) m)
unfolding double_backoff
double_backoff-eq zero m b hb hm = ground arith
double_backoff-eq (suc k) m b hb hm = rw (int64_double b hb) (elim (Bool-cases (leb m (b + b))) [
  | inl capped ↦ ground (arith, scale_suc b k, le_scale (b + b) k)
  | inr more ↦ ground (arith, scale_suc b k, double_backoff-eq k m (b + b))
])

-- `NextBackoff` is base * 2 ^ (n - 1) capped at the maximum for the n-th attempt, with the
-- fallbacks of 1 s and 30 s in place, if the base lies below 2 ^ 62 ns and the cap does not lie
-- above it.
pub next_backoff-eq :
    (p : Policy) (n b m : ℕ)
    → base_of p ≡ pos b
    → max_of p ≡ pos m
    → b < 2 ^ 62
    → m ≤ 2 ^ 62
    → next_backoff p (pos n) ≡ pos (min (b * 2 ^ (n - 1)) m)
unfolding next_backoff
next_backoff-eq p n b m eb em hb hm = rw (eb, em) (double_backoff-eq (n - 1) m b hb hm)

-- Once `ShouldRetry` says no, it says no at every later attempt count and elapsed time.
pub should_retry_stays :
    (p : Policy) (n n' t t' : ℤ)
    → should_retry p n t ≡ false
    → n ≤ℤ n'
    → t ≤ℤ t'
    → should_retry p n' t' ≡ false
unfolding should_retry
should_retry_stays p n n' t t' h hn ht = ground arith
