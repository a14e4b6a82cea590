-- ===== src/Admission/Rate.antt =====
-- internal/admission/admitter.go: which rates an admitter can be started with, and how fast it ticks.
use native.Mathlib.Nat.{div-add-mod, mod-lt, div-eq_of_lt, le-div_iff_mul-le}
use flashsale_reservation.Prelude.{
  ℕ, zero, suc, ◌+◌, ◌*◌, ◌/◌, ◌≤◌, ◌<◌, ◌≡◌, ◌⊎◌, inl, inr, refl, arith, Bool-cases, leb,
}
use flashsale_reservation.Prelude.Int.{ℤ, pos, negsuc, ◌<ℤ◌, -ℤ_parts}
use flashsale_reservation.Retry.{second}
use flashsale_reservation.Admission.{no_rate, no_interval, ticking, interval, start_admitter}

div_bounds : (a n : ℕ) → 0 < n → (n * (a / n) ≤ a) × (a < n * (a / n) + n)
div_bounds a n h = omega (arith, div-add-mod a n, mod-lt a h)

positive : (n : ℕ) → suc n ≤ second → 0 < second / suc n
positive n h =
    (le-div_iff_mul-le {k = suc n} {x = 1} {y = second} (omega arith)).1 (omega (arith, h))

vanishes : (n : ℕ) → second < suc n → second / suc n ≡ 0
vanishes n h = div-eq_of_lt h

-- An admitter starts just for the rates from 1 to 1000000000 a second. The interval between its
-- ticks is then positive, `rate` intervals take no more than a second, and they fall short of one by
-- less than `rate` nanoseconds. At rate 0 the division panics, at any other rate the ticker does.
pub start_admitter_exact :
    (rate : ℤ)
    → ((n : ℕ) × (k : ℕ) × (rate ≡ pos n)
        × (start_admitter rate ≡ ticking (pos k))
        × (0 < k)
        × (n * k ≤ second)
        × (second < n * k + n))
      ⊎ ((rate ≡ pos 0) × (start_admitter rate ≡ no_rate))
      ⊎ (((rate <ℤ pos 0) ⊎ (pos second <ℤ rate)) × (start_admitter rate ≡ no_interval))
unfolding start_admitter interval
start_admitter_exact (pos zero) = inr (inl (refl, refl))
start_admitter_exact (pos (suc n)) = elim (Bool-cases (leb (suc n) second)) [
  | inl fits ↦
      let (below, above) = div_bounds second (suc n) (omega arith) in
      inl (suc n, second / suc n, refl, ground arith, positive n (ground arith), below, above)
  | inr exceeds ↦ inr (inr (inr (ground arith), ground (arith, vanishes n (ground arith))))
]
start_admitter_exact (negsuc n) =
    inr (inr (inl (omega arith), ground (arith, -ℤ_parts (pos 0) (pos (second / suc n)))))
