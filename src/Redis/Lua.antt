-- ===== src/Redis/Lua.antt =====
-- The numbers of internal/redisx/inventory.go's Lua script, which are doubles. An integer is a double
-- below 2 ^ 53; from there to 2 ^ 54 every second one is, then every fourth, and so on.
use flashsale_reservation.Prelude.{
  ℕ, zero, suc, ◌+◌, ◌-◌, ◌*◌, ◌/◌, ◌%◌, ◌^◌, ◌≤◌, ◌<◌, ◌≡◌, false, inl, inr, ltb, ◌==◌, ◌&&◌, ◌||◌,
  if◌then◌else◌, arith, Bool-cases,
}
use flashsale_reservation.Prelude.Int.{ℤ, pos, negsuc, ◌-ℤ◌}

-- The multiple of `step` that is nearest, the even one of two.
abbrev nearest : ℕ → ℕ → ℕ
nearest step n =
    let low = n / step in
    let rest = n % step in
    if ltb step (2 * rest) || ((step == 2 * rest) && (low % 2 == 1))
    then (low + 1) * step
    else low * step

-- In the range from `base` to twice that, the doubles are `step` apart. Ten doublings of the range
-- cover the 64-bit integers.
abbrev round_from : ℕ → ℕ → ℕ → ℕ → ℕ
round_from zero base step n = base + nearest step (n - base)
round_from (suc k) base step n =
    let further = round_from k (2 * base) (2 * step) n in
    if ltb n (2 * base) then base + nearest step (n - base) else further

unfoldable pub double : ℕ → ℕ
double n = if ltb n (2 ^ 53) then n else round_from 10 (2 ^ 53) 2 n

unfoldable pub to_double : ℤ → ℤ
to_double (pos n) = pos (double n)
to_double (negsuc n) = pos 0 -ℤ pos (double (suc n))

pub double_exact : (n : ℕ) → n < 2 ^ 53 → double n ≡ n
unfolding double
double_exact n h = ground arith

round_from_least : (k base step n : ℕ) → base ≤ round_from k base step n
round_from_least zero base step n = omega arith
round_from_least (suc k) base step n = elim (Bool-cases (ltb n (2 * base))) [
  | inl near ↦ rw near (omega arith)
  | inr far ↦ rw far (omega (arith, round_from_least k (2 * base) (2 * step) n))
]

pub double_large : (n : ℕ) → 2 ^ 53 ≤ n → 2 ^ 53 ≤ double n
unfolding double
double_large n h =
    let large : ltb n (2 ^ 53) ≡ false = ground arith in rw large (round_from_least 10 (2 ^ 53) 2 n)
