-- ===== src/Env/Numerals.antt =====
-- internal/config/env.go: which texts `Int` takes as a number, and which number that is.
use native.Mathlib.Nat.{pow-suc}
use flashsale_reservation.Prelude.{
  ◌⊎◌, suc, ℕ, ◌+◌, ◌-◌, ◌*◌, ◌^◌, ◌≤◌, ◌<◌, ◌≡◌, inl, inr, refl, sym, ap, ◌∙◌, subst, true, Option,
  none, some, [], ◌∷◌, length, All, arith, Bool-cases, Option-cases, ◌==◌, ==_iff,
}
use flashsale_reservation.Prelude.Int.{ℤ, pos, pos_part, neg_part, ◌-ℤ◌}
use flashsale_reservation.Prelude.Text.{Text}
use flashsale_reservation.Env.{
  Env, is_digit, read_digits, magnitude, nonnegative, negative, atoi, number_or, int,
}

abbrev pub IsDigit : ℕ → Type 0
IsDigit c = is_digit c ≡ true

abbrev pub IsNumeral : Text → Type 0
IsNumeral s = All IsDigit s × (0 < length s)

-- A numeral's value by its places.
abbrev pub value : Text → ℕ
value [] = 0
value (c ∷ s) = (c - b'0') * 10 ^ length s + value s

-- The texts that stand for an int64, and what they stand for.
pub data Spells : Text → ℤ → Type 0 where
  plain : (s : Text) → IsNumeral s → value s < 2 ^ 63 → Spells s (pos (value s))
  plus : (s : Text) → IsNumeral s → value s < 2 ^ 63 → Spells (b'+' ∷ s) (pos (value s))
  minus : (s : Text) → IsNumeral s → value s ≤ 2 ^ 63 → Spells (b'-' ∷ s) (pos 0 -ℤ pos (value s))

next_place : (n d v k : ℕ) → (n * 10 + d) * 10 ^ k + v ≡ n * 10 ^ suc k + (d * 10 ^ k + v)
next_place n d v k = rw pow-suc (omega arith)

read_digits-value :
    (s : Text) (n : ℕ) → All IsDigit s → read_digits s n ≡ some (n * 10 ^ length s + value s)
unfolding read_digits
read_digits-value [] n h = ap some (ground arith)
read_digits-value (c ∷ s) n (h, hs) = rw h (
    read_digits-value s (n * 10 + (c - b'0')) hs
    ∙ ap some (next_place n (c - b'0') (value s) (length s)))

read_digits-All : (s : Text) (n m : ℕ) → read_digits s n ≡ some m → All IsDigit s
unfolding read_digits
read_digits-All [] n m h = tt
read_digits-All (c ∷ s) n m h = elim (Bool-cases (is_digit c)) [
  | inl digit ↦ (digit, read_digits-All s (n * 10 + (c - b'0')) m (ground arith))
  | inr other ↦ absurd (ground arith)
]

magnitude-value : (s : Text) → IsNumeral s → magnitude s ≡ some (value s)
magnitude-value [] (h, some_digit) = absurd (omega arith)
magnitude-value (c ∷ s) (h, some_digit) = read_digits-value (c ∷ s) 0 h ∙ ap some (omega arith)

magnitude-IsNumeral : (s : Text) (n : ℕ) → magnitude s ≡ some n → IsNumeral s × (n ≡ value s)
magnitude-IsNumeral [] n h = absurd cc
magnitude-IsNumeral (c ∷ s) n h =
    let digits = read_digits-All (c ∷ s) 0 n h in
    let numeral : IsNumeral (c ∷ s) = (digits, omega arith) in
    (numeral, ground (arith, magnitude-value (c ∷ s) numeral))

-- `Atoi` is sound and complete: it takes just the texts that spell an int64.
atoi-Spells : (t : Text) (z : ℤ) → Spells t z → atoi t ≡ some z
unfolding atoi
atoi-Spells t z (plain [] (h, some_digit) fits) = absurd (omega arith)
atoi-Spells t z (plain (c ∷ s) numeral fits) =
    ground (arith, magnitude-value (c ∷ s) numeral, numeral.0.0)
atoi-Spells t z (plus s numeral fits) = ground (arith, magnitude-value s numeral)
atoi-Spells t z (minus s numeral fits) = ground (arith, magnitude-value s numeral)

nonnegative-cases :
    (o : Option ℕ) (z : ℤ)
    → nonnegative o ≡ some z
    → (n : ℕ) × (o ≡ some n) × (n < 2 ^ 63) × (z ≡ pos n)
nonnegative-cases none z h = absurd cc
nonnegative-cases (some n) z h = (n, ground arith, ground arith, ground arith)

negative-cases :
    (o : Option ℕ) (z : ℤ)
    → negative o ≡ some z
    → (n : ℕ) × (o ≡ some n) × (n ≤ 2 ^ 63) × (z ≡ pos 0 -ℤ pos n)
negative-cases none z h = absurd cc
negative-cases (some n) z h = (n, ground arith, ground arith, ground arith)

module _ (s : Text) (z : ℤ) where
  nonnegative-Spells :
      nonnegative (magnitude s) ≡ some z → IsNumeral s × (value s < 2 ^ 63) × (pos (value s) ≡ z)
  nonnegative-Spells h =
      let (n, e, fits, ez) = nonnegative-cases (magnitude s) z h in
      let (numeral, same) = magnitude-IsNumeral s n e in
      (numeral, omega (arith, fits), ap pos (sym same) ∙ sym ez)

  negative-Spells :
      negative (magnitude s) ≡ some z
      → IsNumeral s × (value s ≤ 2 ^ 63) × (pos 0 -ℤ pos (value s) ≡ z)
  negative-Spells h =
      let (n, e, fits, ez) = negative-cases (magnitude s) z h in
      let (numeral, same) = magnitude-IsNumeral s n e in
      (numeral, omega (arith, fits), ap (λ k. pos 0 -ℤ pos k) (sym same) ∙ sym ez)

Spells-head : (b c : ℕ) (s : Text) (z : ℤ) → (c == b) ≡ true → Spells (b ∷ s) z → Spells (c ∷ s) z
Spells-head b c s z h spelled = subst (λ k. Spells (k ∷ s) z) (sym ((==_iff c b).0 h)) spelled

Spells-atoi : (t : Text) (z : ℤ) → atoi t ≡ some z → Spells t z
unfolding atoi
Spells-atoi [] z h = absurd cc
Spells-atoi (c ∷ s) z h = elim (Bool-cases (c == b'-')) [
  | inl dash ↦
      let (numeral, fits, e) = negative-Spells s z (ground arith) in
      Spells-head b'-' c s z dash (subst (λ w. Spells (b'-' ∷ s) w) e (minus s numeral fits))
  | inr no_dash ↦ elim (Bool-cases (c == b'+')) [
    | inl sign ↦
        let (numeral, fits, e) = nonnegative-Spells s z (ground arith) in
        Spells-head b'+' c s z sign (subst (λ w. Spells (b'+' ∷ s) w) e (plus s numeral fits))
    | inr bare ↦
        let (numeral, fits, e) = nonnegative-Spells (c ∷ s) z (ground arith) in
        subst (λ w. Spells (c ∷ s) w) e (plain (c ∷ s) numeral fits)
  ]
]

Spells-length : (t : Text) (z : ℤ) → Spells t z → 0 < length t
Spells-length t z (plain s numeral fits) = numeral.1
Spells-length t z (plus s numeral fits) = omega arith
Spells-length t z (minus s numeral fits) = omega arith

number_or-Spells : (fallback : ℤ) (t : Text) (z : ℤ) → Spells t z → number_or fallback t ≡ z
number_or-Spells fallback [] z h = absurd (omega (arith, Spells-length [] z h))
number_or-Spells fallback (b ∷ t) z h = rw (atoi-Spells (b ∷ t) z h, number_or) refl

number_or-fallback :
    (fallback : ℤ) (t : Text) → ((z : ℤ) → ¬ Spells t z) → number_or fallback t ≡ fallback
number_or-fallback fallback [] h = refl
number_or-fallback fallback (b ∷ t) h = elim (Option-cases (atoi (b ∷ t))) [
  | inl no_number ↦ rw (no_number, number_or) refl
  | inr (z, e) ↦ absurd (h z (Spells-atoi (b ∷ t) z e))
]

-- `Int` reads just the numerals: either the variable holds a sign or none and then decimal digits,
-- which spell an int64, and the setting is the number they have by their places; or its text, or the
-- empty text of a variable that is not set, spells no number, and the setting is the fallback.
pub int_exact :
    (env : Env) (key : Text) (fallback : ℤ)
    → ((z : ℤ) × Spells (env key) z × (int env key fallback ≡ z))
      ⊎ (((z : ℤ) → ¬ Spells (env key) z) × (int env key fallback ≡ fallback))
unfolding int
int_exact env key fallback = elim (Option-cases (atoi (env key))) [
  | inr (z, e) ↦
      let spelled = Spells-atoi (env key) z e in
      inl (z, spelled, number_or-Spells fallback (env key) z spelled)
  | inl none_read ↦
      let unspelled : (z : ℤ) → ¬ Spells (env key) z =
        λ z spelled. ground (arith, atoi-Spells (env key) z spelled) in
      inr (unspelled, number_or-fallback fallback (env key) unspelled)
]

abbrev pub IsInt64 : ℤ → Type 0
IsInt64 z = (pos_part z < 2 ^ 63) × (neg_part z ≤ 2 ^ 63)

Spells-IsInt64 : (t : Text) (z : ℤ) → Spells t z → IsInt64 z
unfolding ◌-ℤ◌
Spells-IsInt64 t z (plain s numeral fits) = (ground arith, ground arith)
Spells-IsInt64 t z (plus s numeral fits) = (ground arith, ground arith)
Spells-IsInt64 t z (minus s numeral fits) = (ground arith, ground arith)

pub int-IsInt64 :
    (env : Env) (key : Text) (fallback : ℤ) → IsInt64 fallback → IsInt64 (int env key fallback)
unfolding int
int-IsInt64 env key fallback h = go (env key)
  where
    go : (t : Text) → IsInt64 (number_or fallback t)
    go [] = h
    go (b ∷ t) = elim (Option-cases (atoi (b ∷ t))) [
      | inl no_number ↦ rw (no_number, number_or) h
      | inr (z, e) ↦ rw (e, number_or) (Spells-IsInt64 (b ∷ t) z (Spells-atoi (b ∷ t) z e))
    ]
