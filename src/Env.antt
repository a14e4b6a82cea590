-- ===== src/Env.antt =====
-- internal/config/env.go: settings from the environment, with `strconv.Atoi` on bytes.
pub mod Numerals
use flashsale_reservation.Prelude.{
  ℕ, suc, ◌+◌, ◌-◌, ◌*◌, ◌^◌, ◌≡◌, refl, Bool, ◌&&◌, Option, none, some, List, [], ◌∷◌, ltb, leb,
  ◌==◌, if◌then◌else◌,
}
use flashsale_reservation.Prelude.Int.{ℤ, pos, negsuc, ◌-ℤ◌, int64}
use flashsale_reservation.Prelude.Text.{Text, codes}
use flashsale_reservation.Retry.{second}

-- `os.Getenv`: a variable that is not set reads as the empty text.
abbrev pub Env : Type 0
Env = Text → Text

unfoldable pub string : Env → Text → Text → Text
string env key fallback = elim (env key) [ [] ↦ fallback | b ∷ t ↦ b ∷ t ]

abbrev pub is_digit : ℕ → Bool
is_digit c = leb b'0' c && leb c b'9'

-- The digits, read from the left onto what the digits before them gave.
unfoldable pub read_digits : Text → ℕ → Option ℕ
read_digits [] n = some n
read_digits (c ∷ s) n = if is_digit c then read_digits s (n * 10 + (c - b'0')) else none

-- At least one digit.
abbrev pub magnitude : Text → Option ℕ
magnitude [] = none
magnitude (c ∷ s) = read_digits (c ∷ s) 0

abbrev pub nonnegative : Option ℕ → Option ℤ
nonnegative none = none
nonnegative (some n) = if ltb n (2 ^ 63) then some (pos n) else none

abbrev pub negative : Option ℕ → Option ℤ
negative none = none
negative (some n) = if leb n (2 ^ 63) then some (pos 0 -ℤ pos n) else none

-- `strconv.Atoi`: a sign or none, then decimal digits, within the range of int64.
unfoldable pub atoi : Text → Option ℤ
atoi [] = none
atoi (c ∷ s) =
    if c == b'-'
    then negative (magnitude s)
    else if c == b'+'
    then nonnegative (magnitude s)
    else nonnegative (magnitude (c ∷ s))

-- What `Int` makes of the text, with a warning logged for one that is no number.
abbrev pub number_or : ℤ → Text → ℤ
number_or fallback [] = fallback
number_or fallback (b ∷ t) = elim (atoi (b ∷ t)) [ none ↦ fallback | some n ↦ n ]

unfoldable pub int : Env → Text → ℤ → ℤ
int env key fallback = number_or fallback (env key)

-- `time.Duration(v) * time.Second`, as a 64-bit product.
abbrev pub in_seconds : ℤ → ℤ
in_seconds (pos n) = int64 (pos (n * second))
in_seconds (negsuc n) = int64 (negsuc (suc n * second - 1))
