-- ===== src/Kafka/Key.antt =====
-- internal/kafkax/producer.go: the idempotency key determines its random bytes.
use native.Mathlib.Nat.{suc-add}
use flashsale_reservation.Prelude.{
  ℕ, zero, suc, ◌+◌, ◌-◌, ◌*◌, ◌/◌, ◌%◌, ◌≤◌, ◌<◌, ◌≡◌, refl, sym, ◌∙◌, List, [], ◌∷◌, ◌++◌, take,
  length, All, arith,
}
use flashsale_reservation.Prelude.Text.{Text}
use flashsale_reservation.Kafka.{hex_digit, hex, drop, dash, format_key}

abbrev pub IsByte : ℕ → Type 0
IsByte b = b < 256

hex_digit_injective : (a b : ℕ) → a < 16 → b < 16 → hex_digit a ≡ hex_digit b → a ≡ b
hex_digit_injective a b ha hb h = ground arith

length-hex : (bs : List ℕ) → length (hex bs) ≡ 2 * length bs
unfolding hex
length-hex [] = refl
length-hex (b ∷ bs) = omega (arith, length-hex bs)

hex_injective : (xs ys : List ℕ) → All IsByte xs → All IsByte ys → hex xs ≡ hex ys → xs ≡ ys
unfolding hex
hex_injective [] [] hx hy e = refl
hex_injective [] (y ∷ ys) hx hy e = cc
hex_injective (x ∷ xs) [] hx hy e = cc
hex_injective (x ∷ xs) (y ∷ ys) hx hy e = ground (
  arith,
  hex_digit_injective (x / 16) (y / 16),
  hex_digit_injective (x % 16) (y % 16),
  hex_injective xs ys hx.1 hy.1,
)

split_at_length : (s t u v : Text) → length s ≡ length t → s ++ u ≡ t ++ v → (s ≡ t) × (u ≡ v)
split_at_length [] [] u v h e = (refl, e)
split_at_length [] (b ∷ t) u v h e = absurd (omega arith)
split_at_length (a ∷ s) [] u v h e = absurd (omega arith)
split_at_length (a ∷ s) (b ∷ t) u v h e = ground (arith, split_at_length s t u v)

All-take : (n : ℕ) (xs : List ℕ) → All IsByte xs → All IsByte (take n xs)
All-take zero xs h = tt
All-take (suc n) [] h = tt
All-take (suc n) (x ∷ xs) h = (h.0, All-take n xs h.1)

All-drop : (n : ℕ) (xs : List ℕ) → All IsByte xs → All IsByte (drop n xs)
All-drop zero xs h = h
All-drop (suc n) [] h = tt
All-drop (suc n) (x ∷ xs) h = All-drop n xs h.1

length-drop : (n : ℕ) (xs : List ℕ) → length (drop n xs) ≡ length xs - n
length-drop zero xs = omega arith
length-drop (suc n) [] = omega arith
length-drop (suc n) (x ∷ xs) = omega (arith, length-drop n xs)

length-take : (n : ℕ) (xs : List ℕ) → n ≤ length xs → length (take n xs) ≡ n
length-take zero xs h = refl
length-take (suc n) [] h = absurd (omega arith)
length-take (suc n) (x ∷ xs) h = omega (arith, length-take n xs)

drop-nil : (n : ℕ) → drop n [] ≡ []
drop-nil zero = refl
drop-nil (suc n) = refl

drop-drop : (m n : ℕ) (xs : List ℕ) → drop m (drop n xs) ≡ drop (n + m) xs
drop-drop m zero xs = ground arith
drop-drop m (suc n) [] = ground (arith, drop-nil m, drop-nil (suc n + m))
drop-drop m (suc n) (x ∷ xs) = rw suc-add (drop-drop m n xs)

-- Lists that agree on a prefix and after it are the same.
join_parts : (n : ℕ) (xs ys : List ℕ) → take n xs ≡ take n ys → drop n xs ≡ drop n ys → xs ≡ ys
join_parts zero xs ys h e = e
join_parts (suc n) [] [] h e = refl
join_parts (suc n) [] (y ∷ ys) h e = cc
join_parts (suc n) (x ∷ xs) [] h e = cc
join_parts (suc n) (x ∷ xs) (y ∷ ys) h e = ground (arith, join_parts n xs ys)

module _ (b c : List ℕ) (hb : All IsByte b) (hc : All IsByte c) (lb : length b ≡ 16)
    (lc : length c ≡ 16) where
  -- Two keys that agree from the n-th byte on agree in the next m bytes and after them.
  next_group :
      (n m : ℕ) (u v : Text)
      → n + m ≤ 16
      → hex (take m (drop n b)) ++ u ≡ hex (take m (drop n c)) ++ v
      → (take m (drop n b) ≡ take m (drop n c)) × (u ≡ v)
  next_group n m u v fits e =
      let x = take m (drop n b) in
      let y = take m (drop n c) in
      let lx : length x ≡ m = length-take m (drop n b) (omega (arith, length-drop n b)) in
      let ly : length y ≡ m = length-take m (drop n c) (omega (arith, length-drop n c)) in
      let same : length (hex x) ≡ length (hex y) = omega (arith, length-hex x, length-hex y) in
      let (eq, rest) = split_at_length (hex x) (hex y) u v same e in
      (
        hex_injective x y (All-take m (drop n b) (All-drop n b hb))
            (All-take m (drop n c) (All-drop n c hc)) eq,
        rest,
      )

  -- From the end to the front: the bytes from n on agree.
  extend :
      (n m : ℕ)
      → take m (drop n b) ≡ take m (drop n c)
      → drop (n + m) b ≡ drop (n + m) c
      → drop n b ≡ drop n c
  extend n m group rest =
      join_parts m (drop n b) (drop n c) group (drop-drop m n b ∙ (rest ∙ sym (drop-drop m n c)))

  drop-all : drop 16 b ≡ drop 16 c
  drop-all =
      empty (drop 16 b) (omega (arith, length-drop 16 b))
      ∙ sym (empty (drop 16 c) (omega (arith, length-drop 16 c)))
    where
      empty : (xs : List ℕ) → length xs ≡ 0 → xs ≡ []
      empty [] h = refl
      empty (x ∷ xs) h = absurd (omega arith)

after_dash : (s t : Text) → ◌≡◌ {A = Text} (dash ∷ s) (dash ∷ t) → s ≡ t
after_dash s t e = cc

-- From the idempotency key its 16 random bytes can be read back: two attempts have the same key only
-- if `rand.Read` gave them the same bytes.
format_key_injective :
    (b c : List ℕ)
    → All IsByte b
    → All IsByte c
    → length b ≡ 16
    → length c ≡ 16
    → format_key b ≡ format_key c
    → b ≡ c
unfolding format_key
format_key_injective b c hb hc lb lc e =
    let (g0, e0) = next_group b c hb hc lb lc 0 4 _ _ (omega arith) e in
    let (g4, e4) = next_group b c hb hc lb lc 4 2 _ _ (omega arith) (after_dash _ _ e0) in
    let (g6, e6) = next_group b c hb hc lb lc 6 2 _ _ (omega arith) (after_dash _ _ e4) in
    let (g8, e8) = next_group b c hb hc lb lc 8 2 _ _ (omega arith) (after_dash _ _ e6) in
    let g10 : take 6 (drop 10 b) ≡ take 6 (drop 10 c) =
      hex_injective _ _ (All-take 6 (drop 10 b) (All-drop 10 b hb))
        (All-take 6 (drop 10 c) (All-drop 10 c hc)) (after_dash _ _ e8) in
    let d10 = extend b c hb hc lb lc 10 6 g10 (drop-all b c hb hc lb lc) in
    let d8 = extend b c hb hc lb lc 8 2 g8 d10 in
    let d6 = extend b c hb hc lb lc 6 2 g6 d8 in
    let d4 = extend b c hb hc lb lc 4 2 g4 d6 in extend b c hb hc lb lc 0 4 g0 d4
