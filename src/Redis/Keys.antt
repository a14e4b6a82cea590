-- ===== src/Redis/Keys.antt =====
-- internal/redisx/keys.go: which pairs of ids share a key.
use flashsale_reservation.Prelude.{
  ℕ, ◌≡◌, ◌≢◌, inl, inr, refl, ap, false, [], ◌∷◌, ◌++◌, All, arith, Bool-cases,
}
use flashsale_reservation.Prelude.Text.{Text, codes, text_eq, text_eq_iff}
use flashsale_reservation.Redis.{
  colon, admission_key, inventory_key, queue_depth_key, risk_score_key,
}

-- An id with no colon in it, as a UUID is.
abbrev pub NoColon : Text → Type 0
NoColon = All (λ b. b ≢ colon)

split_at_colon :
    (s t u v : Text)
    → NoColon s
    → NoColon t
    → s ++ (colon ∷ u) ≡ t ++ (colon ∷ v)
    → (s ≡ t) × (u ≡ v)
split_at_colon [] [] u v hs ht e = ground arith
split_at_colon [] (b ∷ t) u v hs ht e = absurd (ground arith)
split_at_colon (a ∷ s) [] u v hs ht e = absurd (ground arith)
split_at_colon (a ∷ s) (b ∷ t) u v hs ht e = ground (arith, split_at_colon s t u v hs.1 ht.1)

tail_eq : (a b : ℕ) (s t : Text) → ◌≡◌ {A = Text} (a ∷ s) (b ∷ t) → s ≡ t
tail_eq a b s t e = cc

-- Where item ids have no colon, two admission tokens share a key only if they are of one item and
-- one user: whatever the users are called, nobody checks out on another's token.
admission_key_injective :
    (i j u v : Text)
    → NoColon i
    → NoColon j
    → admission_key i u ≡ admission_key j v
    → (i ≡ j) × (u ≡ v)
unfolding admission_key
admission_key_injective i j u v hi hj e = split_at_colon i j u v hi hj (drop_prefix e)
  where
    drop_prefix :
        codes "admission:" ++ (i ++ (colon ∷ u)) ≡ codes "admission:" ++ (j ++ (colon ∷ v))
        → i ++ (colon ∷ u) ≡ j ++ (colon ∷ v)
    drop_prefix e = cc

-- With a colon in the item id the format is ambiguous: the same key serves an item `a` with a user
-- `b:c` and an item `a:b` with a user `c`.
pub admission_key_ambiguous :
    (a b c : Text) → admission_key a (b ++ (colon ∷ c)) ≡ admission_key (a ++ (colon ∷ b)) c
unfolding admission_key
admission_key_ambiguous a b c = ap (◌++◌ (codes "admission:")) (append_colon a b c)
  where
    append_colon :
        (a b c : Text) → a ++ (colon ∷ (b ++ (colon ∷ c))) ≡ (a ++ (colon ∷ b)) ++ (colon ∷ c)
    append_colon [] b c = refl
    append_colon (x ∷ a) b c = ap (◌∷◌ x) (append_colon a b c)

pub inventory_key_injective : (i j : Text) → inventory_key i ≡ inventory_key j → i ≡ j
unfolding inventory_key
inventory_key_injective i j e = cc

-- The first byte, which tells the four formats apart.
abbrev first : Text → ℕ
first [] = 0
first (b ∷ t) = b

pub keys_apart : (i j : Text) → i ≢ j → text_eq (inventory_key i) (inventory_key j) ≡ false
keys_apart i j h = elim (Bool-cases (text_eq (inventory_key i) (inventory_key j))) [
  | inl same ↦ absurd (h (inventory_key_injective i j ((text_eq_iff _ _).0 same)))
  | inr apart ↦ apart
]

-- The four kinds of keys never meet, whatever ids are in them: no helper of one kind reads or
-- overwrites what a helper of another kind wrote.
pub key_kinds_apart :
    (i j u v : Text)
    → (admission_key i u ≢ inventory_key j)
      × (admission_key i u ≢ queue_depth_key j)
      × (admission_key i u ≢ risk_score_key j v)
      × (inventory_key i ≢ queue_depth_key j)
      × (inventory_key i ≢ risk_score_key j v)
      × (queue_depth_key i ≢ risk_score_key j v)
unfolding admission_key inventory_key queue_depth_key risk_score_key
key_kinds_apart i j u v = (
  λ e. absurd (omega (arith, ap first e)),
  λ e. absurd (omega (arith, ap first e)),
  λ e. absurd (omega (arith, ap first e)),
  λ e. absurd (omega (arith, ap first e)),
  λ e. absurd (omega (arith, ap first e)),
  λ e. absurd (omega (arith, ap first e)),
)
