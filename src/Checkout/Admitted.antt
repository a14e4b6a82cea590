-- ===== src/Checkout/Admitted.antt =====
-- cmd/checkout-api/main.go, handleCheckout, up to the point where token and inventory are taken.
use flashsale_reservation.Prelude.{
  ℕ, ◌-◌, ◌^◌, ◌≤◌, ◌<◌, ◌≡◌, inl, inr, refl, sym, true, false, none, some, arith, Bool-cases,
}
use flashsale_reservation.Prelude.Int.{ℤ, pos, leb_ℤ}
use flashsale_reservation.Prelude.Text.{Text, text_eq, text_eq_self, text_eq_iff}
use flashsale_reservation.Prelude.Result.{ok}
use flashsale_reservation.Redis.{
  Redis, Entry, up, inventory_key, admission_key, read, write, consume_admission,
  try_decrement_inventory,
}
use flashsale_reservation.Redis.Keys.{key_kinds_apart}
use flashsale_reservation.Redis.FastPath.{Counts, script-Counts}
use flashsale_reservation.Redis.Frame.{script-frame}
use flashsale_reservation.Kafka.{PurchaseAttempted, Codec}
use flashsale_reservation.Checkout.{
  CheckoutRequest, Site, Calls, submit, reserve, admit, handle_checkout, is_empty,
}
use flashsale_reservation.Checkout.Effects.{consume-Counts}

inventory_apart : (i u j : Text) → text_eq (inventory_key j) (admission_key i u) ≡ false
inventory_apart i u j = elim (Bool-cases (text_eq (inventory_key j) (admission_key i u))) [
  | inl same ↦ absurd ((key_kinds_apart i j u u).0 (sym ((text_eq_iff _ _).0 same)))
  | inr apart ↦ apart
]

abbrev pub Gone : Text → Text → Redis → Type 0
Gone item user r = r (admission_key item user) ≡ none

decrement-Gone :
    (now : ℤ) (item user : Text) (n q : ℕ) (r : Redis)
    → Counts item n r
    → n < 2 ^ 53
    → 0 < q
    → q ≤ n
    → Gone item user r
    → let (res, r') = try_decrement_inventory up now item (pos q) r in
      (res ≡ ok (pos (n - q))) × Counts item (n - q) r' × Gone item user r'
unfolding try_decrement_inventory
decrement-Gone now item user n q r h range p le g =
    let apart =
      script-frame (inventory_key item) (admission_key item user) (inventory_apart item user item)
        now (pos q) r in
    elim (script-Counts now item n q r h range) [
      | inl (short, _, _) ↦ absurd (omega (arith, short, le))
      | inr (_, answer, count) ↦
          (ground (arith, answer), ground (arith, answer, count), ground (arith, answer, apart, g))
    ]

consume-Gone :
    (now : ℤ) (item user : Text) (r : Redis) (e : Entry)
    → read now (admission_key item user) r ≡ some e
    → let (res, r') = consume_admission up now item user r in (res ≡ ok true) × Gone item user r'
unfolding consume_admission write
consume-Gone now item user r e h =
    (ground arith, ground (arith, text_eq_self (admission_key item user)))

-- A request that passes the validation.
abbrev pub IsValid : Text → CheckoutRequest → ℕ → Type 0
IsValid item req q =
    (is_empty item ≡ false) × (is_empty req.user_id ≡ false) × (req.quantity ≡ pos q) × (0 < q)

-- A valid request with a token and enough units gets as far as `submit`, with both taken.
pub enters :
    (codec : Codec PurchaseAttempted) (c : Calls) (ttl : ℤ) (item : Text) (req : CheckoutRequest)
    (s : Site) (n q : ℕ) (e : Entry)
    → IsValid item req q
    → c.consume ≡ up
    → c.decrement ≡ up
    → read c.consume_at (admission_key item req.user_id) s.redis ≡ some e
    → Counts item n s.redis
    → n < 2 ^ 53
    → q ≤ n
    → (r : Redis) × (handle_checkout codec c ttl item (some req) s
        ≡ submit codec c ttl item req (pos (n - q)) (record s { redis = r }))
      × Counts item (n - q) r
      × Gone item req.user_id r
unfolding handle_checkout admit reserve
enters codec c ttl item req s n q e (ei, eu, eq, p) eu1 eu2 token h range le =
    let r1 = (consume_admission up c.consume_at item req.user_id s.redis).1 in
    let (found, gone) = consume-Gone c.consume_at item req.user_id s.redis e token in
    let (took, count, still) =
      decrement-Gone c.decrement_at item req.user_id n q r1
        (consume-Counts up c.consume_at item item req.user_id n s.redis h) range p le gone in
    let wanted : leb_ℤ (pos q) (pos 0) ≡ false = ground arith in
    (
      (try_decrement_inventory up c.decrement_at item (pos q) r1).1,
      rw (ei, eu, eq, eu1, eu2) (rw wanted (rw (found, admit) (rw (took, reserve) refl))),
      count,
      still,
    )
