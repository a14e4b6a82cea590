-- ===== src/Checkout/Gate.antt =====
-- cmd/checkout-api/main.go, handleCheckout: the admission token as the gate to the inventory.
use flashsale_reservation.Prelude.{
  ◌≡◌, ◌≢◌, inl, inr, subst, true, false, some, arith, Bool-cases, Option-cases,
}
use flashsale_reservation.Prelude.Int.{ℤ, pos, leb_ℤ}
use flashsale_reservation.Prelude.Text.{Text}
use flashsale_reservation.Prelude.Result.{ok, Result-cases}
use flashsale_reservation.Redis.{
  Redis, Entry, up, cut, lost, again, Link, get_del, read, admission_key, consume_admission,
  try_decrement_inventory, inventory_not_found, insufficient_inventory, bad_quantity, bad_ttl,
  bad_depth, negative_seed, redis,
}
use flashsale_reservation.Kafka.{PurchaseAttempted, Codec, publish_attempt, new_idempotency_key}
use flashsale_reservation.Checkout.{
  CheckoutRequest, Site, Calls, submit, reserve, admit, handle_checkout, is_empty,
}

consume_true :
    (link : Link) (now : ℤ) (item user : Text) (r : Redis)
    → (consume_admission link now item user r).0 ≡ ok true
    → (e : Entry) × (read now (admission_key item user) r ≡ some e)
unfolding consume_admission
consume_true up now item user r h = elim (Option-cases (read now (admission_key item user) r)) [
  | inl missing ↦ absurd (ground arith)
  | inr found ↦ found
]
consume_true cut now item user r h = absurd (ground arith)
consume_true lost now item user r h = absurd (ground arith)
consume_true (again link) now item user r h =
    let key = admission_key item user in
    let r' = (get_del now key r).1 in
    elim (Option-cases (read now key r)) [
      | inr found ↦ found
      | inl missing ↦
          let same : r' ≡ r = ground arith in
          let (e, f) = consume_true link now item user r' h in
          (e, subst (λ (x : Redis). read now key x ≡ some e) same f)
    ]

-- No reservation without admission: a checkout answers 200 only if a token of the user for the item
-- was there, unexpired, when the command reached Redis.
pub accepted_checkout_had_token :
    (codec : Codec PurchaseAttempted) (c : Calls) (ttl : ℤ) (item : Text) (req : CheckoutRequest)
    (s : Site)
    → (handle_checkout codec c ttl item (some req) s).0.status ≡ 200
    → (e : Entry) × (read c.consume_at (admission_key item req.user_id) s.redis ≡ some e)
unfolding handle_checkout admit
accepted_checkout_had_token codec c ttl item req s h =
    let res = (consume_admission c.consume c.consume_at item req.user_id s.redis).0 in
    elim (Bool-cases (is_empty item)) [
      | inl e ↦ absurd (ground arith)
      | inr ei ↦ elim (Bool-cases (is_empty req.user_id)) [
        | inl e ↦ absurd (ground arith)
        | inr eu ↦ elim (Bool-cases (leb_ℤ req.quantity (pos 0))) [
          | inl e ↦ absurd (ground arith)
          | inr eq ↦ elim (Result-cases res) [
            | inr (x, e) ↦ absurd (ground arith)
            | inl (false, e) ↦ absurd (ground arith)
            | inl (true, e) ↦ consume_true c.consume c.consume_at item req.user_id s.redis e
          ]
        ]
      ]
    ]

submit-status :
    (codec : Codec PurchaseAttempted) (c : Calls) (ttl : ℤ) (item : Text) (req : CheckoutRequest)
    (remaining : ℤ) (s : Site)
    → (submit codec c ttl item req remaining s).0.status ≢ 403
unfolding submit
submit-status codec c ttl item req remaining s h =
    elim (Result-cases (new_idempotency_key c.random)) [
      | inr (x, e) ↦ absurd (ground arith)
      | inl (key, drawn) ↦
          let event : PurchaseAttempted = record {
            item_id = item;
            user_id = req.user_id;
            quantity = req.quantity;
            idempotency_key = key;
            attempted_at = c.attempted_at;
          } in
          elim (Result-cases (publish_attempt codec c.delivery event s.topic).0) [
            | inl (u, sent) ↦ absurd (ground arith)
            | inr (x, lost_it) ↦ absurd (ground arith)
          ]
    ]

reserve-status :
    (codec : Codec PurchaseAttempted) (c : Calls) (ttl : ℤ) (item : Text) (req : CheckoutRequest)
    (s : Site)
    → (reserve codec c ttl item req s).0.status ≢ 403
unfolding reserve
reserve-status codec c ttl item req s h =
    let out = try_decrement_inventory c.decrement c.decrement_at item req.quantity s.redis in
    elim (Result-cases out.0) [
      | inl (n, e) ↦
          submit-status codec c ttl item req n (record s { redis = out.1 }) (ground arith)
      | inr (inventory_not_found, e) ↦ absurd (ground arith)
      | inr (insufficient_inventory, e) ↦ absurd (ground arith)
      | inr (bad_quantity, e) ↦ absurd (ground arith)
      | inr (bad_ttl, e) ↦ absurd (ground arith)
      | inr (bad_depth, e) ↦ absurd (ground arith)
      | inr (negative_seed, e) ↦ absurd (ground arith)
      | inr (redis x, e) ↦ absurd (ground arith)
    ]

-- A token opens the gate: a checkout whose token is found is not turned away with 403.
pub token_opens_gate :
    (codec : Codec PurchaseAttempted) (c : Calls) (ttl : ℤ) (item : Text) (req : CheckoutRequest)
    (s : Site)
    → (consume_admission c.consume c.consume_at item req.user_id s.redis).0 ≡ ok true
    → (handle_checkout codec c ttl item (some req) s).0.status ≢ 403
unfolding handle_checkout admit
token_opens_gate codec c ttl item req s found h =
    let r = (consume_admission c.consume c.consume_at item req.user_id s.redis).1 in
    elim (Bool-cases (is_empty item)) [
      | inl e ↦ absurd (ground arith)
      | inr ei ↦ elim (Bool-cases (is_empty req.user_id)) [
        | inl e ↦ absurd (ground arith)
        | inr eu ↦ elim (Bool-cases (leb_ℤ req.quantity (pos 0))) [
          | inl e ↦ absurd (ground arith)
          | inr eq ↦ reserve-status codec c ttl item req (record s { redis = r }) (ground arith)
        ]
      ]
    ]
