-- ===== src/Checkout/Recorded.antt =====
-- cmd/checkout-api/main.go, handleCheckout: what a successful answer says was written to the topic.
use flashsale_reservation.Prelude.{
  ℕ, ◌≡◌, inl, inr, refl, sym, ap, ◌∙◌, subst, true, false, some, List, ◌∷◌, ◌++◌, arith,
  Bool-cases, Option-cases,
}
use flashsale_reservation.Prelude.Int.{ℤ, pos, leb_ℤ, ◌<ℤ◌}
use flashsale_reservation.Prelude.Text.{Text}
use flashsale_reservation.Prelude.Result.{Result, ok, Result-cases}
use flashsale_reservation.Redis.{
  consume_admission, try_decrement_inventory, inventory_not_found, insufficient_inventory,
  bad_quantity, bad_ttl, bad_depth, negative_seed, redis,
}
use flashsale_reservation.Kafka.Copies.{copies, written-copies}
use flashsale_reservation.Kafka.{
  Error, write_message, PurchaseAttempted, Codec, Delivery, Record, publish_attempt,
  new_idempotency_key,
}
use flashsale_reservation.Checkout.{
  CheckoutRequest, CheckoutResponse, Site, Calls, accepted, submit, reserve, admit, handle_checkout,
  is_empty,
}

-- The event that stands for an accepted checkout, made at a time.
abbrev pub event_of : CheckoutResponse → ℤ → PurchaseAttempted
event_of r at = record {
  item_id = r.item_id;
  user_id = r.user_id;
  quantity = r.quantity;
  idempotency_key = r.idempotency_key;
  attempted_at = at;
}

pub written :
    (codec : Codec PurchaseAttempted) (d : Delivery) (event : PurchaseAttempted) (log : List Record)
    → (publish_attempt codec d event log).0 ≡ ok tt
    → (v : Text) × (codec.marshal event ≡ some v)
      × (k : ℕ) × ((publish_attempt codec d event log).1
          ≡ log
            ++ (record { key = event.item_id; value = v }
                ∷ copies k (record { key = event.item_id; value = v })))
unfolding publish_attempt
written codec d event log h = elim (Option-cases (codec.marshal event)) [
  | inl unencoded ↦ absurd (ground arith)
  | inr (v, e) ↦
      let m : Record = record { key = event.item_id; value = v } in
      let is_write : publish_attempt codec d event log ≡ write_message d m log = ground arith in
      let (k, once) =
        written-copies d m log
          (sym (ap (λ (o : Result Error Unit × List Record). o.0) is_write) ∙ h) in
      (v, e, k, ap (λ (o : Result Error Unit × List Record). o.1) is_write ∙ once)
]

-- What stands on the topic for the answer: its event, written at least once.
abbrev pub Recorded :
    Codec PurchaseAttempted
    → Calls
    → Text
    → CheckoutRequest
    → CheckoutResponse
    → Site
    → Site
    → Type 0
Recorded codec c item req r s s' =
    (r.item_id ≡ item)
    × (r.user_id ≡ req.user_id)
    × (r.quantity ≡ req.quantity)
    × ((v : Text) × (codec.marshal (event_of r c.attempted_at) ≡ some v)
        × (k : ℕ) × (s'.topic
            ≡ s.topic
              ++ (record { key = item; value = v } ∷ copies k (record { key = item; value = v }))))

module _ (codec : Codec PurchaseAttempted) (c : Calls) (ttl : ℤ) (item : Text)
    (req : CheckoutRequest) (r : CheckoutResponse) where
  submit-Recorded :
      (remaining : ℤ) (s : Site)
      → (submit codec c ttl item req remaining s).0.body ≡ accepted r
      → Recorded codec c item req r s (submit codec c ttl item req remaining s).1
  unfolding submit
  submit-Recorded remaining s h = elim (Result-cases (new_idempotency_key c.random)) [
    | inr (x, e) ↦ absurd (ground arith)
    | inl (key, drawn) ↦
        let told : CheckoutResponse = record {
          item_id = item;
          user_id = req.user_id;
          quantity = req.quantity;
          remaining = remaining;
          idempotency_key = key;
        } in
        elim (Result-cases
          (publish_attempt codec c.delivery (event_of told c.attempted_at) s.topic).0) [
            | inr (x, lost_it) ↦ absurd (ground arith)
            | inl (u, sent) ↦
                let same : told ≡ r = ground arith in
                subst
                  (λ k. Recorded codec c item req k s (submit codec c ttl item req remaining s).1)
                  same
                  (rw (drawn, submit)
                    (rw (sent, submit) (refl, refl, refl, written codec c.delivery _ s.topic sent)))
          ]
  ]

  reserve-Recorded :
      (s : Site)
      → (reserve codec c ttl item req s).0.body ≡ accepted r
      → Recorded codec c item req r s (reserve codec c ttl item req s).1
  unfolding reserve
  reserve-Recorded s h =
      let out = try_decrement_inventory c.decrement c.decrement_at item req.quantity s.redis in
      elim (Result-cases out.0) [
        | inl (n, e) ↦
            rw (e, reserve) (submit-Recorded n (record s { redis = out.1 }) (ground arith))
        | inr (inventory_not_found, e) ↦ absurd (ground arith)
        | inr (insufficient_inventory, e) ↦ absurd (ground arith)
        | inr (bad_quantity, e) ↦ absurd (ground arith)
        | inr (bad_ttl, e) ↦ absurd (ground arith)
        | inr (bad_depth, e) ↦ absurd (ground arith)
        | inr (negative_seed, e) ↦ absurd (ground arith)
        | inr (redis x, e) ↦ absurd (ground arith)
      ]

  admit-Recorded :
      (s : Site)
      → (admit codec c ttl item req s).0.body ≡ accepted r
      → Recorded codec c item req r s (admit codec c ttl item req s).1
  unfolding admit
  admit-Recorded s h =
      let out = consume_admission c.consume c.consume_at item req.user_id s.redis in
      elim (Result-cases out.0) [
        | inr (x, e) ↦ absurd (ground arith)
        | inl (false, e) ↦ absurd (ground arith)
        | inl (true, e) ↦
            rw (e, admit) (reserve-Recorded (record s { redis = out.1 }) (ground arith))
      ]

  -- A checkout that answers with an accepted order has put just its event on the topic, under the
  -- item, and the quantity is positive.
  pub handle_checkout-Recorded :
      (s : Site)
      → (handle_checkout codec c ttl item (some req) s).0.body ≡ accepted r
      → (pos 0 <ℤ req.quantity)
        × Recorded codec c item req r s (handle_checkout codec c ttl item (some req) s).1
  unfolding handle_checkout
  handle_checkout-Recorded s h = elim (Bool-cases (is_empty item)) [
    | inl e ↦ absurd (ground arith)
    | inr ei ↦ elim (Bool-cases (is_empty req.user_id)) [
      | inl e ↦ absurd (ground arith)
      | inr eu ↦ elim (Bool-cases (leb_ℤ req.quantity (pos 0))) [
        | inl e ↦ absurd (ground arith)
        | inr eq ↦ (ground arith, rw ei (rw eu (rw eq (admit-Recorded s (ground arith)))))
      ]
    ]
  ]
