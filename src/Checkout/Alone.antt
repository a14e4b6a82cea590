-- ===== src/Checkout/Alone.antt =====
-- cmd/checkout-api/main.go, handleCheckout: its commands one by one make up the handler.
use flashsale_reservation.Prelude.{◌≡◌, inl, inr, refl, true, false, Option, none, some, Bool-cases}
use flashsale_reservation.Prelude.Int.{ℤ, pos, leb_ℤ}
use flashsale_reservation.Prelude.Text.{Text}
use flashsale_reservation.Prelude.Result.{Result-cases}
use flashsale_reservation.Redis.{
  consume_admission, try_decrement_inventory, inventory_not_found, insufficient_inventory,
  bad_quantity, bad_ttl, bad_depth, negative_seed, redis,
}
use flashsale_reservation.Kafka.{PurchaseAttempted, Codec, publish_attempt, new_idempotency_key}
use flashsale_reservation.Checkout.{
  CheckoutRequest, Site, Calls, release_and_regrant, submit, reserve, admit, handle_checkout,
  is_empty, Response,
}
use flashsale_reservation.Checkout.Steps.{
  Stage, arrived, token_spent, inventory_taken, answered, advance, run_alone,
}

abbrev Ends : Stage × Site → Response × Site → Type 0
Ends out (response, s) = out ≡ (answered response, s)

module _ (codec : Codec PurchaseAttempted) (c : Calls) (ttl : ℤ) (item : Text)
    (body : Option CheckoutRequest) where
  submit-alone :
      (req : CheckoutRequest) (remaining : ℤ) (s : Site)
      → Ends
          (run_alone 3 codec c ttl item body (inventory_taken req remaining) s)
          (submit codec c ttl item req remaining s)
  unfolding run_alone advance submit release_and_regrant
  submit-alone req remaining s = elim (Result-cases (new_idempotency_key c.random)) [
    | inr (x, undrawn) ↦ rw (undrawn, submit, advance) refl
    | inl (key, drawn) ↦
        let event : PurchaseAttempted = record {
          item_id = item;
          user_id = req.user_id;
          quantity = req.quantity;
          idempotency_key = key;
          attempted_at = c.attempted_at;
        } in
        elim (Result-cases (publish_attempt codec c.delivery event s.topic).0) [
          | inl (u, sent) ↦ rw (drawn, submit, advance) (rw (sent, submit, advance) refl)
          | inr (x, lost_it) ↦ rw (drawn, submit, advance) (rw (lost_it, submit, advance) refl)
        ]
  ]

  reserve-alone :
      (req : CheckoutRequest) (s : Site)
      → Ends
          (run_alone 4 codec c ttl item body (token_spent req) s)
          (reserve codec c ttl item req s)
  unfolding run_alone advance reserve
  reserve-alone req s =
      let out = try_decrement_inventory c.decrement c.decrement_at item req.quantity s.redis in
      elim (Result-cases out.0) [
        | inl (k, e) ↦ rw (e, reserve, advance) (submit-alone req k (record s { redis = out.1 }))
        | inr (inventory_not_found, e) ↦ rw (e, reserve, advance) refl
        | inr (insufficient_inventory, e) ↦ rw (e, reserve, advance) refl
        | inr (bad_quantity, e) ↦ rw (e, reserve, advance) refl
        | inr (bad_ttl, e) ↦ rw (e, reserve, advance) refl
        | inr (bad_depth, e) ↦ rw (e, reserve, advance) refl
        | inr (negative_seed, e) ↦ rw (e, reserve, advance) refl
        | inr (redis x, e) ↦ rw (e, reserve, advance) refl
      ]

-- A handler whose commands nothing comes between is `handle_checkout`: within five commands it has
-- answered, with the same response and the same stores, whatever the request and however its commands
-- end.
run_alone-eq :
    (codec : Codec PurchaseAttempted) (c : Calls) (ttl : ℤ) (item : Text)
    (body : Option CheckoutRequest) (s : Site)
    → let (response, s') = handle_checkout codec c ttl item body s in
      run_alone 5 codec c ttl item body arrived s ≡ (answered response, s')
unfolding run_alone advance handle_checkout admit
run_alone-eq codec c ttl item none s = elim (Bool-cases (is_empty item)) [
  | inl e ↦ rw e refl
  | inr e ↦ rw e refl
]
run_alone-eq codec c ttl item (some req) s = elim (Bool-cases (is_empty item)) [
  | inl e ↦ rw e refl
  | inr ei ↦ elim (Bool-cases (is_empty req.user_id)) [
    | inl e ↦ rw ei (rw e refl)
    | inr eu ↦ elim (Bool-cases (leb_ℤ req.quantity (pos 0))) [
      | inl e ↦ rw ei (rw eu (rw e refl))
      | inr eq ↦
          let out = consume_admission c.consume c.consume_at item req.user_id s.redis in
          rw ei (
            rw eu (
              rw eq (elim (Result-cases out.0) [
                | inr (x, e) ↦ rw (e, admit, advance) refl
                | inl (false, e) ↦ rw (e, admit, advance) refl
                | inl (true, e) ↦
                    rw (e, admit, advance)
                      (reserve-alone codec c ttl item (some req) req (record s { redis = out.1 }))
              ])))
    ]
  ]
]
