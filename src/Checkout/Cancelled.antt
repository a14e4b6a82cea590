-- ===== src/Checkout/Cancelled.antt =====
-- cmd/checkout-api/main.go, releaseAndRegrant on the context of a cancelled request.
use flashsale_reservation.Prelude.{
  ℕ, ◌-◌, ◌^◌, ◌≤◌, ◌<◌, ◌≡◌, ◌⊎◌, inl, inr, refl, sym, ap, subst, true, none, some, List, arith,
  Option-cases,
}
use flashsale_reservation.Prelude.Int.{ℤ, pos}
use flashsale_reservation.Prelude.Text.{Text}
use flashsale_reservation.Prelude.Result.{err, Result-cases}
use flashsale_reservation.Redis.{
  Redis, Entry, up, admission_key, read, grant_admission, release_inventory,
}
use flashsale_reservation.Redis.FastPath.{Counts}
use flashsale_reservation.Kafka.{
  PurchaseAttempted, Codec, Delivery, acknowledged, failed, unacknowledged, Record, publish_attempt,
  new_idempotency_key,
}
use flashsale_reservation.Kafka
use flashsale_reservation.Checkout.{
  CheckoutRequest, Site, Calls, release_and_regrant, submit, handle_checkout,
}
use flashsale_reservation.Checkout.Admitted.{IsValid, enters}

-- On a context that has ended, nothing is undone.
gone-undo :
    (c : Calls) (ttl : ℤ) (item : Text) (req : CheckoutRequest) (r : Redis)
    → release_and_regrant true c ttl item req r ≡ r
unfolding release_and_regrant release_inventory grant_admission
gone-undo c ttl item req r = ground arith

failed_publish :
    (codec : Codec PurchaseAttempted) (event : PurchaseAttempted) (log : List Record)
    → (x : Kafka.Error) × (publish_attempt codec failed event log ≡ (err x, log))
unfolding publish_attempt
failed_publish codec event log = elim (Option-cases (codec.marshal event)) [
  | inl unencoded ↦ (Kafka.not_marshaled, ground arith)
  | inr (v, e) ↦ (Kafka.not_published, ground arith)
]

gone-submit :
    (codec : Codec PurchaseAttempted) (c : Calls) (ttl : ℤ) (item : Text) (req : CheckoutRequest)
    (remaining : ℤ) (s : Site)
    → c.delivery ≡ failed
    → c.client_gone ≡ true
    → let (response, s') = submit codec c ttl item req remaining s in
      ((response.status ≡ 500) ⊎ (response.status ≡ 503)) × (s' ≡ s)
unfolding submit release_and_regrant
gone-submit codec c ttl item req remaining s ed away =
    let kept : release_and_regrant c.client_gone c ttl item req s.redis ≡ s.redis =
      rw away (gone-undo c ttl item req s.redis) in
    elim (Result-cases (new_idempotency_key c.random)) [
      | inr (x, undrawn) ↦ rw (undrawn, submit) (inl refl, ap (λ r. record s { redis = r }) kept)
      | inl (key, drawn) ↦
          let event : PurchaseAttempted = record {
            item_id = item;
            user_id = req.user_id;
            quantity = req.quantity;
            idempotency_key = key;
            attempted_at = c.attempted_at;
          } in
          let (x, unsent) = failed_publish codec event s.topic in
          rw (drawn, submit)
            (rw ed (rw (unsent, submit) (inr refl, rw kept (rw ed (rw unsent refl)))))
    ]

-- When the client of a valid checkout of `q` of `n` units (n below 2^53), whose token is there, has
-- gone and its event is not written, the undoing comes to nothing, though Redis is in reach: the
-- release and the re-grant are made on the context of the request, which has ended. The answer is 500
-- or 503, but the counter stays at n - q, the token is gone, and the topic has no event to account
-- for the units.
pub cancelled_checkout_strands :
    (codec : Codec PurchaseAttempted) (c : Calls) (ttl : ℤ) (item : Text) (req : CheckoutRequest)
    (s : Site) (n q : ℕ) (e : Entry)
    → IsValid item req q
    → c.consume ≡ up
    → c.decrement ≡ up
    → c.delivery ≡ failed
    → c.client_gone ≡ true
    → read c.consume_at (admission_key item req.user_id) s.redis ≡ some e
    → Counts item n s.redis
    → n < 2 ^ 53
    → q ≤ n
    → let (response, s') = handle_checkout codec c ttl item (some req) s in
      ((response.status ≡ 500) ⊎ (response.status ≡ 503))
      × Counts item (n - q) s'.redis
      × (s'.redis (admission_key item req.user_id) ≡ none)
      × (s'.topic ≡ s.topic)
cancelled_checkout_strands codec c ttl item req s n q e valid e1 e2 ed away token h range le =
    let (r, is_submit, count, gone) =
      enters codec c ttl item req s n q e valid e1 e2 token h range le in
    let (status, same) =
      gone-submit codec c ttl item req (pos (n - q)) (record s { redis = r }) ed away in
    rw is_submit (
      status,
      subst (λ (x : Site). Counts item (n - q) x.redis) (sym same) count,
      subst (λ (x : Site). x.redis (admission_key item req.user_id) ≡ none) (sym same) gone,
      ap (λ (x : Site). x.topic) same,
    )
