-- ===== src/Checkout/Elsewhere.antt =====
-- cmd/checkout-api/main.go: one command of a checkout of another item leaves a counter alone.
use flashsale_reservation.Prelude.{
  ℕ, ◌≢◌, inl, inr, ◌∙◌, true, false, Option, none, some, Bool-cases,
}
use flashsale_reservation.Prelude.Int.{ℤ, pos, leb_ℤ}
use flashsale_reservation.Prelude.Text.{Text}
use flashsale_reservation.Prelude.Result.{Result-cases}
use flashsale_reservation.Redis.{
  consume_admission, try_decrement_inventory, redis, inventory_not_found, insufficient_inventory,
  bad_quantity, bad_ttl, bad_depth, negative_seed,
}
use flashsale_reservation.Redis.FastPath.{Counts}
use flashsale_reservation.Kafka.{PurchaseAttempted, Codec, publish_attempt, new_idempotency_key}
use flashsale_reservation.Checkout.{CheckoutRequest, Site, Calls, on_context, is_empty}
use flashsale_reservation.Checkout.Effects.{grant-Counts, consume-Counts}
use flashsale_reservation.Checkout.Others.{decrement-other, release-other}
use flashsale_reservation.Checkout.Steps.{
  Stage, arrived, token_spent, inventory_taken, submit_failed, released, answered, advance,
}

module _ (item other : Text) (distinct : other ≢ item) (codec : Codec PurchaseAttempted) (c : Calls)
    (ttl : ℤ) (n : ℕ) where
  token_spent-others :
      (body : Option CheckoutRequest) (req : CheckoutRequest) (s : Site)
      → Counts item n s.redis
      → Counts item n (advance codec c ttl other body (token_spent req) s).1.redis
  unfolding advance
  token_spent-others body req s h =
      let out = try_decrement_inventory c.decrement c.decrement_at other req.quantity s.redis in
      let kept =
        decrement-other item other distinct c.decrement c.decrement_at req.quantity s.redis ∙ h in
      elim (Result-cases out.0) [
        | inl (k, e) ↦ rw (e, advance) kept
        | inr (inventory_not_found, e) ↦ rw (e, advance) kept
        | inr (insufficient_inventory, e) ↦ rw (e, advance) kept
        | inr (bad_quantity, e) ↦ rw (e, advance) kept
        | inr (bad_ttl, e) ↦ rw (e, advance) kept
        | inr (bad_depth, e) ↦ rw (e, advance) kept
        | inr (negative_seed, e) ↦ rw (e, advance) kept
        | inr (redis x, e) ↦ rw (e, advance) kept
      ]

  arrived-others :
      (body : Option CheckoutRequest) (s : Site)
      → Counts item n s.redis
      → Counts item n (advance codec c ttl other body arrived s).1.redis
  unfolding advance
  arrived-others none s h = elim (Bool-cases (is_empty other)) [ inl e ↦ rw e h | inr e ↦ rw e h ]
  arrived-others (some req) s h = elim (Bool-cases (is_empty other)) [
    | inl e ↦ rw e h
    | inr ei ↦ elim (Bool-cases (is_empty req.user_id)) [
      | inl e ↦ rw ei (rw e h)
      | inr eu ↦ elim (Bool-cases (leb_ℤ req.quantity (pos 0))) [
        | inl e ↦ rw ei (rw eu (rw e h))
        | inr eq ↦
            let kept = consume-Counts c.consume c.consume_at item other req.user_id n s.redis h in
            rw ei (
              rw eu (
                rw eq
                  (elim (Result-cases
                    (consume_admission c.consume c.consume_at other req.user_id s.redis).0) [
                      | inr (x, e) ↦ rw (e, advance) kept
                      | inl (false, e) ↦ rw (e, advance) kept
                      | inl (true, e) ↦ rw (e, advance) kept
                    ])))
      ]
    ]
  ]

  -- A command for another item leaves this one's counter alone.
  pub advance-others :
      (body : Option CheckoutRequest) (t : Stage) (s : Site)
      → Counts item n s.redis
      → Counts item n (advance codec c ttl other body t s).1.redis
  unfolding advance
  advance-others body arrived s h = arrived-others body s h
  advance-others body (token_spent req) s h = token_spent-others body req s h
  advance-others body (inventory_taken req remaining) s h =
      elim (Result-cases (new_idempotency_key c.random)) [
        | inr (x, failed) ↦ rw (failed, advance) h
        | inl (key, drawn) ↦
            let event : PurchaseAttempted = record {
              item_id = other;
              user_id = req.user_id;
              quantity = req.quantity;
              idempotency_key = key;
              attempted_at = c.attempted_at;
            } in
            elim (Result-cases (publish_attempt codec c.delivery event s.topic).0) [
              | inl (_, sent) ↦ rw (drawn, advance) (rw (sent, advance) h)
              | inr (x, lost_it) ↦ rw (drawn, advance) (rw (lost_it, advance) h)
            ]
      ]
  advance-others body (submit_failed req status) s h =
      release-other item other distinct (on_context c.client_gone c.release) c.release_at
        req.quantity s.redis
      ∙ h
  advance-others body (released req status) s h =
      grant-Counts (on_context c.client_gone c.grant) c.grant_at c.stamp item other req.user_id ttl
        n s.redis h
  advance-others body (answered response) s h = h
