-- ===== src/Checkout/Others.antt =====
-- cmd/checkout-api/main.go: a checkout of one item leaves the counters of the others alone.
use flashsale_reservation.Prelude.{
  zero, suc, ℕ, ◌≡◌, ◌≢◌, inl, inr, refl, ap, ◌∙◌, true, false, Option, none, some, Bool-cases,
}
use flashsale_reservation.Prelude.Int.{ℤ, pos, negsuc, leb_ℤ}
use flashsale_reservation.Prelude.Text.{Text}
use flashsale_reservation.Prelude.Result.{Result, ok, err, Result-cases}
use flashsale_reservation.Redis.{
  Redis, RedisError, Error, Link, incr_by, decrement_script, inventory_key, try_decrement_inventory,
  release_inventory, consume_admission, script_result, wrap, via, forget, inventory_not_found,
  insufficient_inventory, bad_quantity, bad_ttl, bad_depth, negative_seed, redis,
}
use flashsale_reservation.Redis.Frame.{incr_by-frame, script-frame, via-frame}
use flashsale_reservation.Redis.Keys.{keys_apart}
use flashsale_reservation.Redis.FastPath.{Counts}
use flashsale_reservation.Kafka.{PurchaseAttempted, Codec, publish_attempt, new_idempotency_key}
use flashsale_reservation.Checkout.{
  CheckoutRequest, Site, Calls, on_context, release_and_regrant, submit, reserve, admit,
  handle_checkout, is_empty,
}
use flashsale_reservation.Checkout.Effects.{grant-Counts, consume-Counts}

module _ (item other : Text) (distinct : other ≢ item) where
  script_result-store : (out : Result Error ℤ × Redis) → (script_result out).1 ≡ out.1
  script_result-store (err e, r) = refl
  script_result-store (ok (pos n), r) = refl
  script_result-store (ok (negsuc zero), r) = refl
  script_result-store (ok (negsuc (suc zero)), r) = refl
  script_result-store (ok (negsuc (suc (suc n))), r) = refl

  wrap-store : (out : Result RedisError ℤ × Redis) → (wrap out).1 ≡ out.1
  wrap-store (ok a, r) = refl
  wrap-store (err e, r) = refl

  forget-store : (out : Result Error ℤ × Redis) → (forget out).1 ≡ out.1
  forget-store (ok a, r) = refl
  forget-store (err e, r) = refl

  pub decrement-other :
      (link : Link) (now q : ℤ) (r : Redis)
      → (try_decrement_inventory link now other q r).1 (inventory_key item) ≡ r (inventory_key item)
  unfolding try_decrement_inventory
  decrement-other link now q r = elim (Bool-cases (leb_ℤ q (pos 0))) [
    | inl none_asked ↦ rw none_asked refl
    | inr asked ↦
        let sent = via link (decrement_script now (inventory_key other) q) r in
        rw asked (
          ap (λ (k : Redis). k (inventory_key item))
            (script_result-store (wrap sent) ∙ wrap-store sent)
          ∙ via-frame (inventory_key other) (inventory_key item) (keys_apart other item distinct)
              link _ r
              (script-frame (inventory_key other) (inventory_key item)
                (keys_apart other item distinct) now q))
  ]

  pub release-other :
      (link : Link) (now q : ℤ) (r : Redis)
      → (release_inventory link now other q r).1 (inventory_key item) ≡ r (inventory_key item)
  unfolding release_inventory
  release-other link now q r = elim (Bool-cases (leb_ℤ q (pos 0))) [
    | inl none_asked ↦ rw none_asked refl
    | inr asked ↦
        let sent = via link (incr_by now (inventory_key other) q) r in
        rw asked (
          ap (λ (k : Redis). k (inventory_key item)) (forget-store (wrap sent) ∙ wrap-store sent)
          ∙ via-frame (inventory_key other) (inventory_key item) (keys_apart other item distinct)
              link _ r
              (incr_by-frame (inventory_key other) (inventory_key item)
                (keys_apart other item distinct) now q))
  ]

  module _ (codec : Codec PurchaseAttempted) (c : Calls) (ttl : ℤ) (req : CheckoutRequest)
      (n : ℕ) where
    undo-others :
        (r : Redis)
        → Counts item n r
        → Counts item n (release_and_regrant c.client_gone c ttl other req r)
    unfolding release_and_regrant
    undo-others r h =
        grant-Counts (on_context c.client_gone c.grant) c.grant_at c.stamp item other req.user_id
          ttl n _
          (release-other (on_context c.client_gone c.release) c.release_at req.quantity r ∙ h)

    submit-others :
        (remaining : ℤ) (s : Site)
        → Counts item n s.redis
        → Counts item n (submit codec c ttl other req remaining s).1.redis
    unfolding submit
    submit-others remaining s h = elim (Result-cases (new_idempotency_key c.random)) [
      | inr (x, undrawn) ↦ rw (undrawn, submit) (undo-others s.redis h)
      | inl (key, drawn) ↦
          let event : PurchaseAttempted = record {
            item_id = other;
            user_id = req.user_id;
            quantity = req.quantity;
            idempotency_key = key;
            attempted_at = c.attempted_at;
          } in
          elim (Result-cases (publish_attempt codec c.delivery event s.topic).0) [
            | inl (u, sent) ↦ rw (drawn, submit) (rw (sent, submit) h)
            | inr (x, lost_it) ↦ rw (drawn, submit) (rw (lost_it, submit) (undo-others s.redis h))
          ]
    ]

    reserve-others :
        (s : Site) → Counts item n s.redis → Counts item n (reserve codec c ttl other req s).1.redis
    unfolding reserve
    reserve-others s h =
        let out = try_decrement_inventory c.decrement c.decrement_at other req.quantity s.redis in
        let kept = decrement-other c.decrement c.decrement_at req.quantity s.redis ∙ h in
        elim (Result-cases out.0) [
          | inl (k, e) ↦ rw (e, reserve) (submit-others k (record s { redis = out.1 }) kept)
          | inr (inventory_not_found, e) ↦ rw (e, reserve) kept
          | inr (insufficient_inventory, e) ↦ rw (e, reserve) kept
          | inr (bad_quantity, e) ↦ rw (e, reserve) kept
          | inr (bad_ttl, e) ↦ rw (e, reserve) kept
          | inr (bad_depth, e) ↦ rw (e, reserve) kept
          | inr (negative_seed, e) ↦ rw (e, reserve) kept
          | inr (redis x, e) ↦ rw (e, reserve) kept
        ]

    admit-others :
        (s : Site) → Counts item n s.redis → Counts item n (admit codec c ttl other req s).1.redis
    unfolding admit
    admit-others s h =
        let out = consume_admission c.consume c.consume_at other req.user_id s.redis in
        let kept = consume-Counts c.consume c.consume_at item other req.user_id n s.redis h in
        elim (Result-cases out.0) [
          | inr (x, e) ↦ rw (e, admit) kept
          | inl (false, e) ↦ rw (e, admit) kept
          | inl (true, e) ↦ rw (e, admit) (reserve-others (record s { redis = out.1 }) kept)
        ]

  -- Whatever a checkout of another item does, the counter of this one stays where it is.
  pub handle_checkout-others :
      (codec : Codec PurchaseAttempted) (c : Calls) (ttl : ℤ) (body : Option CheckoutRequest)
      (s : Site) (n : ℕ)
      → Counts item n s.redis
      → Counts item n (handle_checkout codec c ttl other body s).1.redis
  unfolding handle_checkout
  handle_checkout-others codec c ttl none s n h = elim (Bool-cases (is_empty other)) [
    | inl e ↦ rw e h
    | inr e ↦ rw e h
  ]
  handle_checkout-others codec c ttl (some req) s n h = elim (Bool-cases (is_empty other)) [
    | inl e ↦ rw e h
    | inr ei ↦ elim (Bool-cases (is_empty req.user_id)) [
      | inl e ↦ rw ei (rw e h)
      | inr eu ↦ elim (Bool-cases (leb_ℤ req.quantity (pos 0))) [
        | inl e ↦ rw ei (rw eu (rw e h))
        | inr eq ↦ rw ei (rw eu (rw eq (admit-others codec c ttl req n s h)))
      ]
    ]
  ]
