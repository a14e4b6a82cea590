-- ===== src/Checkout/Advance.antt =====
-- cmd/checkout-api/main.go: one command of a checkout against the counter of its item.
use flashsale_reservation.Prelude.{
  ℕ, ◌+◌, ◌^◌, ◌≤◌, ◌<◌, ◌≡◌, inl, inr, ap, true, false, Option, none, some, arith, Bool-cases,
}
use flashsale_reservation.Prelude.Int.{ℤ, pos, pos_part, leb_ℤ}
use flashsale_reservation.Prelude.Text.{Text}
use flashsale_reservation.Prelude.Result.{err, Result-cases}
use flashsale_reservation.Redis.{
  Error, consume_admission, release_inventory, try_decrement_inventory, redis, inventory_not_found,
  insufficient_inventory, bad_quantity, bad_ttl, bad_depth, negative_seed,
}
use flashsale_reservation.Redis.FastPath.{Counts, try_decrement_inventory-Takes}
use flashsale_reservation.Kafka.{PurchaseAttempted, Codec, publish_attempt, new_idempotency_key}
use flashsale_reservation.Checkout.{CheckoutRequest, Site, Calls, on_context, is_empty}
use flashsale_reservation.Checkout.Effects.{
  grant-Counts, consume-Counts, IsSentOnce, release-Counts, on_context-IsSentOnce,
}
use flashsale_reservation.Checkout.NoOversell.{promised, positive}
use flashsale_reservation.Checkout.Steps.{
  Stage, arrived, token_spent, inventory_taken, submit_failed, released, answered, advance,
}

-- The units that a handler holds or has promised.
abbrev pub held : Stage → ℕ
held arrived = 0
held (token_spent req) = 0
held (inventory_taken req remaining) = pos_part req.quantity
held (submit_failed req status) = pos_part req.quantity
held (released req status) = 0
held (answered response) = promised response

abbrev Keeps : Text → ℕ → Stage × Site → Type 0
Keeps item n (t, s) = (m : ℕ) × Counts item m s.redis × (held t + m ≤ n)

module _ (codec : Codec PurchaseAttempted) (c : Calls) (ttl : ℤ) (item : Text) (s : Site) (n : ℕ)
    (h : Counts item n s.redis) where
  arrived-Keeps :
      (body : Option CheckoutRequest) → Keeps item n (advance codec c ttl item body arrived s)
  unfolding advance
  arrived-Keeps none = elim (Bool-cases (is_empty item)) [
    | inl e ↦ rw e (n, h, omega arith)
    | inr e ↦ rw e (n, h, omega arith)
  ]
  arrived-Keeps (some req) = elim (Bool-cases (is_empty item)) [
    | inl e ↦ rw e (n, h, omega arith)
    | inr ei ↦ elim (Bool-cases (is_empty req.user_id)) [
      | inl e ↦ rw ei (rw e (n, h, omega arith))
      | inr eu ↦ elim (Bool-cases (leb_ℤ req.quantity (pos 0))) [
        | inl e ↦ rw ei (rw eu (rw e (n, h, omega arith)))
        | inr eq ↦
            let count = consume-Counts c.consume c.consume_at item item req.user_id n s.redis h in
            rw ei (
              rw eu (
                rw eq
                  (elim (Result-cases
                    (consume_admission c.consume c.consume_at item req.user_id s.redis).0) [
                      | inr (x, e) ↦ rw (e, advance) (n, count, omega arith)
                      | inl (false, e) ↦ rw (e, advance) (n, count, omega arith)
                      | inl (true, e) ↦ rw (e, advance) (n, count, omega arith)
                    ])))
      ]
    ]
  ]

  refused-Keeps :
      (body : Option CheckoutRequest) (req : CheckoutRequest) (k : ℕ) (x : Error)
      → (try_decrement_inventory c.decrement c.decrement_at item req.quantity s.redis).0 ≡ err x
      → Counts item k
          (try_decrement_inventory c.decrement c.decrement_at item req.quantity s.redis).1
      → k ≤ n
      → Keeps item n (advance codec c ttl item body (token_spent req) s)
  unfolding advance
  refused-Keeps body req k negative_seed e count le = rw (e, advance) (k, count, omega (arith, le))
  refused-Keeps body req k bad_depth e count le = rw (e, advance) (k, count, omega (arith, le))
  refused-Keeps body req k bad_quantity e count le = rw (e, advance) (k, count, omega (arith, le))
  refused-Keeps body req k inventory_not_found e count le =
      rw (e, advance) (k, count, omega (arith, le))
  refused-Keeps body req k insufficient_inventory e count le =
      rw (e, advance) (k, count, omega (arith, le))
  refused-Keeps body req k bad_ttl e count le = rw (e, advance) (k, count, omega (arith, le))
  refused-Keeps body req k (redis y) e count le = rw (e, advance) (k, count, omega (arith, le))

  token_spent-Keeps :
      (body : Option CheckoutRequest) (req : CheckoutRequest)
      → n < 2 ^ 53
      → Keeps item n (advance codec c ttl item body (token_spent req) s)
  unfolding advance
  token_spent-Keeps body req range =
      let (k, count, how) =
        try_decrement_inventory-Takes c.decrement c.decrement_at item n req.quantity s.redis h
          range in
      elim how [
        | inl ((x, failed), le) ↦ refused-Keeps body req k x failed count le
        | inr (taken, ez, sold, le) ↦
            rw (sold, advance) (k, count, omega (arith, ap pos_part ez, le))
      ]

  inventory_taken-Keeps :
      (body : Option CheckoutRequest) (req : CheckoutRequest) (remaining : ℤ)
      → Keeps item
          (pos_part req.quantity + n)
          (advance codec c ttl item body (inventory_taken req remaining) s)
  unfolding advance
  inventory_taken-Keeps body req remaining = elim (Result-cases (new_idempotency_key c.random)) [
    | inr (x, failed) ↦ rw (failed, advance) (n, h, omega arith)
    | inl (key, drawn) ↦
        let event : PurchaseAttempted = record {
          item_id = item;
          user_id = req.user_id;
          quantity = req.quantity;
          idempotency_key = key;
          attempted_at = c.attempted_at;
        } in
        elim (Result-cases (publish_attempt codec c.delivery event s.topic).0) [
          | inl (_, sent) ↦ rw (drawn, advance) (rw (sent, advance) (n, h, omega arith))
          | inr (x, lost_it) ↦ rw (drawn, advance) (rw (lost_it, advance) (n, h, omega arith))
        ]
  ]

  release-Keeps :
      (z : ℤ)
      → pos_part z + n < 2 ^ 53
      → IsSentOnce c.release
      → (m : ℕ) × Counts item m
          (release_inventory (on_context c.client_gone c.release) c.release_at item z s.redis).1
        × (m ≤ pos_part z + n)
  unfolding release_inventory
  release-Keeps z range once = elim (Bool-cases (leb_ℤ z (pos 0))) [
    | inl none_asked ↦ rw none_asked (n, h, omega arith)
    | inr asked ↦
        let (q, e, p) = positive z asked in
        let link = on_context c.client_gone c.release in
        let back =
          release-Counts link c.release_at item n q s.redis h p
            (omega (arith, range, ap pos_part e))
            (on_context-IsSentOnce c.client_gone c.release once) in
        rw (e, release_inventory)
          (elim back [
            | inl all ↦ (n + q, all, omega (arith, ap pos_part e))
            | inr (kept, _) ↦ (n, kept, omega arith)
          ])
  ]

  -- A handler's next command creates no unit of its item: what the handler holds or has promised and
  -- the counter together do not grow.
  pub advance-Keeps :
      (body : Option CheckoutRequest) (t : Stage)
      → held t + n < 2 ^ 53
      → IsSentOnce c.release
      → Keeps item (held t + n) (advance codec c ttl item body t s)
  unfolding advance
  advance-Keeps body arrived range once =
      let (m, count, le) = arrived-Keeps body in (m, count, omega (arith, le))
  advance-Keeps body (token_spent req) range once =
      let (m, count, le) = token_spent-Keeps body req (omega (arith, range)) in
      (m, count, omega (arith, le))
  advance-Keeps body (inventory_taken req remaining) range once =
      inventory_taken-Keeps body req remaining
  advance-Keeps body (submit_failed req status) range once =
      let (m, count, le) = release-Keeps req.quantity range once in (m, count, omega (arith, le))
  advance-Keeps body (released req status) range once = (
    n,
    grant-Counts (on_context c.client_gone c.grant) c.grant_at c.stamp item item req.user_id ttl n
        s.redis h,
    omega arith,
  )
  advance-Keeps body (answered response) range once = (n, h, omega arith)
