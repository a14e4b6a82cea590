-- ===== src/Checkout/NoOversell.antt =====
-- Checkouts of one item, in any number and however they fail, against its counter.
use flashsale_reservation.Prelude.{
  ℕ, ◌+◌, ◌^◌, ◌≤◌, ◌<◌, ◌≡◌, inl, inr, refl, sym, ap, ◌∙◌, true, false, Option, none, some, List,
  [], ◌∷◌, All, arith, Bool-cases,
}
use flashsale_reservation.Prelude.Int.{ℤ, pos, negsuc, pos_part, leb_ℤ}
use flashsale_reservation.Prelude.Text.{Text}
use flashsale_reservation.Prelude.Result.{err, Result-cases}
use flashsale_reservation.Redis.{
  Redis, Error, consume_admission, release_inventory, try_decrement_inventory, redis,
  inventory_not_found, insufficient_inventory, bad_quantity, bad_ttl, bad_depth, negative_seed,
}
use flashsale_reservation.Redis.FastPath.{Counts, try_decrement_inventory-Takes}
use flashsale_reservation.Kafka.{PurchaseAttempted, Codec, publish_attempt, new_idempotency_key}
use flashsale_reservation.Checkout.{
  CheckoutRequest, accepted, Response, Site, Calls, on_context, release_and_regrant, submit,
  reserve, admit, handle_checkout, is_empty,
}
use flashsale_reservation.Checkout.Effects.{
  grant-Counts, consume-Counts, IsSentOnce, release-Counts, on_context-IsSentOnce,
}

-- What the response promises the buyer.
abbrev pub promised : Response → ℕ
promised r = elim r.body [ accepted a ↦ pos_part a.quantity | _ ↦ 0 ]

-- The counter stands somewhere at which what was promised is covered by `n` units.
abbrev pub Covers : Text → ℕ → Response × Site → Type 0
Covers item n (r, s) = (m : ℕ) × Counts item m s.redis × (promised r + m ≤ n)

undo-Counts :
    (c : Calls) (ttl : ℤ) (item : Text) (req : CheckoutRequest) (m q : ℕ) (r : Redis)
    → req.quantity ≡ pos q
    → Counts item m r
    → 0 < q
    → m + q < 2 ^ 53
    → IsSentOnce c.release
    → (k : ℕ) × Counts item k (release_and_regrant c.client_gone c ttl item req r) × (k ≤ m + q)
unfolding release_and_regrant
undo-Counts c ttl item req m q r e h p range once =
    let link = on_context c.client_gone c.release in
    let r' = (release_inventory link c.release_at item (pos q) r).1 in
    let grant = on_context c.client_gone c.grant in
    rw e
      (elim (release-Counts link c.release_at item m q r h p range
        (on_context-IsSentOnce c.client_gone c.release once)) [
          | inl all ↦ (
            m + q,
            grant-Counts grant c.grant_at c.stamp item item req.user_id ttl (m + q) r' all,
            omega arith,
          )
          | inr (kept, _) ↦ (
            m,
            grant-Counts grant c.grant_at c.stamp item item req.user_id ttl m r' kept,
            omega arith,
          )
        ])

submit-Covers :
    (codec : Codec PurchaseAttempted) (c : Calls) (ttl : ℤ) (item : Text) (req : CheckoutRequest)
    (remaining : ℤ) (s : Site) (m q : ℕ)
    → req.quantity ≡ pos q
    → Counts item m s.redis
    → 0 < q
    → m + q < 2 ^ 53
    → IsSentOnce c.release
    → Covers item (m + q) (submit codec c ttl item req remaining s)
unfolding submit
submit-Covers codec c ttl item req remaining s m q e h p range once =
    let (k, back, le) = undo-Counts c ttl item req m q s.redis e h p range once in
    elim (Result-cases (new_idempotency_key c.random)) [
      | inr (x, failed) ↦ rw (failed, submit) (k, back, omega (arith, le))
      | inl (key, drawn) ↦
          let event : PurchaseAttempted = record {
            item_id = item;
            user_id = req.user_id;
            quantity = req.quantity;
            idempotency_key = key;
            attempted_at = c.attempted_at;
          } in
          elim (Result-cases (publish_attempt codec c.delivery event s.topic).0) [
            | inl (_, sent) ↦
                rw (drawn, submit) (rw (sent, submit) (m, h, omega (arith, ap pos_part e)))
            | inr (x, lost_it) ↦
                rw (drawn, submit) (rw (lost_it, submit) (k, back, omega (arith, le)))
          ]
    ]

pos_injective : {m n : ℕ} → pos m ≡ pos n → m ≡ n
pos_injective e = ap pos_part e

refused-Covers :
    (codec : Codec PurchaseAttempted) (c : Calls) (ttl : ℤ) (item : Text) (req : CheckoutRequest)
    (s : Site) (n k : ℕ) (x : Error)
    → (try_decrement_inventory c.decrement c.decrement_at item req.quantity s.redis).0 ≡ err x
    → Counts item k (try_decrement_inventory c.decrement c.decrement_at item req.quantity s.redis).1
    → k ≤ n
    → Covers item n (reserve codec c ttl item req s)
unfolding reserve
refused-Covers codec c ttl item req s n k negative_seed failed count le =
    rw (failed, reserve) (k, count, omega (arith, le))
refused-Covers codec c ttl item req s n k bad_depth failed count le =
    rw (failed, reserve) (k, count, omega (arith, le))
refused-Covers codec c ttl item req s n k bad_quantity failed count le =
    rw (failed, reserve) (k, count, omega (arith, le))
refused-Covers codec c ttl item req s n k inventory_not_found failed count le =
    rw (failed, reserve) (k, count, omega (arith, le))
refused-Covers codec c ttl item req s n k insufficient_inventory failed count le =
    rw (failed, reserve) (k, count, omega (arith, le))
refused-Covers codec c ttl item req s n k bad_ttl failed count le =
    rw (failed, reserve) (k, count, omega (arith, le))
refused-Covers codec c ttl item req s n k (redis y) failed count le =
    rw (failed, reserve) (k, count, omega (arith, le))

reserve-Covers :
    (codec : Codec PurchaseAttempted) (c : Calls) (ttl : ℤ) (item : Text) (req : CheckoutRequest)
    (s : Site) (n q : ℕ)
    → req.quantity ≡ pos q
    → Counts item n s.redis
    → 0 < q
    → n < 2 ^ 53
    → IsSentOnce c.release
    → Covers item n (reserve codec c ttl item req s)
unfolding reserve
reserve-Covers codec c ttl item req s n q e h p range once =
    let out = try_decrement_inventory c.decrement c.decrement_at item req.quantity s.redis in
    let (k, count, how) =
      try_decrement_inventory-Takes c.decrement c.decrement_at item n req.quantity s.redis h
        range in
    elim how [
      | inl ((x, failed), le) ↦ refused-Covers codec c ttl item req s n k x failed count le
      | inr (taken, ez, sold, le) ↦
          let one : q ≡ taken = pos_injective (sym e ∙ ez) in
          let (m, last, fits) =
            submit-Covers codec c ttl item req (pos k) (record s { redis = out.1 }) k q e count p
              (omega (arith, one, le)) once in
          rw (sold, reserve) (m, last, omega (arith, fits, one, le))
    ]

admit-Covers :
    (codec : Codec PurchaseAttempted) (c : Calls) (ttl : ℤ) (item : Text) (req : CheckoutRequest)
    (s : Site) (n q : ℕ)
    → req.quantity ≡ pos q
    → Counts item n s.redis
    → 0 < q
    → n < 2 ^ 53
    → IsSentOnce c.release
    → Covers item n (admit codec c ttl item req s)
unfolding admit
admit-Covers codec c ttl item req s n q e h p range once =
    let out = consume_admission c.consume c.consume_at item req.user_id s.redis in
    let count = consume-Counts c.consume c.consume_at item item req.user_id n s.redis h in
    elim (Result-cases out.0) [
      | inr (x, failed) ↦ rw (failed, admit) (n, count, omega arith)
      | inl (false, absent) ↦ rw (absent, admit) (n, count, omega arith)
      | inl (true, found) ↦
          rw (found, admit)
            (reserve-Covers codec c ttl item req (record s { redis = out.1 }) n q e count p range
              once)
    ]

pub positive : (z : ℤ) → leb_ℤ z (pos 0) ≡ false → (q : ℕ) × (z ≡ pos q) × (0 < q)
positive (pos q) h = (q, refl, ground arith)
positive (negsuc m) h = absurd (ground arith)

-- One checkout, valid or not and however its commands end, if its release is not sent again: what its
-- response promises and what the item's counter then shows are at most what the counter showed.
pub handle_checkout-Covers :
    (codec : Codec PurchaseAttempted) (c : Calls) (ttl : ℤ) (item : Text)
    (body : Option CheckoutRequest) (s : Site) (n : ℕ)
    → Counts item n s.redis
    → n < 2 ^ 53
    → IsSentOnce c.release
    → Covers item n (handle_checkout codec c ttl item body s)
unfolding handle_checkout
handle_checkout-Covers codec c ttl [] body s n h range once = (n, h, omega arith)
handle_checkout-Covers codec c ttl (b ∷ t) none s n h range once = (n, h, omega arith)
handle_checkout-Covers codec c ttl (b ∷ t) (some req) s n h range once =
    elim (Bool-cases (is_empty req.user_id)) [
      | inl anonymous ↦ rw anonymous (n, h, omega arith)
      | inr named ↦ rw named (elim (Bool-cases (leb_ℤ req.quantity (pos 0))) [
        | inl nothing ↦ rw nothing (n, h, omega arith)
        | inr wanted ↦
            let (q, e, p) = positive req.quantity wanted in
            rw wanted (admit-Covers codec c ttl (b ∷ t) req s n q e h p range once)
      ])
    ]

-- Checkouts of one item in the order in which they are served: the units promised, and the stores
-- after them.
unfoldable pub serve_all :
    Codec PurchaseAttempted → ℤ → Text → List (Calls × Option CheckoutRequest) → Site → ℕ × Site
serve_all codec ttl item [] s = (0, s)
serve_all codec ttl item ((c, body) ∷ rest) s =
    let (response, s') = handle_checkout codec c ttl item body s in
    let (total, s'') = serve_all codec ttl item rest s' in (promised response + total, s'')

-- Checkouts never oversell the counter: for any series of requests for an item whose counter shows
-- `n` (below 2^53), whichever commands and event writes fail, lose their answers or, but for the
-- releases, are sent again, the units that successful responses promise and the units the counter
-- still shows are together at most `n`.
pub checkouts_never_oversell :
    (codec : Codec PurchaseAttempted) (ttl : ℤ) (item : Text)
    (requests : List (Calls × Option CheckoutRequest)) (s : Site) (n : ℕ)
    → Counts item n s.redis
    → n < 2 ^ 53
    → All (λ (q : Calls × Option CheckoutRequest). IsSentOnce q.0.release) requests
    → let (total, s') = serve_all codec ttl item requests s in
      (m : ℕ) × Counts item m s'.redis × (total + m ≤ n)
unfolding serve_all
checkouts_never_oversell codec ttl item [] s n h range once = (n, h, omega arith)
checkouts_never_oversell codec ttl item ((c, body) ∷ rest) s n h range (first, once) =
    let out = handle_checkout codec c ttl item body s in
    let (k, count, one) = handle_checkout-Covers codec c ttl item body s n h range first in
    let (m, last, others) =
      checkouts_never_oversell codec ttl item rest out.1 k count (omega (arith, one)) once in
    (m, last, omega (arith, one, others))
