-- ===== src/CheckoutApi/Quiet.antt =====
-- cmd/checkout-api/main.go: all the traffic between two reconciliations of an item.
use flashsale_reservation.Prelude.{
  ℕ, ◌+◌, ◌^◌, ◌≤◌, ◌<◌, ◌≡◌, ◌≢◌, ◌⊎◌, inl, inr, refl, sym, ap, ◌∙◌, subst, false, Option, none,
  some, List, [], ◌∷◌, All, arith, Bool-cases, if◌then◌else◌,
}
use flashsale_reservation.Prelude.Int.{ℤ, pos_part}
use flashsale_reservation.Prelude.Text.{Text, text_eq, text_eq-false, text_eq_iff}
use flashsale_reservation.Http.{Routed, found, method_not_allowed, not_found, route}
use flashsale_reservation.Redis
use flashsale_reservation.Redis.{
  get_inventory, inventory_not_found, insufficient_inventory, bad_quantity, bad_ttl, bad_depth,
  negative_seed,
}
use flashsale_reservation.Redis.FastPath.{Counts}
use flashsale_reservation.Kafka.{PurchaseAttempted, Codec}
use flashsale_reservation.Checkout.{
  CheckoutRequest, CheckoutResponse, is_empty, handle_get_inventory, Response, Body, accepted,
  failure, available, Site, handle_checkout,
}
use flashsale_reservation.Checkout
use flashsale_reservation.Checkout.Effects.{IsSentOnce}
use flashsale_reservation.Checkout.NoOversell.{promised, handle_checkout-Covers}
use flashsale_reservation.Checkout.Others.{handle_checkout-others}
use flashsale_reservation.Checkout.Recorded.{handle_checkout-Recorded}
use flashsale_reservation.Reconcile.{
  item_not_found, database, redis, reconcile_item, handle_reconcile_item,
}
use flashsale_reservation.Prelude.Result.{Result-cases}
use flashsale_reservation.Reconcile.Pass.{reconcile_item-other}
use flashsale_reservation.CheckoutApi.{
  Setup, Endpoint, healthz, checkout, reconcile, inventory, Request, Answer, answered, healthy,
  unrouted, routes, Event, requested, ticked, run_endpoint, serve_request, run_service,
}

-- The units of the item that an answer promises.
abbrev pub promised_of : Text → Body → ℕ
promised_of item (accepted a) = if text_eq a.item_id item then pos_part a.quantity else 0
promised_of item _ = 0

abbrev pub promises : Text → Answer → ℕ
promises item (answered r) = promised_of item r.body
promises item (healthy service) = 0
promises item (unrouted status) = 0

abbrev pub promised_in : Text → List Answer → ℕ
promised_in item [] = 0
promised_in item (a ∷ answers) = promises item a + promised_in item answers

-- No tick of the reconciler, no request to reconcile the item, and no release that is sent again.
abbrev pub IsQuiet : Text → Event → Type 0
IsQuiet item (requested q) =
    (route routes q.method q.path ≢ found (reconcile item)) × IsSentOnce q.calls.release
IsQuiet item (ticked p) = ⊥

unfoldable Within : Text → ℕ → Answer × Site → Type 0
Within item n (a, s) = (m : ℕ) × Counts item m s.redis × (promises item a + m ≤ n)

promised_of-le :
    (item : Text) (b : Body) (status : ℕ)
    → promised_of item b ≤ promised (record { status = status; body = b })
promised_of-le item (accepted a) status = ground arith
promised_of-le item (failure t) status = ground arith
promised_of-le item (available t z) status = ground arith

Body-cases :
    (b : Body)
    → ((a : CheckoutResponse) × (b ≡ accepted a)) ⊎ ((item : Text) → promised_of item b ≡ 0)
Body-cases (accepted a) = inl (a, refl)
Body-cases (failure t) = inr (λ item. refl)
Body-cases (available t z) = inr (λ item. refl)

unreadable_promises_nothing :
    (codec : Codec PurchaseAttempted) (c : Checkout.Calls) (ttl : ℤ) (j item : Text) (s : Site)
    → promised_of item (handle_checkout codec c ttl j none s).0.body ≡ 0
unfolding handle_checkout
unreadable_promises_nothing codec c ttl j item s = elim (Bool-cases (is_empty j)) [
  | inl e ↦ rw e refl
  | inr e ↦ rw e refl
]

other_promises_nothing :
    (codec : Codec PurchaseAttempted) (c : Checkout.Calls) (ttl : ℤ) (j item : Text)
    (body : Option CheckoutRequest) (s : Site)
    → text_eq j item ≡ false
    → promised_of item (handle_checkout codec c ttl j body s).0.body ≡ 0
other_promises_nothing codec c ttl j item none s h =
    unreadable_promises_nothing codec c ttl j item s
other_promises_nothing codec c ttl j item (some req) s h =
    elim (Body-cases (handle_checkout codec c ttl j (some req) s).0.body) [
      | inr nothing ↦ nothing item
      | inl (a, e) ↦
          let (_, (same, _, _, _)) = handle_checkout-Recorded codec c ttl j req a s e in
          rw e (rw same (rw h refl))
    ]

module _ (f : Setup) (q : Request) (s : Site) (item : Text) (n : ℕ) (h : Counts item n s.redis)
    (range : n < 2 ^ 53) (once : IsSentOnce q.calls.release) where
  checkout-Within : (j : Text) → Within item n (run_endpoint f (checkout j) q s)
  unfolding run_endpoint Within
  checkout-Within j = elim (Bool-cases (text_eq j item)) [
    | inl same ↦
        let (m, count, fits) =
          handle_checkout-Covers f.codec q.calls f.admission_ttl item q.body s n h range once in
        let response = (handle_checkout f.codec q.calls f.admission_ttl item q.body s).0 in
        subst (λ k. Within item n (run_endpoint f (checkout k) q s))
          (sym ((text_eq_iff j item).0 same))
          (m, count, omega (arith, fits, promised_of-le item response.body response.status))
    | inr other ↦ (
      n,
      handle_checkout-others item j (text_eq-false j item other) f.codec q.calls f.admission_ttl
          q.body s n h,
      omega (arith, other_promises_nothing f.codec q.calls f.admission_ttl j item q.body s other),
    )
  ]

  reconcile-Within : (j : Text) → j ≢ item → Within item n (run_endpoint f (reconcile j) q s)
  unfolding run_endpoint Within handle_reconcile_item
  reconcile-Within j ne = elim (Bool-cases (is_empty j)) [
    | inl e ↦ rw e (n, h, omega arith)
    | inr e ↦
        let kept = reconcile_item-other f.uuids q.call j item s.redis ne ∙ h in
        elim (Result-cases (reconcile_item f.uuids q.call j s.redis).0) [
          | inl (k, done) ↦ rw e (rw (done, handle_reconcile_item) (n, kept, omega arith))
          | inr (item_not_found, failed) ↦
              rw e (rw (failed, handle_reconcile_item) (n, kept, omega arith))
          | inr (database x, failed) ↦
              rw e (rw (failed, handle_reconcile_item) (n, kept, omega arith))
          | inr (redis x, failed) ↦ rw e (rw (failed, handle_reconcile_item) (n, kept, omega arith))
        ]
  ]

  inventory-Within : (j : Text) → Within item n (run_endpoint f (inventory j) q s)
  unfolding run_endpoint Within handle_get_inventory
  inventory-Within j = elim (Bool-cases (is_empty j)) [
    | inl e ↦ rw e (n, h, omega arith)
    | inr e ↦ elim (Result-cases (get_inventory q.link q.now j s.redis)) [
      | inl (k, r) ↦ rw e (rw (r, handle_get_inventory) (n, h, omega arith))
      | inr (inventory_not_found, r) ↦ rw e (rw (r, handle_get_inventory) (n, h, omega arith))
      | inr (insufficient_inventory, r) ↦ rw e (rw (r, handle_get_inventory) (n, h, omega arith))
      | inr (bad_quantity, r) ↦ rw e (rw (r, handle_get_inventory) (n, h, omega arith))
      | inr (bad_ttl, r) ↦ rw e (rw (r, handle_get_inventory) (n, h, omega arith))
      | inr (bad_depth, r) ↦ rw e (rw (r, handle_get_inventory) (n, h, omega arith))
      | inr (negative_seed, r) ↦ rw e (rw (r, handle_get_inventory) (n, h, omega arith))
      | inr (Redis.redis x, r) ↦ rw e (rw (r, handle_get_inventory) (n, h, omega arith))
    ]
  ]

  serve_request-Within :
      route routes q.method q.path ≢ found (reconcile item) → Within item n (serve_request f q s)
  unfolding serve_request Within run_endpoint
  serve_request-Within quiet = by_route (route routes q.method q.path) refl
    where
      by_route :
          (r : Routed Endpoint)
          → route routes q.method q.path ≡ r
          → Within item n (serve_request f q s)
      by_route method_not_allowed e = rw (e, serve_request) (n, h, omega arith)
      by_route not_found e = rw (e, serve_request) (n, h, omega arith)
      by_route (found healthz) e = rw (e, serve_request) (n, h, omega arith)
      by_route (found (checkout j)) e = rw (e, serve_request) (checkout-Within j)
      by_route (found (inventory j)) e = rw (e, serve_request) (inventory-Within j)
      by_route (found (reconcile j)) e =
          rw (e, serve_request)
            (reconcile-Within j (λ same. quiet (e ∙ ap (λ k. found (reconcile k)) same)))

-- The traffic between two reconciliations of an item, request after request: checkouts and reads of
-- any items, requests for other items to be reconciled, and requests that no route takes. From a
-- counter of `n` units (below 2^53), whichever commands and writes fail, lose their answers or are
-- sent again, except that no INCRBY of a release is sent again, the units of the item that the
-- answers promise and those that its counter then shows are together at most `n`.
pub quiet_traffic_never_oversells :
    (f : Setup) (es : List Event) (s : Site) (item : Text) (n : ℕ)
    → All (IsQuiet item) es
    → Counts item n s.redis
    → n < 2 ^ 53
    → let (answers, s') = run_service f es s in
      (m : ℕ) × Counts item m s'.redis × (promised_in item answers + m ≤ n)
unfolding run_service Within
quiet_traffic_never_oversells f [] s item n quiet h range = (n, h, omega arith)
quiet_traffic_never_oversells f (ticked p ∷ es) s item n (noisy, quiet) h range = absurd noisy
quiet_traffic_never_oversells f (requested q ∷ es) s item n (first, quiet) h range =
    let out = serve_request f q s in
    let (k, count, one) = serve_request-Within f q s item n h range first.1 first.0 in
    let (m, last, others) =
      quiet_traffic_never_oversells f es out.1 item k quiet count (omega (arith, one)) in
    (m, last, omega (arith, one, others))
