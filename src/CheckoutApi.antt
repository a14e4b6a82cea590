-- ===== src/CheckoutApi.antt =====
-- cmd/checkout-api/main.go as a service: its routes, the requests it serves, and the reconciler.
pub mod Seeded
pub mod Quiet
use flashsale_reservation.Prelude.{
  ℕ, suc, Bool, true, false, Option, none, some, List, [], ◌∷◌, length, if◌then◌else◌,
}
use flashsale_reservation.Prelude.Int.{ℤ}
use flashsale_reservation.Prelude.Text.{Text, codes}
use flashsale_reservation.Prelude.Result.{Result, ok, err}
use flashsale_reservation.Http.{
  Method, get, post, Segment, literal, item_id, Route, Routed, found, method_not_allowed, not_found,
  route,
}
use flashsale_reservation.Store.{Db, DbError, Uuids}
use flashsale_reservation.Redis.{Redis, Link}
use flashsale_reservation.Kafka.{PurchaseAttempted, Codec}
use flashsale_reservation.Checkout.{
  CheckoutRequest, Response, Site, handle_checkout, handle_get_inventory,
}
use flashsale_reservation.Checkout
use flashsale_reservation.Reconcile.{Call, Outcome, reconcile_all, handle_reconcile_item}

-- What a pass meets: its first query, the tables that this query sees, and the call for each item.
pub record Pass : Type 0 where
  pub query : Option DbError
  pub db : Db
  pub calls : Text → Call

unfoldable pub count_failed : List Outcome → ℕ
count_failed [] = 0
count_failed (o ∷ outcomes) = elim o.available [
  | ok n ↦ count_failed outcomes
  | err e ↦ suc (count_failed outcomes)
]

-- The numbers of items and of failures that are logged, none if the pass itself fails.
unfoldable pub reconcile_once : Uuids → Pass → Redis → Option (ℕ × ℕ) × Redis
reconcile_once u p r =
    let (result, r') = reconcile_all u p.query p.db p.calls r in
    elim result [
      | err e ↦ (none, r')
      | ok outcomes ↦ (some (length outcomes, count_failed outcomes), r')
    ]

-- The handlers of `newServer`.
pub data Endpoint : Type 0 where
  healthz : Endpoint
  checkout reconcile inventory : Text → Endpoint

abbrev under_item : Text → List Segment
under_item name = literal (codes "items") ∷ item_id ∷ literal name ∷ []

unfoldable pub routes : List (Route Endpoint)
routes =
    record { method = get; pattern_of = literal (codes "healthz") ∷ []; handler = λ item. healthz }
    ∷ record { method = post; pattern_of = under_item (codes "checkout"); handler = checkout }
    ∷ record { method = post; pattern_of = under_item (codes "reconcile"); handler = reconcile }
    ∷ record { method = get; pattern_of = under_item (codes "inventory"); handler = inventory }
    ∷ []

-- A request, with what each handler meets if it is the one.
pub record Request : Type 0 where
  pub method : Method
  pub path : List Text
  pub body : Option CheckoutRequest
  pub calls : Checkout.Calls
  pub call : Call
  pub link : Link
  pub now : ℤ

-- What the client gets: a handler's response, the health endpoint's, or the mux's own 404 or 405.
pub data Answer : Type 0 where
  answered : Response → Answer
  healthy : Text → Answer
  unrouted : ℕ → Answer

pub record Setup : Type 0 where
  pub uuids : Uuids
  pub codec : Codec PurchaseAttempted
  pub admission_ttl : ℤ

unfoldable pub run_endpoint : Setup → Endpoint → Request → Site → Answer × Site
run_endpoint f healthz q s = (healthy (codes "checkout-api"), s)
run_endpoint f (checkout item) q s =
    let (response, s') = handle_checkout f.codec q.calls f.admission_ttl item q.body s in
    (answered response, s')
run_endpoint f (reconcile item) q s =
    let (response, r) = handle_reconcile_item f.uuids q.call item s.redis in
    (answered response, record s { redis = r })
run_endpoint f (inventory item) q s = (answered (handle_get_inventory q.link q.now item s.redis), s)

unfoldable pub serve_request : Setup → Request → Site → Answer × Site
serve_request f q s = elim (route routes q.method q.path) [
  | found endpoint ↦ run_endpoint f endpoint q s
  | method_not_allowed ↦ (unrouted 405, s)
  | not_found ↦ (unrouted 404, s)
]

-- The service at work: requests, and the ticks of `runReconciler`, until the context is cancelled,
-- which is the end of the list.
pub data Event : Type 0 where
  requested : Request → Event
  ticked : Pass → Event

unfoldable pub run_service : Setup → List Event → Site → List Answer × Site
run_service f [] s = ([], s)
run_service f (requested q ∷ es) s =
    let (answer, s') = serve_request f q s in
    let (answers, s'') = run_service f es s' in (answer ∷ answers, s'')
run_service f (ticked p ∷ es) s =
    run_service f es (record s { redis = (reconcile_once f.uuids p s.redis).1 })

-- `main`: the pass that seeds Redis, and then the traffic.
unfoldable pub start_service : Setup → Pass → List Event → Site → List Answer × Site
start_service f p es s =
    run_service f es (record s { redis = (reconcile_once f.uuids p s.redis).1 })
