-- ===== src/WaitingRoomApi.antt =====
-- cmd/waiting-room-api/main.go as a service: its routes, and its requests with the admitters' events
-- between them.
pub mod Service
pub mod Shutdown
use flashsale_reservation.Prelude.{ℕ, Bool, Option, none, some, List, [], ◌∷◌, if◌then◌else◌}
use flashsale_reservation.Prelude.Int.{ℤ}
use flashsale_reservation.Prelude.Text.{Text, codes}
use flashsale_reservation.Http.{
  Method, get, post, Segment, literal, item_id, Route, Routed, found, method_not_allowed, not_found,
  route,
}
use flashsale_reservation.Redis.{Redis, Link}
use flashsale_reservation.Kafka.{BuyerJoined, Codec}
use flashsale_reservation.Admission.{Event, Reply, Registry, serve}
use flashsale_reservation.Checkout.{Site}
use flashsale_reservation.WaitingRoom.{JoinRequest, Answer, Calls, handle_join, handle_queue_depth}

-- The handlers of `newServer`.
pub data Endpoint : Type 0 where
  healthz : Endpoint
  join_line queue : Text → Endpoint

abbrev under_item : Text → List Segment
under_item name = literal (codes "items") ∷ item_id ∷ literal name ∷ []

unfoldable pub routes : List (Route Endpoint)
routes =
    record { method = get; pattern_of = literal (codes "healthz") ∷ []; handler = λ item. healthz }
    ∷ record { method = post; pattern_of = under_item (codes "join"); handler = join_line }
    ∷ record { method = get; pattern_of = under_item (codes "queue"); handler = queue }
    ∷ []

-- A request, with what its handler meets. A join stands where it meets the admitter's loop; its grant,
-- which comes when the loop has admitted it, is taken with it.
pub record Request : Type 0 where
  pub method : Method
  pub path : List Text
  pub body : Option JoinRequest
  pub calls : Calls
  pub loop_answers : Bool
  pub link : Link

-- The registry's admitters, and Redis with the topic of joins.
pub record Room : Type 0 where
  pub registry : Registry
  pub site : Site

pub data Served : Type 0 where
  answered : Answer → Served
  healthy : Text → Served
  unrouted : ℕ → Served

unfoldable pub run_endpoint : Codec BuyerJoined → ℤ → Endpoint → Request → Room → Served × Room
run_endpoint codec ttl healthz q m = (healthy (codes "waiting-room-api"), m)
run_endpoint codec ttl (join_line item) q m =
    let (answer, reg, s) = handle_join codec q.calls ttl item q.body m.registry m.site in
    (answered answer, record { registry = reg; site = s })
run_endpoint codec ttl (queue item) q m =
    let (answer, reg, r) = handle_queue_depth q.loop_answers q.link item m.registry m.site.redis in
    (answered answer, record { registry = reg; site = record m.site { redis = r } })

unfoldable pub serve_request : Codec BuyerJoined → ℤ → Request → Room → Served × Room
serve_request codec ttl q m = elim (route routes q.method q.path) [
  | found endpoint ↦ run_endpoint codec ttl endpoint q m
  | method_not_allowed ↦ (unrouted 405, m)
  | not_found ↦ (unrouted 404, m)
]

-- What happens in the service: a request is answered, or the admitter of an item takes a turn.
pub data Happening : Type 0 where
  requested : Request → Happening
  turned : Text → Event → Happening

unfoldable pub run_service : Codec BuyerJoined → ℤ → List Happening → Room → List Served × Room
run_service codec ttl [] m = ([], m)
run_service codec ttl (requested q ∷ hs) m =
    let (served, m') = serve_request codec ttl q m in
    let (rest, m'') = run_service codec ttl hs m' in (served ∷ rest, m'')
run_service codec ttl (turned item e ∷ hs) m =
    run_service codec ttl hs (record m { registry = (serve item e m.registry).1 })
