-- ===== src/WaitingRoomApi/Service.antt =====
-- cmd/waiting-room-api/main.go: the requests, against the lines that the admitters keep.
use flashsale_reservation.Prelude.{
  ℕ, Option, none, some, ◌++◌, sym, ◌≡◌, inl, inr, refl, ap, ◌∙◌, subst, Bool, true, false, List,
  [], ◌∷◌, Bool-cases, Option-cases, if◌then◌else◌,
}
use flashsale_reservation.Prelude.Int.{ℤ}
use flashsale_reservation.Prelude.Text.{Text, text_eq, text_eq-false, text_eq_iff}
use flashsale_reservation.Http.{Routed, found, method_not_allowed, not_found, route}
use flashsale_reservation.Redis.{Redis, Link}
use flashsale_reservation.Kafka.{BuyerJoined, Codec}
use flashsale_reservation.Admission.{
  Admitter, Event, joined, asked_depth, turn, run, Registry, serve, for_item,
}
use flashsale_reservation.Admission.Items.{
  line, serve-same, serve-other, line_of, line-found, for_item-found, for_item-other,
}
use flashsale_reservation.Checkout.{Site, is_empty}
use flashsale_reservation.WaitingRoom.{
  Wait, not_sent, not_placed, not_admitted, let_through, received, join, JoinRequest, Calls,
  handle_join, depth, handle_queue_depth,
}
use flashsale_reservation.WaitingRoomApi.{
  Endpoint, healthz, join_line, queue, Request, Room, Happening, requested, turned, routes,
  run_endpoint, serve_request, run_service,
}

-- Both ways in which a read of the depth ends leave every line as it was.
serve_depth-line :
    (item other : Text) (reg : Registry) → line item (serve other asked_depth reg).1 ≡ line item reg
unfolding turn
serve_depth-line item other reg = elim (Bool-cases (text_eq other item)) [
  | inl same ↦
      subst (λ k. line k (serve other asked_depth reg).1 ≡ line k reg)
        ((text_eq_iff other item).0 same) (serve-same other asked_depth reg)
  | inr apart ↦ serve-other other item asked_depth reg (text_eq-false other item apart)
]

for_item-line :
    (item other : Text) (reg : Registry) → line item (for_item other reg).1 ≡ line item reg
for_item-line item other reg = elim (Bool-cases (text_eq other item)) [
  | inl same ↦
      subst (λ k. line k (for_item other reg).1 ≡ line k reg) ((text_eq_iff other item).0 same)
        (line-found other (line other reg) (for_item other reg).1 (for_item-found other reg))
  | inr apart ↦ line_of item _ _ (for_item-other other item reg (text_eq-false other item apart))
]

depth-line :
    (answers : Bool) (item other : Text) (reg : Registry)
    → line item (depth answers other reg).1 ≡ line item reg
unfolding depth serve turn
depth-line true item other reg = serve_depth-line item other reg
depth-line false item other reg = for_item-line item other reg

queue-line :
    (answers : Bool) (link : Link) (item other : Text) (reg : Registry) (r : Redis)
    → line item (handle_queue_depth answers link other reg r).1 ≡ line item reg
unfolding handle_queue_depth
queue-line answers link item other reg r = elim (Bool-cases (is_empty other)) [
  | inl e ↦ rw e refl
  | inr e ↦ elim (Option-cases (depth answers other reg).0) [
    | inl unknown ↦ rw e (rw (unknown, handle_queue_depth) (depth-line answers item other reg))
    | inr (n, known) ↦ rw e (rw (known, handle_queue_depth) (depth-line answers item other reg))
  ]
]

serve-line :
    (item other : Text) (e : Event) (reg : Registry)
    → line item (serve other e reg).1
      ≡ (run (if text_eq other item then e ∷ [] else []) (line item reg)).1
unfolding run
serve-line item other e reg = elim (Bool-cases (text_eq other item)) [
  | inl same ↦ rw same (
      subst (λ k. line k (serve other e reg).1 ≡ (turn e (line k reg)).1)
        ((text_eq_iff other item).0 same) (serve-same other e reg))
  | inr apart ↦ rw apart (serve-other other item e reg (text_eq-false other item apart))
]

nothing-line : (b : Bool) (a : Admitter) → (run (if b then [] else []) a).1 ≡ a
unfolding run
nothing-line true a = refl
nothing-line false a = refl

join-line :
    (j : ℕ) (w : Wait) (item other : Text) (reg : Registry)
    → line item (join j w other reg).1
      ≡ (run (if text_eq other item then received j w else []) (line item reg)).1
unfolding join received
join-line j not_sent item other reg =
    for_item-line item other reg ∙ sym (nothing-line (text_eq other item) (line item reg))
join-line j not_placed item other reg = serve-line item other (joined j) reg
join-line j not_admitted item other reg = serve-line item other (joined j) reg
join-line j let_through item other reg = serve-line item other (joined j) reg

-- What a join request sends to the loop of an item: nothing if it is refused, and else what `Join`
-- sends.
abbrev pub sends : Text → Text → Option JoinRequest → Calls → List Event
sends item i none c = []
sends item i (some req) c =
    if is_empty i
    then []
    else if is_empty req.user_id
    then []
    else if text_eq i item
    then received c.joiner c.wait
    else []

handle_join-line :
    (codec : Codec BuyerJoined) (c : Calls) (ttl : ℤ) (item i : Text) (body : Option JoinRequest)
    (reg : Registry) (s : Site)
    → line item (handle_join codec c ttl i body reg s).1
      ≡ (run (sends item i body c) (line item reg)).1
unfolding handle_join run
handle_join-line codec c ttl item i none reg s = elim (Bool-cases (is_empty i)) [
  | inl e ↦ rw e refl
  | inr e ↦ rw e refl
]
handle_join-line codec c ttl item i (some req) reg s = elim (Bool-cases (is_empty i)) [
  | inl e ↦ rw e refl
  | inr ei ↦ elim (Bool-cases (is_empty req.user_id)) [
    | inl e ↦ rw ei (rw e refl)
    | inr eu ↦ elim (Option-cases (join c.joiner c.wait i reg).0) [
      | inl gone ↦ rw (ei, eu) (rw (gone, handle_join) (join-line c.joiner c.wait item i reg))
      | inr (p, stays) ↦
          rw (ei, eu) (rw (stays, handle_join) (join-line c.joiner c.wait item i reg))
    ]
  ]
]

-- What a request sends to the loop of an item that changes its line.
unfoldable pub joins_of : Text → Request → List Event
joins_of item q = elim (route routes q.method q.path) [
  | found (join_line i) ↦ sends item i q.body q.calls
  | _ ↦ []
]

serve_request-line :
    (codec : Codec BuyerJoined) (ttl : ℤ) (q : Request) (m : Room) (item : Text)
    → line item (serve_request codec ttl q m).1.registry
      ≡ (run (joins_of item q) (line item m.registry)).1
unfolding serve_request run_endpoint run joins_of
serve_request-line codec ttl q m item = by_route (route routes q.method q.path) refl
  where
    by_route :
        (r : Routed Endpoint)
        → route routes q.method q.path ≡ r
        → line item (serve_request codec ttl q m).1.registry
          ≡ (run (joins_of item q) (line item m.registry)).1
    by_route method_not_allowed e = rw (e, serve_request, joins_of) refl
    by_route not_found e = rw (e, serve_request, joins_of) refl
    by_route (found healthz) e = rw (e, serve_request, joins_of) refl
    by_route (found (join_line i)) e =
        rw (e, serve_request, joins_of)
          (handle_join-line codec q.calls ttl item i q.body m.registry m.site)
    by_route (found (queue i)) e =
        rw (e, serve_request, joins_of)
          (queue-line q.loop_answers q.link item i m.registry m.site.redis)

-- The events of one item's line: the joins of its requests, and the turns of its loop.
abbrev pub events_of : Text → List Happening → List Event
events_of item [] = []
events_of item (requested q ∷ hs) = joins_of item q ++ events_of item hs
events_of item (turned i e ∷ hs) = (if text_eq i item then e ∷ [] else []) ++ events_of item hs

run-append : (es fs : List Event) (a : Admitter) → (run (es ++ fs) a).1 ≡ (run fs (run es a).1).1
unfolding run
run-append [] fs a = refl
run-append (e ∷ es) fs a = run-append es fs (turn e a).1

-- Requests reach the line that they are for, and no other: whatever requests are answered, for
-- whatever items, and whatever they meet, an item's admitter ends up where `run` takes it over its
-- own joins, one for each request that is sent to the loop, and the turns of its own loop, in order.
-- Reads of the depth, refused requests and requests for other items do not move it.
pub lines_move_by_turns :
    (codec : Codec BuyerJoined) (ttl : ℤ) (hs : List Happening) (m : Room) (item : Text)
    → line item (run_service codec ttl hs m).1.registry
      ≡ (run (events_of item hs) (line item m.registry)).1
unfolding run_service
lines_move_by_turns codec ttl [] m item = unfold run in refl
lines_move_by_turns codec ttl (requested q ∷ hs) m item =
    lines_move_by_turns codec ttl hs (serve_request codec ttl q m).1 item
    ∙ ap (λ (a : Admitter). (run (events_of item hs) a).1) (serve_request-line codec ttl q m item)
    ∙ sym (run-append (joins_of item q) (events_of item hs) (line item m.registry))
lines_move_by_turns codec ttl (turned i e ∷ hs) m item =
    lines_move_by_turns codec ttl hs (record m { registry = (serve i e m.registry).1 }) item
    ∙ ap (λ (a : Admitter). (run (events_of item hs) a).1) (serve-line item i e m.registry)
    ∙ sym (
        run-append (if text_eq i item then e ∷ [] else []) (events_of item hs)
          (line item m.registry))
