-- ===== src/CheckoutApi/Seeded.antt =====
-- cmd/checkout-api/main.go: what seeding Redis before accepting traffic is for.
use mathlib.Core.List.{Memᴰ}
use flashsale_reservation.Prelude.{
  ℕ, ◌^◌, ◌≤◌, ◌<◌, ◌≡◌, ◌≢◌, inl, inr, sym, ◌∙◌, subst, true, false, Option, none, some, List, [],
  ◌∷◌, All, arith, Bool-cases, leb,
}
use flashsale_reservation.Prelude.Int.{ℤ, pos, negsuc, leb_ℤ}
use flashsale_reservation.Prelude.Text.{Text}
use flashsale_reservation.Prelude.Result.{ok, err, Result-cases}
use flashsale_reservation.Store.{Uuids, max_int4}
use flashsale_reservation.Http.{found, route}
use flashsale_reservation.Redis.{
  Redis, Link, up, cut, lost, again, Error, try_decrement_inventory, decrement_script, incr_by,
  read, consume_admission, seed_inventory, inventory_key, inventory_not_found,
  insufficient_inventory, bad_quantity, bad_ttl, bad_depth, negative_seed,
}
use flashsale_reservation.Redis
use flashsale_reservation.Redis.FastPath.{Counts, script-Counts, script-below}
use flashsale_reservation.Kafka.{PurchaseAttempted, Codec, publish_attempt, new_idempotency_key}
use flashsale_reservation.Checkout.{
  CheckoutRequest, Response, Site, Calls, submit, reserve, admit, handle_checkout, is_empty,
}
use flashsale_reservation.Checkout.Effects.{consume-Counts}
use flashsale_reservation.Reconcile.{
  Call, read_available, reconcile_item, reconcile_each, reconcile_all, active_item_ids,
}
use flashsale_reservation.Reconcile.Mirror.{Shows, reconcile-Counts}
use flashsale_reservation.Reconcile.Pass.{IsDistinct, each-other}
use flashsale_reservation.CheckoutApi.{
  Setup, Pass, checkout, Request, answered, routes, Event, reconcile_once, run_endpoint,
  serve_request, run_service, start_service,
}
use flashsale_reservation.CheckoutApi.Quiet.{IsQuiet, quiet_traffic_never_oversells}

-- A counter that is there is never reported as missing.
decrement-found :
    (link : Link) (now q : ℤ) (item : Text) (n : ℕ) (r : Redis)
    → Counts item n r
    → n < 2 ^ 53
    → (try_decrement_inventory link now item q r).0 ≢ err inventory_not_found
unfolding try_decrement_inventory
decrement-found cut now q item n r h range e = absurd (ground arith)
decrement-found lost now q item n r h range e = absurd (ground arith)
decrement-found (again link) now (negsuc k) item n r h range e = absurd (ground arith)
decrement-found (again link) now (pos k) item n r h range e = elim (Bool-cases (leb k 0)) [
  | inl nothing ↦ absurd (ground arith)
  | inr some_asked ↦
      let (m, count, le) = script-below now item n k r h range in
      decrement-found link now (pos k) item m
        (decrement_script now (inventory_key item) (pos k) r).1 count (omega (arith, range, le))
        (ground arith)
]
decrement-found up now (negsuc k) item n r h range e = absurd (ground arith)
decrement-found up now (pos k) item n r h range e = elim (Bool-cases (leb k 0)) [
  | inl nothing ↦ absurd (ground arith)
  | inr some_asked ↦ elim (script-Counts now item n k r h range) [
    | inl (short, res, kept) ↦ absurd (ground arith)
    | inr (enough, res, count) ↦ absurd (ground arith)
  ]
]

reconcile_item-up :
    (u : Uuids) (c : Call) (id : Text) (n : ℕ) (r : Redis)
    → c.query ≡ none
    → c.link ≡ up
    → Shows u c id n
    → (reconcile_item u c id r).0 ≡ ok (pos n)
unfolding reconcile_item read_available seed_inventory
reconcile_item-up u c id n r asked linked (i, it, p, f, same) = ground arith

-- The calls for the item go through, and the tables that its query sees show `n` units.
abbrev pub Answers : Uuids → (Text → Call) → Text → ℕ → Type 0
Answers u calls item n =
    ((calls item).query ≡ none) × ((calls item).link ≡ up) × Shows u (calls item) item n

-- The pass reaches the item, and leaves its counter at what Postgres shows.
each-Counts :
    (u : Uuids) (calls : Text → Call) (ids : List Text) (item : Text) (n : ℕ) (r : Redis)
    → Memᴰ item ids
    → IsDistinct ids
    → Answers u calls item n
    → Counts item n (reconcile_each u calls ids r).1
unfolding reconcile_each
each-Counts u calls [] item n r member _ h = elim member [ ]
each-Counts u calls (i ∷ ids) item n r (Memᴰ.head e) (new, distinct) h =
    let (asked, linked, shows) = subst (λ k. Answers u calls k n) e h in
    let (_, count) =
      reconcile-Counts u (calls i) i n r (reconcile_item-up u (calls i) i n r asked linked shows) in
    subst (λ k. Counts k n (reconcile_each u calls (i ∷ ids) r).1) (sym e)
      (each-other u calls ids i (reconcile_item u (calls i) i r).1 new ∙ count)
each-Counts u calls (i ∷ ids) item n r (Memᴰ.tail member) (new, distinct) h =
    each-Counts u calls ids item n (reconcile_item u (calls i) i r).1 member distinct h

pass-Counts :
    (u : Uuids) (p : Pass) (ids : List Text) (item : Text) (n : ℕ) (r : Redis)
    → active_item_ids u p.query p.db ≡ ok ids
    → Memᴰ item ids
    → IsDistinct ids
    → Answers u p.calls item n
    → Counts item n (reconcile_once u p r).1
unfolding reconcile_once reconcile_all
pass-Counts u p ids item n r active member distinct h =
    let count = each-Counts u p.calls ids item n r member distinct h in ground (arith, count)

submit-found :
    (codec : Codec PurchaseAttempted) (c : Calls) (ttl : ℤ) (item : Text) (req : CheckoutRequest)
    (remaining : ℤ) (s : Site)
    → (submit codec c ttl item req remaining s).0.status ≢ 404
unfolding submit
submit-found codec c ttl item req remaining s h =
    elim (Result-cases (new_idempotency_key c.random)) [
      | inr (x, e) ↦ absurd (ground arith)
      | inl (key, drawn) ↦
          let event : PurchaseAttempted = record {
            item_id = item;
            user_id = req.user_id;
            quantity = req.quantity;
            idempotency_key = key;
            attempted_at = c.attempted_at;
          } in
          elim (Result-cases (publish_attempt codec c.delivery event s.topic).0) [
            | inl (u, sent) ↦ absurd (ground arith)
            | inr (x, lost_it) ↦ absurd (ground arith)
          ]
    ]

reserve-found :
    (codec : Codec PurchaseAttempted) (c : Calls) (ttl : ℤ) (item : Text) (req : CheckoutRequest)
    (s : Site) (n : ℕ)
    → Counts item n s.redis
    → n < 2 ^ 53
    → (reserve codec c ttl item req s).0.status ≢ 404
unfolding reserve
reserve-found codec c ttl item req s n count range h =
    let out = try_decrement_inventory c.decrement c.decrement_at item req.quantity s.redis in
    elim (Result-cases out.0) [
      | inl (k, e) ↦ submit-found codec c ttl item req k (record s { redis = out.1 }) (ground arith)
      | inr (inventory_not_found, e) ↦
          decrement-found c.decrement c.decrement_at req.quantity item n s.redis count range e
      | inr (insufficient_inventory, e) ↦ absurd (ground arith)
      | inr (bad_quantity, e) ↦ absurd (ground arith)
      | inr (bad_ttl, e) ↦ absurd (ground arith)
      | inr (bad_depth, e) ↦ absurd (ground arith)
      | inr (negative_seed, e) ↦ absurd (ground arith)
      | inr (Redis.redis x, e) ↦ absurd (ground arith)
    ]

admit-found :
    (codec : Codec PurchaseAttempted) (c : Calls) (ttl : ℤ) (item : Text) (req : CheckoutRequest)
    (s : Site) (n : ℕ)
    → Counts item n s.redis
    → n < 2 ^ 53
    → (admit codec c ttl item req s).0.status ≢ 404
unfolding admit
admit-found codec c ttl item req s n count range h =
    let out = consume_admission c.consume c.consume_at item req.user_id s.redis in
    elim (Result-cases out.0) [
      | inr (x, e) ↦ absurd (ground arith)
      | inl (false, e) ↦ absurd (ground arith)
      | inl (true, e) ↦
          reserve-found codec c ttl item req (record s { redis = out.1 }) n
            (consume-Counts c.consume c.consume_at item item req.user_id n s.redis count) range
            (ground arith)
    ]

checkout-found :
    (codec : Codec PurchaseAttempted) (c : Calls) (ttl : ℤ) (item : Text)
    (body : Option CheckoutRequest) (s : Site) (n : ℕ)
    → Counts item n s.redis
    → n < 2 ^ 53
    → (handle_checkout codec c ttl item body s).0.status ≢ 404
unfolding handle_checkout
checkout-found codec c ttl item none s n count range h = elim (Bool-cases (is_empty item)) [
  | inl e ↦ absurd (ground arith)
  | inr e ↦ absurd (ground arith)
]
checkout-found codec c ttl item (some req) s n count range h = elim (Bool-cases (is_empty item)) [
  | inl e ↦ absurd (ground arith)
  | inr ei ↦ elim (Bool-cases (is_empty req.user_id)) [
    | inl e ↦ absurd (ground arith)
    | inr eu ↦ elim (Bool-cases (leb_ℤ req.quantity (pos 0))) [
      | inl e ↦ absurd (ground arith)
      | inr eq ↦ admit-found codec c ttl item req s n count range (ground arith)
    ]
  ]
]

-- Nobody is told that a seeded item is not on sale: if the pass that `main` runs before any traffic
-- lists the item among the active ones, whose ids are distinct, and its calls for the item go
-- through to tables that show `n` units of it, n in the range of INTEGER, then after any traffic
-- with no reconciliation of the item and no release sent again a checkout of it, whatever it meets, is not answered with 404.
pub seeded_item_is_found :
    (f : Setup) (p : Pass) (es : List Event) (s : Site) (ids : List Text) (item : Text) (n : ℕ)
    (q : Request) (response : Response)
    → active_item_ids f.uuids p.query p.db ≡ ok ids
    → Memᴰ item ids
    → IsDistinct ids
    → Answers f.uuids p.calls item n
    → n ≤ max_int4
    → All (IsQuiet item) es
    → route routes q.method q.path ≡ found (checkout item)
    → (serve_request f q (start_service f p es s).1).0 ≡ answered response
    → response.status ≢ 404
unfolding start_service serve_request run_endpoint
seeded_item_is_found f p es s ids item n q response active member distinct h range quiet routed
      answer =
    let seeded : Site = record s { redis = (reconcile_once f.uuids p s.redis).1 } in
    let count = pass-Counts f.uuids p ids item n s.redis active member distinct h in
    let (m, last, fits) =
      quiet_traffic_never_oversells f es seeded item n quiet count (omega (arith, range)) in
    let out =
      handle_checkout f.codec q.calls f.admission_ttl item q.body (run_service f es seeded).1 in
    let same : out.0 ≡ response = ground arith in
    subst (λ (r : Response). r.status ≢ 404) same
      (checkout-found f.codec q.calls f.admission_ttl item q.body (run_service f es seeded).1 m last
        (omega (arith, range, fits)))
