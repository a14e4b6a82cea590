-- ===== src/Reconcile/Mirror.antt =====
-- internal/reconcile, Item: Redis shows what Postgres says, and checkouts cannot sell more.

use flashsale_reservation.Prelude.{
  ℕ, ◌≤◌, ◌≡◌, ◌≢◌, ◌⊎◌, inl, inr, refl, ap, ◌∙◌, subst, Option, some, List, All, arith,
  Option-cases,
}
use flashsale_reservation.Prelude.Int.{ℤ, pos}
use flashsale_reservation.Prelude.Text.{Text}
use flashsale_reservation.Prelude.Result.{ok, err, Result-cases}
use flashsale_reservation.Store.{Item, Uuids, find_item, max_int4}
use flashsale_reservation.Redis.{
  Redis, Link, up, cut, lost, again, seed_inventory, write, inventory_key,
}
use flashsale_reservation.Redis.FastPath.{Counts, seed_inventory-Counts}
use flashsale_reservation.Kafka.{PurchaseAttempted, Codec, Record}
use flashsale_reservation.Redis
use flashsale_reservation.Checkout
use flashsale_reservation.Checkout.{CheckoutRequest, Site}
use flashsale_reservation.Checkout.Effects.{IsSentOnce}
use flashsale_reservation.Checkout.NoOversell.{serve_all, checkouts_never_oversell}
use flashsale_reservation.Reconcile.{Call, Error, redis, read_available, reconcile_item}

-- Postgres has a row for the id, which shows `n` units available.
abbrev pub Shows : Uuids → Call → Text → ℕ → Type 0
Shows u c id n =
    (i : ℕ) × (it : Item) × (u.parse id ≡ some i)
    × (find_item i c.db.items ≡ some it)
    × (it.available_inventory ≡ n)

read_available-Shows :
    (u : Uuids) (c : Call) (id : Text) (z : ℤ)
    → read_available u c id ≡ ok z
    → (n : ℕ) × (z ≡ pos n) × Shows u c id n
unfolding read_available
read_available-Shows u c id z h = elim (Option-cases c.query) [
  | inr (x, e) ↦ absurd (ground arith)
  | inl answered ↦ elim (Option-cases (u.parse id)) [
    | inl malformed ↦ absurd (ground arith)
    | inr (i, e) ↦ elim (Option-cases (find_item i c.db.items)) [
      | inl missing ↦ absurd (ground arith)
      | inr (it, f) ↦ (it.available_inventory, ground arith, (i, it, e, f, refl))
    ]
  ]
]

seed-cases :
    (link : Link) (id : Text) (n : ℕ) (r : Redis)
    → let (res, r') = seed_inventory link id (pos n) r in
      ((res ≡ ok tt) × Counts id n r')
      ⊎ ((x : Redis.Error) × (res ≡ err x) × ((r' ≡ r) ⊎ (link ≢ cut)))
seed-cases up id n r = inl (unfold seed_inventory in ground arith, seed_inventory-Counts id n r)
seed-cases cut id n r =
    unfold seed_inventory in inr (Redis.redis Redis.unreachable, ground arith, inl (ground arith))
seed-cases lost id n r =
    unfold seed_inventory in inr (Redis.redis Redis.unreachable, ground arith, inr (λ e. cc))
seed-cases (again link) id n r = elim (seed-cases link id n (seed_inventory up id (pos n) r).1) [
  | inl (done, count) ↦ inl (unfold seed_inventory in (ground arith, ground arith))
  | inr (x, failed, kept) ↦ inr (x, (unfold seed_inventory in ground arith), inr (λ e. cc))
]

-- Reconciling an item either answers the count that Postgres shows, and Redis's counter then shows
-- the same; or it answers an error, and has changed nothing in Redis unless the answer of the SET
-- was lost.
pub reconcile_item_mirrors :
    (u : Uuids) (c : Call) (id : Text) (r : Redis)
    → let (res, r') = reconcile_item u c id r in
      ((n : ℕ) × Shows u c id n × (res ≡ ok (pos n)) × Counts id n r')
      ⊎ ((x : Error) × (res ≡ err x) × ((r' ≡ r) ⊎ (c.link ≢ cut)))
unfolding reconcile_item
reconcile_item_mirrors u c id r = elim (Result-cases (read_available u c id)) [
  | inr (x, failed) ↦ rw (failed, reconcile_item) (inr (x, refl, inl refl))
  | inl (z, e) ↦
      let (n, ez, shows) = read_available-Shows u c id z e in
      rw (e ∙ ap ok ez, reconcile_item)
        (elim (seed-cases c.link id n r) [
          | inl (done, count) ↦ rw done (inl (n, shows, refl, count))
          | inr (x, failed, kept) ↦ rw failed (inr (redis x, refl, kept))
        ])
]

pub reconcile-Counts :
    (u : Uuids) (c : Call) (id : Text) (n : ℕ) (r : Redis)
    → (reconcile_item u c id r).0 ≡ ok (pos n)
    → Shows u c id n × Counts id n (reconcile_item u c id r).1
reconcile-Counts u c id n r h = elim (reconcile_item_mirrors u c id r) [
  | inl (m, shows, e, count) ↦
      let same : m ≡ n = ground arith in
      (
        subst (λ k. Shows u c id k) same shows,
        subst (λ k. Counts id k (reconcile_item u c id r).1) same count,
      )
  | inr (x, failed, kept) ↦ absurd (ground arith)
]

-- From a reconciliation to the next, checkouts promise no more than Postgres had: after one that
-- answers `n`, a number of an INTEGER column, Postgres showed n units for the item, and the
-- successful responses of any series of checkouts whose releases are not sent again promise at most n units.
pub reconciled_never_oversells :
    (u : Uuids) (c : Call) (id : Text) (n : ℕ) (r : Redis) (codec : Codec PurchaseAttempted)
    (ttl : ℤ) (requests : List (Checkout.Calls × Option CheckoutRequest)) (topic : List Record)
    → (reconcile_item u c id r).0 ≡ ok (pos n)
    → n ≤ max_int4
    → All (λ (q : Checkout.Calls × Option CheckoutRequest). IsSentOnce q.0.release) requests
    → Shows u c id n
      × ((serve_all codec ttl id requests
            (record { redis = (reconcile_item u c id r).1; topic = topic })).0
          ≤ n)
reconciled_never_oversells u c id n r codec ttl requests topic h range once =
    let (shows, count) = reconcile-Counts u c id n r h in
    let (m, last, fits) =
      checkouts_never_oversell codec ttl id requests
        (record { redis = (reconcile_item u c id r).1; topic = topic }) n count
        (omega (arith, range)) once in
    (shows, omega (arith, fits))
