-- ===== src/Reconcile/Pass.antt =====
-- internal/reconcile, All: one pass over the active items.
use flashsale_reservation.Prelude.{
  ℕ, ◌≡◌, ◌≢◌, ◌⊎◌, inl, inr, refl, sym, ap, ◌∙◌, Option, List, [], ◌∷◌, map, All, arith,
  Bool-cases,
}
use flashsale_reservation.Prelude.Int.{ℤ, pos, ltb_ℤ}
use flashsale_reservation.Prelude.Text.{Text}
use flashsale_reservation.Prelude.Result.{ok, err, Result-cases}
use flashsale_reservation.Store.{Db, DbError, Uuids}
use flashsale_reservation.Redis.{
  Redis, Link, up, cut, lost, again, set_count, seed_inventory, write, inventory_key,
}
use flashsale_reservation.Redis.Keys.{keys_apart}
use flashsale_reservation.Redis.FastPath.{Counts}
use flashsale_reservation.Reconcile.{
  Call, Error, Outcome, read_available, reconcile_item, active_item_ids, reconcile_each,
  reconcile_all,
}
use flashsale_reservation.Reconcile.Mirror.{Shows, reconcile_item_mirrors}

-- No id twice, as the primary key has it.
abbrev pub IsDistinct : List Text → Type 0
IsDistinct [] = Unit {0}
IsDistinct (i ∷ ids) = All (λ (j : Text). i ≢ j) ids × IsDistinct ids

-- An item's outcome, against what Postgres showed for it and what Redis shows in the end.
abbrev pub Settled : Uuids → (Text → Call) → Redis → Outcome → Type 0
Settled u calls r o =
    ((n : ℕ) × Shows u (calls o.item_id) o.item_id n
      × (o.available ≡ ok (pos n))
      × Counts o.item_id n r)
    ⊎ ((x : Error) × (o.available ≡ err x))

seed-other :
    (link : Link) (i j : Text) (z : ℤ) (r : Redis)
    → i ≢ j
    → (seed_inventory link i z r).1 (inventory_key j) ≡ r (inventory_key j)
unfolding seed_inventory write
seed-other up i j z r h = ground (arith, keys_apart i j h)
seed-other cut i j z r h = ground arith
seed-other lost i j z r h = ground (arith, keys_apart i j h)
seed-other (again link) i j z r h = elim (Bool-cases (ltb_ℤ z (pos 0))) [
  | inl negative ↦ rw negative refl
  | inr counted ↦
      let r' = (set_count (inventory_key i) z r).1 in
      rw counted (rw counted at (seed-other link i j z r' h) ∙ ground (arith, keys_apart i j h))
]

pub reconcile_item-other :
    (u : Uuids) (c : Call) (i j : Text) (r : Redis)
    → i ≢ j
    → (reconcile_item u c i r).1 (inventory_key j) ≡ r (inventory_key j)
unfolding reconcile_item
reconcile_item-other u c i j r h = elim (Result-cases (read_available u c i)) [
  | inr (x, failed) ↦ rw (failed, reconcile_item) refl
  | inl (z, e) ↦ elim (Result-cases (seed_inventory c.link i z r).0) [
    | inl (_, done) ↦
        rw (e, reconcile_item) (rw (done, reconcile_item) (seed-other c.link i j z r h))
    | inr (x, failed) ↦
        rw (e, reconcile_item) (rw (failed, reconcile_item) (seed-other c.link i j z r h))
  ]
]

pub each-other :
    (u : Uuids) (calls : Text → Call) (ids : List Text) (i : Text) (r : Redis)
    → All (λ (j : Text). i ≢ j) ids
    → (reconcile_each u calls ids r).1 (inventory_key i) ≡ r (inventory_key i)
unfolding reconcile_each
each-other u calls [] i r h = refl
each-other u calls (j ∷ ids) i r (h, hs) =
    each-other u calls ids i (reconcile_item u (calls j) j r).1 hs
    ∙ reconcile_item-other u (calls j) j i r (λ e. h (sym e))

each-Settled :
    (u : Uuids) (calls : Text → Call) (ids : List Text) (r : Redis)
    → IsDistinct ids
    → let (outcomes, r') = reconcile_each u calls ids r in
      (map (λ (o : Outcome). o.item_id) outcomes ≡ ids) × All (Settled u calls r') outcomes
unfolding reconcile_each
each-Settled u calls [] r h = (refl, tt)
each-Settled u calls (i ∷ ids) r (new, h) =
    let r1 = (reconcile_item u (calls i) i r).1 in
    let (same, rest) = each-Settled u calls ids r1 h in
    (
      ap (λ (js : List Text). i ∷ js) same,
      (
        elim (reconcile_item_mirrors u (calls i) i r) [
          | inl (n, shows, e, count) ↦ inl (n, shows, e, each-other u calls ids i r1 new ∙ count)
          | inr (x, failed, _) ↦ inr (x, failed)
        ],
        rest,
      ),
    )

-- A pass over the active items, whose ids are distinct, has one outcome for each of them, in order,
-- however many fail. An outcome is an error, or the count that Postgres showed for the item, and then
-- the item's counter in Redis shows the same when the pass is over.
pub reconcile_all_mirrors :
    (u : Uuids) (query : Option DbError) (db : Db) (calls : Text → Call) (r : Redis)
    (ids : List Text)
    → active_item_ids u query db ≡ ok ids
    → IsDistinct ids
    → let (res, r') = reconcile_all u query db calls r in
      (outcomes : List Outcome) × (res ≡ ok outcomes)
      × (map (λ (o : Outcome). o.item_id) outcomes ≡ ids)
      × All (Settled u calls r') outcomes
unfolding reconcile_all
reconcile_all_mirrors u query db calls r ids h distinct =
    let (same, settled) = each-Settled u calls ids r distinct in
    rw (h, reconcile_all) ((reconcile_each u calls ids r).0, refl, same, settled)
