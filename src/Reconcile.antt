-- ===== src/Reconcile.antt =====
-- internal/reconcile: overwriting Redis's counters with what Postgres says, and the endpoint for it.
pub mod Mirror
pub mod Pass
use mathlib.Core.Option
use flashsale_reservation.Prelude.{
  ℕ, Bool, true, false, Option, none, some, List, [], ◌∷◌, map, if◌then◌else◌, leb,
}
use flashsale_reservation.Prelude.Int.{ℤ, pos}
use flashsale_reservation.Prelude.Text.{Text, codes}
use flashsale_reservation.Prelude.Result.{Result, ok, err, ◌>>=◌, ◌>>◌, or_fail, interrupt, map_err}
use flashsale_reservation.Store.{
  Item, ItemStatus, draft, scheduled, on_sale, sold_out, closed, Db, DbError, driver, postgres,
  invalid_text, Uuids, find_item,
}
use flashsale_reservation.Redis.{Redis, Link, seed_inventory}
use flashsale_reservation.Redis
use flashsale_reservation.Checkout.{Response, available, refuse, is_empty}

pub data Error : Type 0 where
  item_not_found : Error
  database : DbError → Error
  redis : Redis.Error → Error

-- One call: how its query and its connection to Redis fare, and the tables that the query sees.
pub record Call : Type 0 where
  pub query : Option DbError
  pub db : Db
  pub link : Link

-- SELECT available_inventory FROM items WHERE id = $1
unfoldable pub read_available : Uuids → Call → Text → Result Error ℤ
read_available u c id = do
  interrupt (Option.map database c.query)
  i ← or_fail (u.parse id) (database (postgres invalid_text))
  it ← or_fail (find_item i c.db.items) item_not_found
  ok (pos it.available_inventory)

-- `Item`
unfoldable pub reconcile_item : Uuids → Call → Text → Redis → Result Error ℤ × Redis
reconcile_item u c id r = elim (read_available u c id) [
  | err e ↦ (err e, r)
  | ok n ↦
      let (seeded, r') = seed_inventory c.link id n r in
      elim seeded [ err e ↦ (err (redis e), r') | ok _ ↦ (ok n, r') ]
]

abbrev pub is_active : ItemStatus → Bool
is_active scheduled = true
is_active on_sale = true
is_active _ = false

-- ORDER BY id, as an insertion sort.
unfoldable pub insert_by_id : ℕ → List ℕ → List ℕ
insert_by_id i [] = i ∷ []
insert_by_id i (j ∷ js) = if leb i j then i ∷ j ∷ js else j ∷ insert_by_id i js

unfoldable pub active_rows : List Item → List ℕ
active_rows [] = []
active_rows (it ∷ items) =
    let rest = active_rows items in if is_active it.status then insert_by_id it.id rest else rest

unfoldable pub active_item_ids : Uuids → Option DbError → Db → Result Error (List Text)
active_item_ids u query db = do
  interrupt (Option.map database query)
  ok (map (λ i. u.show i) (active_rows db.items))

-- An item's `Outcome`: its count, or its error.
pub record Outcome : Type 0 where
  pub item_id : Text
  pub available : Result Error ℤ

unfoldable pub reconcile_each : Uuids → (Text → Call) → List Text → Redis → List Outcome × Redis
reconcile_each u calls [] r = ([], r)
reconcile_each u calls (id ∷ ids) r =
    let (n, r') = reconcile_item u (calls id) id r in
    let (outcomes, r'') = reconcile_each u calls ids r' in
    (record { item_id = id; available = n } ∷ outcomes, r'')

-- `All`
unfoldable pub reconcile_all :
    Uuids → Option DbError → Db → (Text → Call) → Redis → Result Error (List Outcome) × Redis
reconcile_all u query db calls r = elim (active_item_ids u query db) [
  | err e ↦ (err e, r)
  | ok ids ↦ let (outcomes, r') = reconcile_each u calls ids r in (ok outcomes, r')
]

-- cmd/checkout-api/main.go, handleReconcileItem
unfoldable pub handle_reconcile_item : Uuids → Call → Text → Redis → Response × Redis
handle_reconcile_item u c id r =
    if is_empty id
    then (refuse 400 (codes "item id is required"), r)
    else let (result, r') = reconcile_item u c id r in
      elim result [
        | ok n ↦ (record { status = 200; body = available id n }, r')
        | err item_not_found ↦ (refuse 404 (codes "item not found"), r')
        | err other ↦ (refuse 500 (codes "failed to reconcile inventory"), r')
      ]
