-- ===== src/Store/Moves.antt =====
-- What any transaction of the services may do to the tables, as a relation between the tables
-- before and after, and the invariant of the tables that every such move keeps.
use flashsale_reservation.Prelude.{
  ℕ, ◌+◌, ◌-◌, ◌≤◌, ◌<◌, ◌≡◌, refl, none, some, List, ◌∷◌, arith, ◌==◌, if◌then◌else◌, sym, ◌∙◌,
  Bool-cases, inl, inr, ==_iff,
}
use flashsale_reservation.Store.{
  Item, Reservation, Db, reserved, expired, rejected, find_item, find_reservation, find_key,
  set_available, set_status,
}
use flashsale_reservation.Store.Sums.{
  stock, on_hand, find_item-set_available_self, find_item-set_available_ne, held-set_status,
}

-- A row that the constraints of `reservations` admit.
pub record CanAdd (r : Reservation) (db : Db) : Type 0 where
  pub new_id : find_reservation r.id db.reservations ≡ none
  pub new_key : find_key r.item_id r.idempotency_key db.reservations ≡ none
  pub positive : 0 < r.quantity

pub data Move (db : Db) : Db → Type 0 where
  stay : Move db db
  reject :
      (r : Reservation) (it : Item)
      → r.status ≡ rejected
      → find_item r.item_id db.items ≡ some it
      → it.available_inventory < r.quantity
      → CanAdd r db
      → Move db (record db { reservations = r ∷ db.reservations })
  reserve :
      (r : Reservation) (it : Item)
      → r.status ≡ reserved
      → find_item r.item_id db.items ≡ some it
      → r.quantity ≤ it.available_inventory
      → CanAdd r db
      → Move db (record {
        items = set_available r.item_id (it.available_inventory - r.quantity) db.items;
        reservations = r ∷ db.reservations;
      })
  release :
      (r : Reservation) (it : Item)
      → find_reservation r.id db.reservations ≡ some r
      → r.status ≡ reserved
      → find_item r.item_id db.items ≡ some it
      → it.available_inventory + r.quantity ≤ it.total_inventory
      → Move db (record {
        items = set_available r.item_id (it.available_inventory + r.quantity) db.items;
        reservations = set_status r.id expired db.reservations;
      })

pub on_hand-set_available :
    (i j v : ℕ) (it : Item) (items : List Item)
    → find_item i items ≡ some it
    → on_hand (find_item j (set_available i v items))
      ≡ (if i == j then v else on_hand (find_item j items))
on_hand-set_available i j v it items h = elim (Bool-cases (i == j)) [
  | inl same ↦ rw same (rw (← (==_iff i j).0 same, find_item-set_available_self i v it items h))
  | inr other ↦
      rw other
        (rw (find_item-set_available_ne i j v items (λ e. cc (sym other ∙ (==_iff i j).1 e))))
]

-- No transaction makes up a unit of stock or loses one: of every item, the units on hand and the
-- units held by reservations stay the same in sum.
pub Move-stock : {db db' : Db} (i : ℕ) → Move db db' → stock i db' ≡ stock i db
Move-stock i stay = refl
Move-stock {db} i (reject r it s f short c) = ground arith
Move-stock {db} i (reserve r it s f le c) = ground (
  arith,
  on_hand-set_available r.item_id i (it.available_inventory - r.quantity) it db.items f,
  ==_iff r.item_id i,
)
Move-stock {db} i (release r it g s f fits) = ground (
  arith,
  on_hand-set_available r.item_id i (it.available_inventory + r.quantity) it db.items f,
  held-set_status i r.id expired r db.reservations g,
  ==_iff r.item_id i,
)
