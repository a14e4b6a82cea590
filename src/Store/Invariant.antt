-- ===== src/Store/Invariant.antt =====
-- The invariant of the tables: what the constraints of migrations/000002 and 000003 and the moves of
-- the services maintain together.
use flashsale_reservation.Prelude.{
  ℕ, ◌+◌, ◌≤◌, ◌≡◌, ◌≢◌, refl, none, some, List, [], ◌∷◌, arith, ◌==◌, All, Bool-cases, inl, inr,
}
use flashsale_reservation.Store.{
  Item, Reservation, Db, Status, expired, find_item, find_reservation, find_key, set_available,
  set_status, max_int4,
}
use flashsale_reservation.Store.Sums.{
  held, stock, find_item-set_available-none, find_reservation-set_status-none,
  find_key-set_status-none,
}
use flashsale_reservation.Store.Moves.{Move, stay, reject, reserve, release, Move-stock}

-- No two rows share an id, or an item and an idempotency key.
abbrev pub Distinct : List Reservation → Type 0
Distinct [] = Unit {0}
Distinct (r ∷ rs) =
    (find_reservation r.id rs ≡ none)
    × (find_key r.item_id r.idempotency_key rs ≡ none)
    × Distinct rs

-- Every reservation is of an item that exists.
abbrev pub Backed : List Item → List Reservation → Type 0
Backed items rs = All (λ r. find_item r.item_id items ≢ none) rs

-- What is on hand and what is held do not exceed the item's total, which is an INTEGER.
pub record Funded (i : ℕ) (db : Db) (it : Item) : Type 0 where
  pub covered : it.available_inventory + held i db.reservations ≤ it.total_inventory
  pub ranged : it.total_inventory ≤ max_int4

pub record Sound (db : Db) : Type 0 where
  pub distinct : Distinct db.reservations
  pub backed : Backed db.items db.reservations
  pub funded : (i : ℕ) (it : Item) → find_item i db.items ≡ some it → Funded i db it

Distinct-set_status :
    (k : ℕ) (s : Status) (rs : List Reservation) → Distinct rs → Distinct (set_status k s rs)
unfolding set_status
Distinct-set_status k s [] d = tt
Distinct-set_status k s (r ∷ rs) d = ground (
  arith,
  Distinct-set_status k s rs d.2,
  find_reservation-set_status-none r.id k s rs,
  find_key-set_status-none r.item_id r.idempotency_key k s rs,
)

Backed-set_available :
    (i v : ℕ) (items : List Item) (rs : List Reservation)
    → Backed items rs
    → Backed (set_available i v items) rs
Backed-set_available i v items [] b = tt
Backed-set_available i v items (r ∷ rs) b = (
  λ e. b.0 (find_item-set_available-none i r.item_id v items e),
  Backed-set_available i v items rs b.1,
)

Backed-set_status :
    (k : ℕ) (s : Status) (items : List Item) (rs : List Reservation)
    → Backed items rs
    → Backed items (set_status k s rs)
unfolding set_status
Backed-set_status k s items [] b = tt
Backed-set_status k s items (r ∷ rs) b = ground (arith, Backed-set_status k s items rs b.1)

-- Changing the stock of one item changes no total.
total-set_available :
    (i j v : ℕ) (items : List Item) (it : Item)
    → find_item j (set_available i v items) ≡ some it
    → (old : Item) × (find_item j items ≡ some old) × (it.total_inventory ≡ old.total_inventory)
unfolding find_item set_available
total-set_available i j v [] it h = cc
total-set_available i j v (x ∷ items) it h = elim (Bool-cases (x.id == i)) [
  | inl hit ↦ elim (Bool-cases (x.id == j)) [
    | inl here ↦ (x, ground arith, ground arith)
    | inr there ↦ (it, ground arith, refl)
  ]
  | inr miss ↦ elim (Bool-cases (x.id == j)) [
    | inl here ↦ (x, ground arith, ground arith)
    | inr there ↦
        let (old, f, e) = total-set_available i j v items it (ground arith) in
        (old, ground arith, e)
  ]
]

-- The stock law and the totals carry the funding over a move.
Funded-move :
    (i : ℕ) (db db' : Db) (it old : Item)
    → stock i db' ≡ stock i db
    → find_item i db'.items ≡ some it
    → find_item i db.items ≡ some old
    → it.total_inventory ≡ old.total_inventory
    → Funded i db old
    → Funded i db' it
Funded-move i db db' it old same f g e h = ground arith

-- Every move keeps the invariant.
pub Move-Sound : {db db' : Db} → Move db db' → Sound db → Sound db'
Move-Sound stay s = s
Move-Sound {db} (reject r it st f short c) s = record {
  distinct = (c.new_id, c.new_key, s.distinct);
  backed = (λ e. cc, s.backed);
  funded = λ i x g.
      Funded-move i db _ x x (Move-stock i (reject r it st f short c)) g g refl (s.funded i x g);
}
Move-Sound {db} (reserve r it st f le c) s = record {
  distinct = (c.new_id, c.new_key, s.distinct);
  backed = (
    λ e. cc (find_item-set_available-none r.item_id r.item_id _ db.items e),
    Backed-set_available r.item_id _ db.items db.reservations s.backed,
  );
  funded = λ i x g.
      let (old, h, e) = total-set_available r.item_id i _ db.items x g in
      Funded-move i db _ x old (Move-stock i (reserve r it st f le c)) g h e (s.funded i old h);
}
Move-Sound {db} (release r it g st f fits) s = record {
  distinct = Distinct-set_status r.id expired db.reservations s.distinct;
  backed =
      Backed-set_available r.item_id _ db.items _
        (Backed-set_status r.id expired db.items db.reservations s.backed);
  funded = λ i x k.
      let (old, h, e) = total-set_available r.item_id i _ db.items x k in
      Funded-move i db _ x old (Move-stock i (release r it g st f fits)) k h e (s.funded i old h);
}

-- Of a sound database no item is oversold: what its reservations hold is at most its total.
pub held-le-total :
    (i : ℕ) (db : Db) (it : Item)
    → Sound db
    → find_item i db.items ≡ some it
    → held i db.reservations ≤ it.total_inventory
held-le-total i db it s f = omega (arith, s.funded i it f)
