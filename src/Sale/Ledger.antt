-- ===== src/Sale/Ledger.antt =====
-- What internal/decision and internal/expiry promise together: a ledger that has, of every item, the
-- units on hand and the units held, and forgets the rows, their keys and their order.
use flashsale_reservation.Prelude.{
  ℕ, ◌+◌, ◌-◌, ◌≤◌, ◌<◌, ◌≡◌, inl, inr, refl, subst, true, some, List, [], ◌∷◌, length, suc, ◌==◌,
  if◌then◌else◌, arith, Bool-cases, ==_iff,
}
use flashsale_reservation.Store.{
  Item, Reservation, reserved, Db, Uuids, expired, find_item, find_reservation, set_available,
  set_status,
}
use flashsale_reservation.Store.Sums.{on_hand, held, held-set_status}
use flashsale_reservation.Store.Moves.{Move, stay, reject, reserve, release, on_hand-set_available}
use flashsale_reservation.Store.Invariant.{Sound, Move-Sound}
use flashsale_reservation.Sale.{Call, step, run, step-Move}

pub record Account : Type 0 where
  pub available : ℕ
  pub on_hold : ℕ

abbrev pub Ledger : Type 0
Ledger = ℕ → Account

-- The tables, seen as a ledger.
unfoldable pub ledger_of : Db → Ledger
ledger_of db i = record {
  available = on_hand (find_item i db.items);
  on_hold = held i db.reservations;
}

-- Units of one item change hands, and no other account is touched.
abbrev pub hold : ℕ → ℕ → Ledger → Ledger
hold i q l j =
    if i == j then record { available = (l j).available - q; on_hold = (l j).on_hold + q } else l j

abbrev pub give_back : ℕ → ℕ → Ledger → Ledger
give_back i q l j =
    if i == j then record { available = (l j).available + q; on_hold = (l j).on_hold - q } else l j

-- The transactions that the ledger knows, with the accounts afterwards. A hold is covered by what is
-- available, and only what is reserved is given back.
pub data Entry (l l' : Ledger) : Type 0 where
  nothing : ((j : ℕ) → l' j ≡ l j) → Entry l l'
  holds : (i q : ℕ) → 0 < q → q ≤ (l i).available → ((j : ℕ) → l' j ≡ hold i q l j) → Entry l l'
  gives_back : (i q : ℕ) → q ≤ (l i).on_hold → ((j : ℕ) → l' j ≡ give_back i q l j) → Entry l l'

-- One entry for each transaction.
pub data Entries : ℕ → Ledger → Ledger → Type 0 where
  settled : (l : Ledger) → Entries 0 l l
  entered : (n : ℕ) (l m r : Ledger) → Entry l m → Entries n m r → Entries (suc n) l r

account_eq : (l m : Account) → l.available ≡ m.available → l.on_hold ≡ m.on_hold → l ≡ m
account_eq l m e f = cc

module _ (db : Db) (r : Reservation) (it : Item) (f : find_item r.item_id db.items ≡ some it) where
  item_at : (j : ℕ) → (r.item_id == j) ≡ true → find_item j db.items ≡ some it
  item_at j same = subst (λ k. find_item k db.items ≡ some it) ((==_iff r.item_id j).0 same) f

  reserve-hold :
      (j : ℕ)
      → r.status ≡ reserved
      → ledger_of
          (record {
            items = set_available r.item_id (it.available_inventory - r.quantity) db.items;
            reservations = r ∷ db.reservations;
          })
          j
        ≡ hold r.item_id r.quantity (ledger_of db) j
  unfolding ledger_of
  reserve-hold j s =
      let moved =
        on_hand-set_available r.item_id j (it.available_inventory - r.quantity) it db.items f in
      elim (Bool-cases (r.item_id == j)) [
        | inl same ↦ rw same (account_eq _ _ (ground (arith, moved, item_at j same)) (ground arith))
        | inr other ↦ rw other (account_eq _ _ (ground (arith, moved)) (ground arith))
      ]

  release-give_back :
      (j : ℕ)
      → find_reservation r.id db.reservations ≡ some r
      → r.status ≡ reserved
      → ledger_of
          (record {
            items = set_available r.item_id (it.available_inventory + r.quantity) db.items;
            reservations = set_status r.id expired db.reservations;
          })
          j
        ≡ give_back r.item_id r.quantity (ledger_of db) j
  unfolding ledger_of
  release-give_back j g s =
      let moved =
        on_hand-set_available r.item_id j (it.available_inventory + r.quantity) it db.items f in
      let freed = held-set_status j r.id expired r db.reservations g (ground arith) refl in
      elim (Bool-cases (r.item_id == j)) [
        | inl same ↦
            rw same (account_eq _ _ (ground (arith, moved, item_at j same)) (ground (arith, freed)))
        | inr other ↦ rw other (account_eq _ _ (ground (arith, moved)) (ground (arith, freed)))
      ]

Move-Entry : {db db' : Db} → Move db db' → Entry (ledger_of db) (ledger_of db')
unfolding ledger_of
Move-Entry stay = nothing (λ j. refl)
Move-Entry (reject r it s f short c) = nothing (λ j. account_eq _ _ refl (ground arith))
Move-Entry {db} (reserve r it s f le c) =
    holds r.item_id r.quantity c.positive (ground arith) (λ j. reserve-hold db r it f j s)
Move-Entry {db} (release r it g s f fits) =
    gives_back r.item_id r.quantity
      (ground (arith, held-set_status r.item_id r.id expired r db.reservations g))
      (λ j. release-give_back db r it f j g s)

-- The services keep a ledger: any sequence of attempts and expiries on sound tables, redelivered,
-- repeated or cut short anywhere, is a sequence of ledger entries, one for each call: it changes
-- nothing, holds a positive number of units that are available, or gives back units that are
-- reserved, of one item and no other.
pub run_keeps_ledger :
    (u : Uuids) (db : Db) (xs : List Call)
    → Sound db
    → Entries (length xs) (ledger_of db) (ledger_of (run u db xs))
unfolding run
run_keeps_ledger u db [] s = settled (ledger_of db)
run_keeps_ledger u db (x ∷ xs) s =
    let m = step-Move u db x s in
    entered (length xs) _ _ _ (Move-Entry m) (run_keeps_ledger u (step u db x) xs (Move-Sound m s))
