-- ===== src/Store/Sums.antt =====
-- The tables seen as amounts: the stock on hand and the quantity that reservations hold.
use flashsale_reservation.Prelude.{
  ℕ, ◌+◌, ◌≡◌, ◌≢◌, refl, Bool, true, false, ◌&&◌, Option, none, some, List, [], ◌∷◌, arith, ◌==◌,
  if◌then◌else◌,
}
use flashsale_reservation.Prelude.Text.{Text}
use flashsale_reservation.Store.{
  Item, Reservation, Db, Status, reserved, completed, find_item, find_reservation, find_key,
  set_available, set_status,
}

-- A reservation that holds stock: paid, or waiting to be paid.
abbrev pub is_held : Status → Bool
is_held reserved = true
is_held completed = true
is_held _ = false

abbrev pub weight : ℕ → Reservation → ℕ
weight i r = if (r.item_id == i) && is_held r.status then r.quantity else 0

abbrev pub held : ℕ → List Reservation → ℕ
held i [] = 0
held i (r ∷ rs) = weight i r + held i rs

abbrev pub on_hand : Option Item → ℕ
on_hand none = 0
on_hand (some it) = it.available_inventory

-- The units of an item that are on hand or held.
abbrev pub stock : ℕ → Db → ℕ
stock i db = on_hand (find_item i db.items) + held i db.reservations

pub find_item-set_available_self :
    (i v : ℕ) (it : Item) (items : List Item)
    → find_item i items ≡ some it
    → find_item i (set_available i v items) ≡ some (record it { available_inventory = v })
unfolding find_item set_available
find_item-set_available_self i v it [] h = cc
find_item-set_available_self i v it (x ∷ items) h =
    ground (arith, find_item-set_available_self i v it items)

pub find_item-set_available_ne :
    (i j v : ℕ) (items : List Item)
    → i ≢ j
    → find_item j (set_available i v items) ≡ find_item j items
unfolding find_item set_available
find_item-set_available_ne i j v [] h = refl
find_item-set_available_ne i j v (x ∷ items) h =
    ground (arith, find_item-set_available_ne i j v items h)

-- The rows keep their ids: what `find_item` does not find is not there afterwards either.
pub find_item-set_available-none :
    (i j v : ℕ) (items : List Item)
    → find_item j (set_available i v items) ≡ none
    → find_item j items ≡ none
unfolding find_item set_available
find_item-set_available-none i j v [] h = refl
find_item-set_available-none i j v (x ∷ items) h =
    ground (arith, find_item-set_available-none i j v items)

pub find_reservation-id :
    (k : ℕ) (r : Reservation) (rs : List Reservation) → find_reservation k rs ≡ some r → r.id ≡ k
unfolding find_reservation
find_reservation-id k r [] h = cc
find_reservation-id k r (x ∷ rs) h = ground (arith, find_reservation-id k r rs)

-- A status that stops holding gives its quantity back, to its item only.
pub held-set_status :
    (i k : ℕ) (s : Status) (r : Reservation) (rs : List Reservation)
    → find_reservation k rs ≡ some r
    → is_held r.status ≡ true
    → is_held s ≡ false
    → held i (set_status k s rs) + (if r.item_id == i then r.quantity else 0) ≡ held i rs
unfolding find_reservation set_status
held-set_status i k s r [] h l e = cc
held-set_status i k s r (x ∷ rs) h l e = ground (arith, held-set_status i k s r rs)

pub find_reservation-set_status_self :
    (k : ℕ) (s : Status) (r : Reservation) (rs : List Reservation)
    → find_reservation k rs ≡ some r
    → find_reservation k (set_status k s rs) ≡ some (record r { status = s })
unfolding find_reservation set_status
find_reservation-set_status_self k s r [] h = cc
find_reservation-set_status_self k s r (x ∷ rs) h =
    ground (arith, find_reservation-set_status_self k s r rs)

pub find_reservation-set_status-none :
    (j k : ℕ) (s : Status) (rs : List Reservation)
    → find_reservation j rs ≡ none
    → find_reservation j (set_status k s rs) ≡ none
unfolding find_reservation set_status
find_reservation-set_status-none j k s [] h = refl
find_reservation-set_status-none j k s (x ∷ rs) h =
    ground (arith, find_reservation-set_status-none j k s rs)

pub find_key-set_status-none :
    (i : ℕ) (key : Text) (k : ℕ) (s : Status) (rs : List Reservation)
    → find_key i key rs ≡ none
    → find_key i key (set_status k s rs) ≡ none
unfolding find_key set_status
find_key-set_status-none i key k s [] h = refl
find_key-set_status-none i key k s (x ∷ rs) h =
    ground (arith, find_key-set_status-none i key k s rs)
