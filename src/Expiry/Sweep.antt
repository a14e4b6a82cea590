-- ===== src/Expiry/Sweep.antt =====
-- internal/expiry/processor.go, FindExpiredReservations: which rows one scan reports.

use flashsale_reservation.Prelude.{
  ℕ, zero, suc, ◌≡◌, ◌⊎◌, inl, inr, refl, ap, false, none, List, [], ◌∷◌, ◌++◌, map, take, length,
  All, arith, if◌then◌else◌, Bool-cases,
}
use mathlib.Core.List.{Permᴰ}
use mathlib.Core.List.Permᴰ
use flashsale_reservation.Prelude.Int.{ℤ, pos, pos_part, ◌≤ℤ◌, ◌<ℤ◌, leb_ℤ}
use flashsale_reservation.Prelude.Result.{ok}
use flashsale_reservation.Store.{Reservation, Db, Uuids}
use flashsale_reservation.Expiry.{is_due, deadline, place, due_rows, find_expired_reservations}

-- By deadline, the earliest first.
abbrev pub IsOrdered : List Reservation → Type 0
IsOrdered [] = Unit
IsOrdered (x ∷ xs) = All (λ (y : Reservation). deadline x ≤ℤ deadline y) xs × IsOrdered xs

-- The rows that are due, as they stand in the table.
abbrev pub due_of : ℤ → List Reservation → List Reservation
due_of now [] = []
due_of now (r ∷ rs) = if is_due now r then r ∷ due_of now rs else due_of now rs

place-Permᴰ : (r : Reservation) (xs : List Reservation) → Permᴰ (place r xs) (r ∷ xs)
unfolding place
place-Permᴰ r [] = Permᴰ.refl (r ∷ [])
place-Permᴰ r (x ∷ xs) = elim (Bool-cases (leb_ℤ (deadline r) (deadline x))) [
  | inl before ↦ rw before (Permᴰ.refl (r ∷ x ∷ xs))
  | inr after ↦ rw after (Permᴰ.trans (Permᴰ.cons refl (place-Permᴰ r xs)) (Permᴰ.swap refl refl))
]

place-All :
    (P : Reservation → Type 0) (r : Reservation) (xs : List Reservation)
    → P r
    → All P xs
    → All P (place r xs)
unfolding place
place-All P r [] h hs = (h, tt)
place-All P r (x ∷ xs) h (hx, hs) = elim (Bool-cases (leb_ℤ (deadline r) (deadline x))) [
  | inl before ↦ rw before (h, (hx, hs))
  | inr after ↦ rw after (hx, place-All P r xs h hs)
]

All-weaken :
    (a b : ℤ) (xs : List Reservation)
    → a ≤ℤ b
    → All (λ (y : Reservation). b ≤ℤ deadline y) xs
    → All (λ (y : Reservation). a ≤ℤ deadline y) xs
All-weaken a b [] h hs = tt
All-weaken a b (x ∷ xs) h (hx, hs) = (omega (arith, h, hx), All-weaken a b xs h hs)

place-IsOrdered : (r : Reservation) (xs : List Reservation) → IsOrdered xs → IsOrdered (place r xs)
unfolding place
place-IsOrdered r [] h = (tt, tt)
place-IsOrdered r (x ∷ xs) (first, rest) = elim (Bool-cases (leb_ℤ (deadline r) (deadline x))) [
  | inl before ↦
      let le : deadline r ≤ℤ deadline x = ground arith in
      rw before ((le, All-weaken (deadline r) (deadline x) xs le first), (first, rest))
  | inr after ↦
      let le : deadline x ≤ℤ deadline r = ground arith in
      rw after (
        place-All (λ (y : Reservation). deadline x ≤ℤ deadline y) r xs le first,
        place-IsOrdered r xs rest,
      )
]

due_rows-Permᴰ : (now : ℤ) (rs : List Reservation) → Permᴰ (due_rows now rs) (due_of now rs)
unfolding due_rows
due_rows-Permᴰ now [] = Permᴰ.nil
due_rows-Permᴰ now (r ∷ rs) = elim (Bool-cases (is_due now r)) [
  | inl due ↦
      rw due
        (Permᴰ.trans (place-Permᴰ r (due_rows now rs)) (Permᴰ.cons refl (due_rows-Permᴰ now rs)))
  | inr fine ↦ rw fine (due_rows-Permᴰ now rs)
]

due_rows-IsOrdered : (now : ℤ) (rs : List Reservation) → IsOrdered (due_rows now rs)
unfolding due_rows
due_rows-IsOrdered now [] = tt
due_rows-IsOrdered now (r ∷ rs) = elim (Bool-cases (is_due now r)) [
  | inl due ↦ rw due (place-IsOrdered r (due_rows now rs) (due_rows-IsOrdered now rs))
  | inr fine ↦ rw fine (due_rows-IsOrdered now rs)
]

split :
    (n : ℕ) (xs : List Reservation)
    → (ys : List Reservation) × (xs ≡ take n xs ++ ys) × ((length (take n xs) ≡ n) ⊎ (ys ≡ []))
split zero xs = (xs, refl, inl refl)
split (suc n) [] = ([], refl, inr refl)
split (suc n) (x ∷ xs) =
    let (ys, e, short) = split n xs in
    (
      ys,
      ap (λ (zs : List Reservation). x ∷ zs) e,
      elim short [ inl a ↦ inl (ap suc a) | inr b ↦ inr b ],
    )

-- A scan that the database answers, with a positive limit, reports the ids of `rows` and leaves out
-- `others`, where rows followed by others are the due rows of the table itself, each as often as it
-- stands there, in order of deadline, and others is empty unless the scan reports as many as its
-- limit.
pub find_expired_reservations_exact :
    (u : Uuids) (now limit : ℤ) (db : Db)
    → pos 0 <ℤ limit
    → (rows others : List Reservation) × (find_expired_reservations u none now limit db
        ≡ ok (map (λ r. u.show r.id) rows))
      × Permᴰ (rows ++ others) (due_of now db.reservations)
      × IsOrdered (rows ++ others)
      × ((length rows ≡ pos_part limit) ⊎ (others ≡ []))
unfolding find_expired_reservations
find_expired_reservations_exact u now limit db h =
    let due = due_rows now db.reservations in
    let (others, e, full) = split (pos_part limit) due in
    let valid : leb_ℤ limit (pos 0) ≡ false = ground arith in
    (
      take (pos_part limit) due,
      others,
      rw valid refl,
      rw⁻¹ e (due_rows-Permᴰ now db.reservations),
      rw⁻¹ e (due_rows-IsOrdered now db.reservations),
      full,
    )
