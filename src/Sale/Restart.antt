-- ===== src/Sale/Restart.antt =====
-- A consumer that starts again: what a second reading of the topic of attempts leaves of the tables.
use flashsale_reservation.Prelude.{◌≡◌, refl, ◌∙◌, List, [], ◌∷◌, ◌++◌, All, ap}
use flashsale_reservation.Prelude.Int.{ℤ}
use flashsale_reservation.Prelude.Result.{ok}
use flashsale_reservation.Store.{Db, Uuids}
use flashsale_reservation.Store.Invariant.{Sound}
use flashsale_reservation.Decision.{Attempt, Outcome, Calls, process_attempt}
use flashsale_reservation.Sale.{Call, attempts, step, run, run-Sound}
use flashsale_reservation.Sale.Redelivery.{redelivery_changes_nothing}

-- A delivery of an attempt, with what it meets.
pub record Delivery : Type 0 where
  pub attempt : Attempt
  pub ttl : ℤ
  pub calls : Calls

abbrev pub deliver : List Delivery → List Call
deliver [] = []
deliver (d ∷ ds) = attempts d.attempt d.ttl d.calls ∷ deliver ds

-- Among the calls there is one for the same item and key that returned an outcome.
abbrev pub IsDecided : Uuids → Db → List Call → Attempt → Type 0
IsDecided u db xs a =
    (before : List Call) × (first : Delivery) × (after : List Call) × (out : Outcome) × (xs
      ≡ before ++ (attempts first.attempt first.ttl first.calls ∷ after))
    × ((process_attempt u first.attempt first.ttl first.calls (run u db before)).0 ≡ ok out)
    × (a.item_id ≡ first.attempt.item_id)
    × (a.idempotency_key ≡ first.attempt.idempotency_key)

run-append :
    (u : Uuids) (db : Db) (xs ys : List Call) → run u db (xs ++ ys) ≡ run u (run u db xs) ys
unfolding run
run-append u db [] ys = refl
run-append u db (x ∷ xs) ys = run-append u (step u db x) xs ys

step-IsDecided :
    (u : Uuids) (db : Db) (xs : List Call) (d : Delivery)
    → Sound db
    → IsDecided u db xs d.attempt
    → step u (run u db xs) (attempts d.attempt d.ttl d.calls) ≡ run u db xs
unfolding run step
step-IsDecided u db xs d sound (before, first, after, out, split, h, same_item, same_key) =
    let db' = run u db before in
    let now : run u db xs
        ≡ run u (process_attempt u first.attempt first.ttl first.calls db').1 after =
      ap (run u db) split
      ∙ run-append u db before (attempts first.attempt first.ttl first.calls ∷ after) in
    rw now
      (redelivery_changes_nothing u first.attempt d.attempt first.ttl d.ttl first.calls d.calls db'
        out after (run-Sound u db before sound) h same_item same_key).0

-- At least once is as good as once: if every delivery of a second reading has the item and the key of
-- an attempt that was decided in the calls so far, on sound tables, then the second reading, whatever
-- it meets, leaves the tables as they are.
pub second_reading_changes_nothing :
    (u : Uuids) (db : Db) (xs : List Call) (again : List Delivery)
    → Sound db
    → All (λ (d : Delivery). IsDecided u db xs d.attempt) again
    → run u (run u db xs) (deliver again) ≡ run u db xs
unfolding run
second_reading_changes_nothing u db xs [] sound h = refl
second_reading_changes_nothing u db xs (d ∷ ds) sound (h, hs) =
    ap (λ (t : Db). run u t (deliver ds)) (step-IsDecided u db xs d sound h)
    ∙ (second_reading_changes_nothing u db xs ds sound hs)
