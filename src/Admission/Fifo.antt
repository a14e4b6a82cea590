-- ===== src/Admission/Fifo.antt =====
-- internal/admission/admitter.go, run: first come, first served.
use flashsale_reservation.Prelude.{
  List-cases, ℕ, suc, ◌+◌, ◌≡◌, inl, inr, refl, sym, ap, ◌∙◌, List, [], ◌∷◌, ◌++◌, length,
  length-append, arith,
}
use mathlib.Core.List.{append_assoc, append-nil}
use flashsale_reservation.Admission.{
  Admitter, Event, joined, ticked, asked_depth, Reply, placed, admitted, idle, counted, turn, run,
}

-- The joiners of a series of events, and those that the replies admit, each in order.
abbrev pub joiners : List Event → List ℕ
joiners [] = []
joiners (joined j ∷ es) = j ∷ joiners es
joiners (ticked ∷ es) = joiners es
joiners (asked_depth ∷ es) = joiners es

abbrev pub admissions : List Reply → List ℕ
admissions [] = []
admissions (placed j p ∷ rs) = admissions rs
admissions (admitted j ∷ rs) = j ∷ admissions rs
admissions (idle ∷ rs) = admissions rs
admissions (counted n ∷ rs) = admissions rs

-- The loop admits in the order of joining: those already in the queue and then the joiners are
-- exactly those that are admitted and then those that the queue still holds. None is lost, admitted
-- twice, or overtaken.
pub run_admits_in_order :
    (es : List Event) (a : Admitter)
    → let (replies, a') = run es a in a.queue ++ joiners es ≡ admissions replies ++ a'.queue
unfolding run turn
run_admits_in_order [] a = append-nil a.queue
run_admits_in_order (joined j ∷ es) a =
    sym (append_assoc a.queue (j ∷ []) (joiners es)) ∙ run_admits_in_order es (turn (joined j) a).1
run_admits_in_order (ticked ∷ es) a = elim (List-cases a.queue) [
  | inl empty ↦
      rw (empty, turn) (sym (ap (λ (q : List ℕ). q ++ joiners es) empty) ∙ run_admits_in_order es a)
  | inr (j, js, e) ↦
      rw (e, turn) (ap (λ (q : List ℕ). j ∷ q) (run_admits_in_order es (record a { queue = js })))
]
run_admits_in_order (asked_depth ∷ es) a = run_admits_in_order es a

-- The positions that the loop hands out, with the joiners they go to.
abbrev pub placements : List Reply → List (ℕ × ℕ)
placements [] = []
placements (placed j p ∷ rs) = (j, p) ∷ placements rs
placements (admitted j ∷ rs) = placements rs
placements (idle ∷ rs) = placements rs
placements (counted n ∷ rs) = placements rs

abbrev pub number_from : ℕ → List ℕ → List (ℕ × ℕ)
number_from n [] = []
number_from n (j ∷ js) = (j, n) ∷ number_from (suc n) js

-- Positions count the joiners, from the position at which the loop stands, however many of them are
-- admitted in between; so with `run_admits_in_order` a position is a joiner's turn.
pub run_numbers_joiners :
    (es : List Event) (a : Admitter)
    → let (replies, a') = run es a in
      (placements replies ≡ number_from a.next_position (joiners es))
      × (a'.next_position ≡ a.next_position + length (joiners es))
unfolding run turn
run_numbers_joiners [] a = (refl, omega arith)
run_numbers_joiners (joined j ∷ es) a =
    let (e, n) = run_numbers_joiners es (turn (joined j) a).1 in
    (ap (λ (ps : List (ℕ × ℕ)). (j, a.next_position) ∷ ps) e, omega (arith, n))
run_numbers_joiners (ticked ∷ es) a = elim (List-cases a.queue) [
  | inl empty ↦ rw (empty, turn) (run_numbers_joiners es a)
  | inr (j, js, e) ↦ rw (e, turn) (run_numbers_joiners es (record a { queue = js }))
]
run_numbers_joiners (asked_depth ∷ es) a = run_numbers_joiners es a

-- Positions and depths count the line: positions count the joiners, from the position at which the
-- loop stands, however many of them are admitted in between, so that with `run_admits_in_order` a
-- position is a joiner's turn; and the depth that is reported after any events, with those that were
-- admitted in them, adds up to those who were waiting before and those who joined.
pub run_counts_line :
    (es : List Event) (a : Admitter)
    → let (replies, a') = run es a in
      (placements replies ≡ number_from a.next_position (joiners es))
      × (a'.next_position ≡ a.next_position + length (joiners es))
      × ((n : ℕ) × (turn asked_depth a' ≡ (counted n, a'))
          × (n + length (admissions replies) ≡ length a.queue + length (joiners es)))
unfolding turn
run_counts_line es a =
    let (replies, a') = run es a in
    let (positions, next) = run_numbers_joiners es a in
    (
      positions,
      next,
      (
        length a'.queue,
        refl,
        omega (
          arith,
          ap length (run_admits_in_order es a),
          length-append a.queue (joiners es),
          length-append (admissions replies) a'.queue,
        ),
      ),
    )
