-- ===== src/Admission/Service.antt =====
-- internal/admission/admitter.go, run: every joiner is admitted, at the rate of the ticker.
use flashsale_reservation.Prelude.{
  List-cases, ℕ, suc, ◌≤◌, ◌<◌, ◌≡◌, inl, inr, refl, sym, ap, subst, List, [], ◌∷◌, ◌++◌, length,
  arith,
}
use mathlib.Core.List.{append_assoc}
use flashsale_reservation.Admission.{Admitter, Event, joined, ticked, asked_depth, turn, run}
use flashsale_reservation.Admission.Fifo.{admissions}

abbrev pub ticks : List Event → ℕ
ticks [] = 0
ticks (ticked ∷ es) = suc (ticks es)
ticks (joined j ∷ es) = ticks es
ticks (asked_depth ∷ es) = ticks es

served :
    (es : List Event) (ahead behind : List ℕ) (j p : ℕ)
    → length ahead < ticks es
    → (later : List ℕ) × (admissions
          (run es (record { queue = ahead ++ (j ∷ behind); next_position = p })).0
        ≡ ahead ++ (j ∷ later))
unfolding run turn
served [] ahead behind j p h = absurd (omega arith)
served (joined k ∷ es) ahead behind j p h =
    let (later, e) = served es ahead (behind ++ (k ∷ [])) j (suc p) h in
    (
      later,
      subst
          (λ (q : List ℕ).
            admissions (run es (record { queue = q; next_position = suc p })).0
            ≡ ahead ++ (j ∷ later))
          (sym (append_assoc ahead (j ∷ behind) (k ∷ []))) e,
    )
served (ticked ∷ es) [] behind j p h =
    (admissions (run es (record { queue = behind; next_position = p })).0, refl)
served (ticked ∷ es) (x ∷ ahead) behind j p h =
    let (later, e) = served es ahead behind j p (omega arith) in
    (later, ap (λ (q : List ℕ). x ∷ q) e)
served (asked_depth ∷ es) ahead behind j p h = served es ahead behind j p h

-- Whoever joins is admitted, after exactly those who were in the queue before: as soon as the ticker
-- has fired once more often than the queue was long, whatever else the loop is sent meanwhile.
pub joiner_is_admitted :
    (es : List Event) (a : Admitter) (j : ℕ)
    → length a.queue < ticks es
    → (later : List ℕ) × (admissions (run (joined j ∷ es) a).0 ≡ a.queue ++ (j ∷ later))
unfolding run turn
joiner_is_admitted es a j h = served es a.queue [] j (suc a.next_position) h

-- No more are admitted than the ticker has fired.
pub admissions_bounded :
    (es : List Event) (a : Admitter) → length (admissions (run es a).0) ≤ ticks es
unfolding run turn
admissions_bounded [] a = omega arith
admissions_bounded (joined j ∷ es) a = admissions_bounded es (turn (joined j) a).1
admissions_bounded (asked_depth ∷ es) a = admissions_bounded es a
admissions_bounded (ticked ∷ es) a = elim (List-cases a.queue) [
  | inl empty ↦ rw (empty, turn) (omega (arith, admissions_bounded es a))
  | inr (j, js, e) ↦ rw (e, turn) (omega (arith, admissions_bounded es (record a { queue = js })))
]
