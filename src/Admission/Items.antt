-- ===== src/Admission/Items.antt =====
-- internal/admission/registry.go: each item has a line of its own.
use flashsale_reservation.Prelude.{
  ◌≡◌, ◌≢◌, inl, inr, refl, sym, ap, ◌∙◌, subst, false, some, List, [], ◌∷◌, arith, if◌then◌else◌,
  Bool-cases, Option-cases,
}
use flashsale_reservation.Prelude.Text.{Text, text_eq, text_eq_self, text_eq_iff}
use flashsale_reservation.Admission.{
  Admitter, Event, Reply, turn, run, Registry, find_admitter, for_item, update, serve, serve_events,
}

-- The admitter that `For` gives for the item.
abbrev pub line : Text → Registry → Admitter
line item reg = (for_item item reg).0

-- The events, and the replies, of one item among those of all.
abbrev pub only {ℓ} : {A : Type ℓ} → Text → List (Text × A) → List A
only item [] = []
only item ((i, a) ∷ xs) = if text_eq i item then a ∷ only item xs else only item xs

update-same :
    (item : Text) (a b : Admitter) (reg : Registry)
    → find_admitter item reg ≡ some b
    → find_admitter item (update item a reg) ≡ some a
unfolding find_admitter update
update-same item a b [] h = absurd (ground arith)
update-same item a b ((i, c) ∷ reg) h = elim (Bool-cases (text_eq i item)) [
  | inl same ↦ ground arith
  | inr other ↦ rw other (rw other (update-same item a b reg (ground arith)))
]

apart : (s t : Text) → s ≢ t → text_eq s t ≡ false
apart s t h = elim (Bool-cases (text_eq s t)) [
  | inl same ↦ absurd (h ((text_eq_iff s t).0 same))
  | inr e ↦ e
]

update-other :
    (item other : Text) (a : Admitter) (reg : Registry)
    → item ≢ other
    → find_admitter other (update item a reg) ≡ find_admitter other reg
unfolding find_admitter update
update-other item other a [] h = refl
update-other item other a ((i, c) ∷ reg) h = elim (Bool-cases (text_eq i item)) [
  | inl same ↦
      let ne : text_eq i other ≡ false =
        subst (λ (t : Text). text_eq t other ≡ false) (sym ((text_eq_iff i item).0 same))
          (apart item other h) in
      rw same (rw (ne, find_admitter) refl)
  | inr distinct ↦ rw distinct (ground (arith, update-other item other a reg h))
]

pub for_item-found :
    (item : Text) (reg : Registry)
    → find_admitter item (for_item item reg).1 ≡ some (for_item item reg).0
unfolding for_item find_admitter
for_item-found item reg = elim (Option-cases (find_admitter item reg)) [
  | inl new ↦ ground (arith, text_eq_self item)
  | inr (a, e) ↦ ground arith
]

pub for_item-other :
    (item other : Text) (reg : Registry)
    → item ≢ other
    → find_admitter other (for_item item reg).1 ≡ find_admitter other reg
unfolding for_item find_admitter
for_item-other item other reg h = elim (Option-cases (find_admitter item reg)) [
  | inl new ↦ ground (arith, apart item other h)
  | inr (a, e) ↦ ground arith
]

pub line_of :
    (item : Text) (reg reg' : Registry)
    → find_admitter item reg ≡ find_admitter item reg'
    → line item reg ≡ line item reg'
unfolding for_item
line_of item reg reg' h = elim (Option-cases (find_admitter item reg)) [
  | inl new ↦ ground arith
  | inr (a, e) ↦ ground arith
]

pub line-found :
    (item : Text) (a : Admitter) (reg : Registry)
    → find_admitter item reg ≡ some a
    → line item reg ≡ a
unfolding for_item
line-found item a reg h = ground arith

pub serve-same :
    (item : Text) (e : Event) (reg : Registry)
    → line item (serve item e reg).1 ≡ (turn e (line item reg)).1
unfolding serve for_item
serve-same item e reg = line-found item (turn e (line item reg)).1 _ (
    update-same item (turn e (line item reg)).1 (line item reg) (for_item item reg).1
      (for_item-found item reg))

pub serve-other :
    (item other : Text) (e : Event) (reg : Registry)
    → item ≢ other
    → line other (serve item e reg).1 ≡ line other reg
unfolding serve
serve-other item other e reg h = line_of other _ _ (
    update-other item other (turn e (line item reg)).1 (for_item item reg).1 h
    ∙ for_item-other item other reg h)

-- One registry of many items serves each as an admitter of its own: for any series of events for
-- any items, an item's replies and its admitter are those of `run` on that item's events alone.
pub serve_events_separates :
    (es : List (Text × Event)) (reg : Registry) (item : Text)
    → let (replies, reg') = serve_events es reg in
      (only item replies, line item reg') ≡ run (only item es) (line item reg)
unfolding serve_events serve run
serve_events_separates [] reg item = refl
serve_events_separates ((i, e) ∷ es) reg item = elim (Bool-cases (text_eq i item)) [
  | inl same ↦
      let rest = serve_events_separates es (serve i e reg).1 i in
      let mine =
        ap (λ (p : List Reply × Admitter). ((turn e (line i reg)).0 ∷ p.0, p.1))
          (rest ∙ ap (λ (a : Admitter). run (only i es) a) (serve-same i e reg)) in
      subst
        (λ (t : Text).
          let (replies, reg') = serve_events ((i, e) ∷ es) reg in
          (only t replies, line t reg') ≡ run (only t ((i, e) ∷ es)) (line t reg))
        ((text_eq_iff i item).0 same) (rw (text_eq_self i) mine)
  | inr other ↦
      let ne : i ≢ item = λ eq. absurd (ground (arith, (text_eq_iff i item).1 eq)) in
      rw other (
        serve_events_separates es (serve i e reg).1 item
        ∙ ap (λ (a : Admitter). run (only item es) a) (serve-other i item e reg ne))
]
