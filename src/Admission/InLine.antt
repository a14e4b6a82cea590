-- ===== src/Admission/InLine.antt =====
-- internal/admission/admitter.go: what Join, Depth and the loop keep of the calls under way.
use flashsale_reservation.Prelude.{
  ℕ, ◌≡◌, inl, inr, refl, sym, ap, subst, ◌∙◌, Bool, true, false, ◌||◌, ◌==◌, Option, none, some,
  List, [], ◌∷◌, ◌++◌, length, ==_iff, Bool-cases,
}
use mathlib.Core.List.{append_assoc}
use flashsale_reservation.Admission.{Admitter, Event, joined, ticked, asked_depth, turn}
use flashsale_reservation.Admission.Calls.{
  Joining, sending, awaiting_position, awaiting_admission, let_in, join_cancelled, Asking, asking,
  awaiting_result, answered, depth_cancelled, depth_stopped, Channels, closes, Step, Steps, here,
  then, join_received, position_read, admission_seen, send_given_up, position_given_up,
  admission_given_up, loop_turns, depth_received, result_read, done_seen, ask_given_up,
  result_given_up, loop_returns, service_ends, join_ends, depth_ends,
}

-- The joiner waits in the line.
abbrev pub IsQueued : ℕ → Admitter → Type 0
IsQueued j a = (ahead : List ℕ) × (behind : List ℕ) × (a.queue ≡ ahead ++ (j ∷ behind))

-- Nobody is forgotten: who has been sent is admitted or in line, while the loop runs.
abbrev pub InLine : ℕ → Bool → Option Admitter → Type 0
InLine j true loop = Unit {0}
InLine j false none = Unit {0}
InLine j false (some a) = IsQueued j a

abbrev pub JoinKept : ℕ → Joining → Option ℕ → Bool → Option Admitter → Type 0
JoinKept j sending position adm loop = Unit {0}
JoinKept j awaiting_position position adm loop = ((n : ℕ) × (position ≡ some n)) × InLine j adm loop
JoinKept j (awaiting_admission n) position adm loop = InLine j adm loop
JoinKept j (let_in n) position adm loop = Unit {0}
JoinKept j join_cancelled position adm loop = Unit {0}

-- A depth that was asked for is in the buffer.
abbrev pub DepthKept : Asking → Option ℕ → Type 0
DepthKept asking result = Unit {0}
DepthKept awaiting_result result = (n : ℕ) × (result ≡ some n)
DepthKept (answered n) result = Unit {0}
DepthKept depth_cancelled result = Unit {0}
DepthKept depth_stopped result = Unit {0}

abbrev pub IsKept : ℕ → Channels → Type 0
IsKept j r = JoinKept j r.join r.position r.is_admitted r.loop × DepthKept r.depth r.result

abbrev pub TickLeaves : ℕ → Admitter → Type 0
TickLeaves j a = InLine j (closes j (turn ticked a).0) (some (turn ticked a).1)

tick-IsQueued :
    (j : ℕ) (ahead behind : List ℕ) (p : ℕ)
    → TickLeaves j (record { queue = ahead ++ (j ∷ behind); next_position = p })
unfolding turn closes
tick-IsQueued j [] behind p =
    subst (λ (b : Bool). InLine j b (some (record { queue = behind; next_position = p })))
      (sym ((==_iff j j).1 refl)) tt
tick-IsQueued j (x ∷ ahead) behind p = elim (Bool-cases (x == j)) [
  | inl same ↦ rw same tt
  | inr other ↦ rw other (ahead, behind, refl)
]

turn-IsQueued :
    (j : ℕ) (e : Event) (a : Admitter)
    → IsQueued j a
    → InLine j (closes j (turn e a).0) (some (turn e a).1)
unfolding turn closes
turn-IsQueued j (joined k) a (ahead, behind, e) = (
  ahead,
  behind ++ (k ∷ []),
  ap (λ (q : List ℕ). q ++ (k ∷ [])) e ∙ append_assoc ahead (j ∷ behind) (k ∷ []),
)
turn-IsQueued j asked_depth a h = h
turn-IsQueued j ticked a (ahead, behind, e) =
    subst (λ (q : List ℕ). TickLeaves j (record { queue = q; next_position = a.next_position }))
      (sym e) (tick-IsQueued j ahead behind a.next_position)

turn-InLine :
    (j : ℕ) (e : Event) (a : Admitter) (adm : Bool)
    → InLine j adm (some a)
    → InLine j (adm || closes j (turn e a).0) (some (turn e a).1)
turn-InLine j e a true h = tt
turn-InLine j e a false h = turn-IsQueued j e a h

gone-InLine : (j : ℕ) (adm : Bool) → InLine j adm none
gone-InLine j true = tt
gone-InLine j false = tt

pub joined-IsQueued :
    (j : ℕ) (a : Admitter) (adm : Bool) → InLine j adm (some (turn (joined j) a).1)
unfolding turn
joined-IsQueued j a true = tt
joined-IsQueued j a false = (a.queue, [], refl)

turn-JoinKept :
    (j : ℕ) (s : Joining) (position : Option ℕ) (adm : Bool) (a : Admitter) (e : Event)
    → JoinKept j s position adm (some a)
    → JoinKept j s position (adm || closes j (turn e a).0) (some (turn e a).1)
turn-JoinKept j sending position adm a e h = tt
turn-JoinKept j awaiting_position position adm a e (p, h) = (p, turn-InLine j e a adm h)
turn-JoinKept j (awaiting_admission n) position adm a e h = turn-InLine j e a adm h
turn-JoinKept j (let_in n) position adm a e h = tt
turn-JoinKept j join_cancelled position adm a e h = tt

gone-JoinKept :
    (j : ℕ) (s : Joining) (position : Option ℕ) (adm : Bool) (loop : Option Admitter)
    → JoinKept j s position adm loop
    → JoinKept j s position adm none
gone-JoinKept j sending position adm loop h = tt
gone-JoinKept j awaiting_position position adm loop (p, h) = (p, gone-InLine j adm)
gone-JoinKept j (awaiting_admission n) position adm loop h = gone-InLine j adm
gone-JoinKept j (let_in n) position adm loop h = tt
gone-JoinKept j join_cancelled position adm loop h = tt

-- What is kept of a call whose phase, or whose loop, is known.
pub at_phase :
    (j : ℕ) (r : Channels) (s : Joining)
    → r.join ≡ s
    → JoinKept j r.join r.position r.is_admitted r.loop
    → JoinKept j s r.position r.is_admitted r.loop
at_phase j r s e h = subst (λ (t : Joining). JoinKept j t r.position r.is_admitted r.loop) e h

pub at_loop :
    (j : ℕ) (r : Channels) (o : Option Admitter)
    → r.loop ≡ o
    → JoinKept j r.join r.position r.is_admitted r.loop
    → JoinKept j r.join r.position r.is_admitted o
at_loop j r o e h =
    subst (λ (l : Option Admitter). JoinKept j r.join r.position r.is_admitted l) e h

Step-IsKept : (j : ℕ) (p q : Channels) → Step j p q → IsKept j p → IsKept j q
Step-IsKept j r q (join_received _ a l s) (h, d) =
    (((a.next_position, refl), joined-IsQueued j a r.is_admitted), d)
Step-IsKept j r q (position_read _ n s e) (h, d) = ((at_phase j r awaiting_position s h).1, d)
Step-IsKept j r q (admission_seen _ n s c) (h, d) = (tt, d)
Step-IsKept j r q (send_given_up _ s c) (h, d) = (tt, d)
Step-IsKept j r q (position_given_up _ s c) (h, d) = (tt, d)
Step-IsKept j r q (admission_given_up _ n s c) (h, d) = (tt, d)
Step-IsKept j r q (loop_turns _ a e l other) (h, d) =
    (turn-JoinKept j r.join r.position r.is_admitted a e (at_loop j r (some a) l h), d)
Step-IsKept j r q (depth_received _ a l s) (h, d) =
    (unfold turn in at_loop j r (some a) l h, (length a.queue, refl))
Step-IsKept j r q (result_read _ n s e) (h, d) = (h, tt)
Step-IsKept j r q (done_seen _ s l) (h, d) = (h, tt)
Step-IsKept j r q (ask_given_up _ s c) (h, d) = (h, tt)
Step-IsKept j r q (result_given_up _ s c) (h, d) = (h, tt)
Step-IsKept j r q (loop_returns _ c) (h, d) =
    (gone-JoinKept j r.join r.position r.is_admitted r.loop h, d)
Step-IsKept j r q (service_ends _) h = h
Step-IsKept j r q (join_ends _) h = h
Step-IsKept j r q (depth_ends _) h = h

pub Steps-IsKept : (j : ℕ) (p q : Channels) → Steps j p q → IsKept j p → IsKept j q
Steps-IsKept j p q (here _) h = h
Steps-IsKept j p q (then _ m _ first rest) h = Steps-IsKept j m q rest (Step-IsKept j p m first h)
