-- ===== src/Admission/Replies.antt =====
-- internal/admission/admitter.go: what run has sent, and what Join and Depth know of it.
use flashsale_reservation.Prelude.{
  ℕ, ◌≡◌, ◌⊎◌, refl, ap, ◌∙◌, Bool, true, false, ◌||◌, Option, none, some, List, [], ◌∷◌, ◌++◌,
  arith,
}
use mathlib.Core.List.{append_assoc}
use flashsale_reservation.Admission.{
  Admitter, Event, joined, asked_depth, Reply, placed, counted, turn, run,
}
use flashsale_reservation.Admission.Calls.{
  Joining, sending, awaiting_position, awaiting_admission, let_in, join_cancelled, Asking, asking,
  awaiting_result, answered, depth_cancelled, depth_stopped, Channels, closes,
}

-- The loop has sent this reply.
abbrev pub IsSent : Reply → List Reply → Type 0
IsSent x replies = (before : List Reply) × (after : List Reply) × (replies ≡ before ++ (x ∷ after))

-- The loop has closed the joiner's channel.
abbrev pub closed : ℕ → List Reply → Bool
closed j [] = false
closed j (x ∷ replies) = closes j x || closed j replies

-- A position that the joiner has got, or finds in the buffer, is one that the loop sent.
abbrev pub PositionSent : ℕ → Joining → Option ℕ → List Reply → Type 0
PositionSent j sending position replies = Unit {0}
PositionSent j awaiting_position position replies =
    (n : ℕ) × (position ≡ some n) × IsSent (placed j n) replies
PositionSent j (awaiting_admission n) position replies = IsSent (placed j n) replies
PositionSent j (let_in n) position replies = IsSent (placed j n) replies × (closed j replies ≡ true)
PositionSent j join_cancelled position replies = Unit {0}

-- Likewise the depth.
abbrev pub DepthSent : Asking → Option ℕ → List Reply → Type 0
DepthSent asking result replies = Unit {0}
DepthSent awaiting_result result replies = (n : ℕ) × (result ≡ some n) × IsSent (counted n) replies
DepthSent (answered n) result replies = IsSent (counted n) replies
DepthSent depth_cancelled result replies = Unit {0}
DepthSent depth_stopped result replies = Unit {0}

-- The loop, unless it has returned, and all that the calls know of it, come of a run over a list.
abbrev pub Follows : ℕ → Channels → List Reply × Admitter → Type 0
Follows j r (replies, a) =
    ((r.loop ≡ none) ⊎ (r.loop ≡ some a))
    × (r.is_admitted ≡ closed j replies)
    × PositionSent j r.join r.position replies
    × DepthSent r.depth r.result replies

pub run-snoc :
    (es : List Event) (e : Event) (a : Admitter)
    → run (es ++ (e ∷ [])) a
      ≡ ((run es a).0 ++ ((turn e (run es a).1).0 ∷ []), (turn e (run es a).1).1)
unfolding run
run-snoc [] e a = refl
run-snoc (x ∷ es) e a = rw (run-snoc es e (turn x a).1) refl

pub closed-snoc :
    (j : ℕ) (replies : List Reply) (x : Reply)
    → (closed j replies || closes j x) ≡ closed j (replies ++ (x ∷ []))
closed-snoc j [] x = ground arith
closed-snoc j (y ∷ replies) x = ground (arith, closed-snoc j replies x)

pub quiet-closed :
    (j : ℕ) (replies : List Reply) (x : Reply)
    → closes j x ≡ false
    → closed j replies ≡ closed j (replies ++ (x ∷ []))
quiet-closed j replies x h = ground (arith, closed-snoc j replies x)

pub joined-closes : (j k : ℕ) (a : Admitter) → closes j (turn (joined k) a).0 ≡ false
unfolding turn closes
joined-closes j k a = refl

pub asked-closes : (j : ℕ) (a : Admitter) → closes j (turn asked_depth a).0 ≡ false
unfolding turn closes
asked-closes j a = refl

pub some_eq : {m n : ℕ} → some m ≡ some n → m ≡ n
some_eq e = cc

snoc-IsSent :
    (x : Reply) (replies : List Reply) (y : Reply)
    → IsSent x replies
    → IsSent x (replies ++ (y ∷ []))
snoc-IsSent x replies y (before, after, e) = (
  before,
  after ++ (y ∷ []),
  ap (λ (l : List Reply). l ++ (y ∷ [])) e ∙ append_assoc before (x ∷ after) (y ∷ []),
)

pub snoc-PositionSent :
    (j : ℕ) (s : Joining) (position : Option ℕ) (replies : List Reply) (y : Reply)
    → PositionSent j s position replies
    → PositionSent j s position (replies ++ (y ∷ []))
snoc-PositionSent j sending position replies y h = tt
snoc-PositionSent j awaiting_position position replies y (n, e, h) =
    (n, e, snoc-IsSent _ replies y h)
snoc-PositionSent j (awaiting_admission n) position replies y h = snoc-IsSent _ replies y h
snoc-PositionSent j (let_in n) position replies y (h, c) =
    (snoc-IsSent _ replies y h, ground (arith, closed-snoc j replies y))
snoc-PositionSent j join_cancelled position replies y h = tt

pub snoc-DepthSent :
    (s : Asking) (result : Option ℕ) (replies : List Reply) (y : Reply)
    → DepthSent s result replies
    → DepthSent s result (replies ++ (y ∷ []))
snoc-DepthSent asking result replies y h = tt
snoc-DepthSent awaiting_result result replies y (n, e, h) = (n, e, snoc-IsSent _ replies y h)
snoc-DepthSent (answered n) result replies y h = snoc-IsSent _ replies y h
snoc-DepthSent depth_cancelled result replies y h = tt
snoc-DepthSent depth_stopped result replies y h = tt
