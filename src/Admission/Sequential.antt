-- ===== src/Admission/Sequential.antt =====
-- internal/admission/admitter.go: the goroutines do what run does over one list of events.
use flashsale_reservation.Prelude.{
  ℕ, ◌≡◌, ◌⊎◌, inl, inr, refl, sym, ap, subst, ◌∙◌, Bool, ◌||◌, Option, none, some, List, [], ◌∷◌,
  ◌++◌, length,
}
use flashsale_reservation.Admission.{
  Admitter, Event, joined, asked_depth, Reply, placed, counted, new_admitter, turn, run,
}
use flashsale_reservation.Admission.Calls.{
  Joining, awaiting_position, awaiting_admission, Asking, awaiting_result, Channels, closes, Step,
  Steps, here, then, opened, join_received, position_read, admission_seen, send_given_up,
  position_given_up, admission_given_up, loop_turns, depth_received, result_read, done_seen,
  ask_given_up, result_given_up, loop_returns, service_ends, join_ends, depth_ends,
}
use flashsale_reservation.Admission.Replies.{
  IsSent, PositionSent, DepthSent, Follows, run-snoc, closed-snoc, quiet-closed, joined-closes,
  asked-closes, some_eq, snoc-PositionSent, snoc-DepthSent,
}

-- One more event.
run-turn :
    (es : List Event) (e : Event) (a : Admitter)
    → (run es new_admitter).1 ≡ a
    → run (es ++ (e ∷ [])) new_admitter
      ≡ ((run es new_admitter).0 ++ ((turn e a).0 ∷ []), (turn e a).1)
run-turn es e a same = rw (← same) (run-snoc es e new_admitter)

loop_of :
    (loop : Option Admitter) (a b : Admitter)
    → loop ≡ some a
    → (loop ≡ none) ⊎ (loop ≡ some b)
    → b ≡ a
loop_of loop a b l (inl gone) = absurd cc
loop_of loop a b l (inr running) = cc

abbrev pub Followed : ℕ → Channels → Type 0
Followed j r = (es : List Event) × Follows j r (run es new_admitter)

-- What holds of the replies and the admitter of one more event holds of a run.
follow_turn :
    (j : ℕ) (q : Channels) (es : List Event) (e : Event) (a : Admitter)
    → (run es new_admitter).1 ≡ a
    → Follows j q ((run es new_admitter).0 ++ ((turn e a).0 ∷ []), (turn e a).1)
    → Followed j q
follow_turn j q es e a same h = (
  es ++ (e ∷ []),
  subst (λ (p : List Reply × Admitter). Follows j q p) (sym (run-turn es e a same)) h,
)

PositionSent-at :
    (j : ℕ) (r : Channels) (s : Joining) (replies : List Reply)
    → r.join ≡ s
    → PositionSent j r.join r.position replies
    → PositionSent j s r.position replies
PositionSent-at j r s replies e h = subst (λ (t : Joining). PositionSent j t r.position replies) e h

DepthSent-at :
    (r : Channels) (s : Asking) (replies : List Reply)
    → r.depth ≡ s
    → DepthSent r.depth r.result replies
    → DepthSent s r.result replies
DepthSent-at r s replies e h = subst (λ (t : Asking). DepthSent t r.result replies) e h

Step-Followed : (j : ℕ) (p q : Channels) → Step j p q → Followed j p → Followed j q
Step-Followed j r q (join_received _ a l s) (es, (o, c, h, d)) =
    let same = loop_of r.loop a (run es new_admitter).1 l o in
    follow_turn j q es (joined j) a same (
      inr refl,
      c ∙ quiet-closed j (run es new_admitter).0 _ (joined-closes j j a),
      (a.next_position, refl, ((run es new_admitter).0, [], unfold turn in refl)),
      snoc-DepthSent r.depth r.result (run es new_admitter).0 _ d,
    )
Step-Followed j r q (position_read _ n s e) (es, (o, c, h, d)) =
    let (m, e', sent) = PositionSent-at j r awaiting_position (run es new_admitter).0 s h in
    (
      es,
      (
        o,
        c,
        subst (λ (k : ℕ). IsSent (placed j k) (run es new_admitter).0) (some_eq (sym e' ∙ e)) sent,
        d,
      ),
    )
Step-Followed j r q (admission_seen _ n s k) (es, (o, c, h, d)) = (
  es,
  (o, c, (PositionSent-at j r (awaiting_admission n) (run es new_admitter).0 s h, sym c ∙ k), d),
)
Step-Followed j r q (send_given_up _ s k) (es, (o, c, h, d)) = (es, (o, c, tt, d))
Step-Followed j r q (position_given_up _ s k) (es, (o, c, h, d)) = (es, (o, c, tt, d))
Step-Followed j r q (admission_given_up _ n s k) (es, (o, c, h, d)) = (es, (o, c, tt, d))
Step-Followed j r q (loop_turns _ a e l other) (es, (o, c, h, d)) =
    follow_turn j q es e a (loop_of r.loop a (run es new_admitter).1 l o) (
      inr refl,
      ap (λ (b : Bool). b || closes j (turn e a).0) c
          ∙ closed-snoc j (run es new_admitter).0 (turn e a).0,
      snoc-PositionSent j r.join r.position (run es new_admitter).0 _ h,
      snoc-DepthSent r.depth r.result (run es new_admitter).0 _ d,
    )
Step-Followed j r q (depth_received _ a l s) (es, (o, c, h, d)) =
    follow_turn j q es asked_depth a (loop_of r.loop a (run es new_admitter).1 l o) (
      inr refl,
      c ∙ quiet-closed j (run es new_admitter).0 _ (asked-closes j a),
      snoc-PositionSent j r.join r.position (run es new_admitter).0 _ h,
      (length a.queue, refl, ((run es new_admitter).0, [], unfold turn in refl)),
    )
Step-Followed j r q (result_read _ n s e) (es, (o, c, h, d)) =
    let (m, e', sent) = DepthSent-at r awaiting_result (run es new_admitter).0 s d in
    (
      es,
      (
        o,
        c,
        h,
        subst (λ (k : ℕ). IsSent (counted k) (run es new_admitter).0) (some_eq (sym e' ∙ e)) sent,
      ),
    )
Step-Followed j r q (done_seen _ s l) (es, (o, c, h, d)) = (es, (o, c, h, tt))
Step-Followed j r q (ask_given_up _ s k) (es, (o, c, h, d)) = (es, (o, c, h, tt))
Step-Followed j r q (result_given_up _ s k) (es, (o, c, h, d)) = (es, (o, c, h, tt))
Step-Followed j r q (loop_returns _ k) (es, (o, c, h, d)) = (es, (inl refl, c, h, d))
Step-Followed j r q (service_ends _) h = h
Step-Followed j r q (join_ends _) h = h
Step-Followed j r q (depth_ends _) h = h

Steps-Followed : (j : ℕ) (p q : Channels) → Steps j p q → Followed j p → Followed j q
Steps-Followed j p q (here _) h = h
Steps-Followed j p q (then _ m _ first rest) h =
    Steps-Followed j m q rest (Step-Followed j p m first h)

-- The goroutines do what run does alone: in whatever order the loop, the calls and their contexts take
-- their steps, there is one list of events such that the loop, unless it has returned, is where run is
-- after that list, the joiner's channel is closed exactly if run has closed it, and the position and
-- the depth that the calls have read, or find in their channels, are among the replies of run. A
-- joiner that was let in has had both its replies.
pub calls_follow_run : (j : ℕ) (r : Channels) → Steps j opened r → Followed j r
calls_follow_run j r steps =
    Steps-Followed j opened r steps ([], (unfold run in (inr refl, refl, tt, tt)))
