-- ===== src/Admission/Stranded.antt =====
-- internal/admission/admitter.go: the calls of Join that outlive the loop.
use flashsale_reservation.Prelude.{ℕ, ◌≡◌, ◌⊎◌, inl, inr, refl, true, false, none}
use flashsale_reservation.Admission.Calls.{
  Channels, Step, Steps, here, then, join_returned, join_received, position_read, admission_seen,
  send_given_up, position_given_up, admission_given_up, loop_turns, depth_received, result_read,
  done_seen, ask_given_up, result_given_up, loop_returns, service_ends, join_ends, depth_ends,
}

-- A Join that meets a loop that has returned, and that is not yet admitted, has a context that
-- ended or has not returned.
abbrev IsStranded : Channels → Type 0
IsStranded r =
    (r.loop ≡ none)
    × (r.is_admitted ≡ false)
    × ((r.join_ended ≡ true) ⊎ (join_returned r.join ≡ false))

Step-IsStranded : (j : ℕ) (p q : Channels) → Step j p q → IsStranded p → IsStranded q
Step-IsStranded j r q (join_received _ a l s) (gone, out, w) = absurd cc
Step-IsStranded j r q (position_read _ n s e) (gone, out, w) = (gone, out, inr refl)
Step-IsStranded j r q (admission_seen _ n s c) (gone, out, w) = absurd cc
Step-IsStranded j r q (send_given_up _ s c) (gone, out, w) = (gone, out, inl c)
Step-IsStranded j r q (position_given_up _ s c) (gone, out, w) = (gone, out, inl c)
Step-IsStranded j r q (admission_given_up _ n s c) (gone, out, w) = (gone, out, inl c)
Step-IsStranded j r q (loop_turns _ a e l other) (gone, out, w) = absurd cc
Step-IsStranded j r q (depth_received _ a l s) (gone, out, w) = absurd cc
Step-IsStranded j r q (result_read _ n s e) h = h
Step-IsStranded j r q (done_seen _ s l) h = h
Step-IsStranded j r q (ask_given_up _ s c) h = h
Step-IsStranded j r q (result_given_up _ s c) h = h
Step-IsStranded j r q (loop_returns _ c) (gone, out, w) = (refl, out, w)
Step-IsStranded j r q (service_ends _) h = h
Step-IsStranded j r q (join_ends _) (gone, out, w) = (gone, out, inl refl)
Step-IsStranded j r q (depth_ends _) h = h

Steps-IsStranded : (j : ℕ) (p q : Channels) → Steps j p q → IsStranded p → IsStranded q
Steps-IsStranded j p q (here _) h = h
Steps-IsStranded j p q (then _ m _ first rest) h =
    Steps-IsStranded j m q rest (Step-IsStranded j p m first h)

-- A Join outlives the loop: once the loop has returned, a call of Join that is in any of its three
-- selects, and whose channel is not closed, never returns, until its own context ends.
pub stopped_join_hangs :
    (j : ℕ) (p q : Channels)
    → p.loop ≡ none
    → p.is_admitted ≡ false
    → join_returned p.join ≡ false
    → Steps j p q
    → q.join_ended ≡ false
    → join_returned q.join ≡ false
stopped_join_hangs j p q gone out waits steps running =
    let (_, _, w) = Steps-IsStranded j p q steps (gone, out, inr waits) in
    elim w [ inl ended ↦ absurd cc | inr still ↦ still ]
