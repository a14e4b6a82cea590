-- ===== src/Admission/Hangs.antt =====
-- internal/admission/admitter.go: no call of Join or Depth hangs while the loop runs.
use flashsale_reservation.Prelude.{
  ℕ, ◌≡◌, ◌⊎◌, inl, inr, refl, ap, Bool, true, false, ◌||◌, Option, none, some, List, [], ◌∷◌, ◌++◌,
  arith, ==_iff,
}
use flashsale_reservation.Admission.{Admitter, Reply, admitted, joined, ticked, turn}
use flashsale_reservation.Admission.Calls.{
  Joining, sending, awaiting_position, awaiting_admission, let_in, join_cancelled, Asking, asking,
  awaiting_result, answered, depth_cancelled, depth_stopped, Channels, closes, Steps, here, then,
  opened, depth_returned, join_received, position_read, admission_seen, loop_turns, depth_received,
  result_read, done_seen,
}
use flashsale_reservation.Admission.InLine.{
  InLine, JoinKept, DepthKept, at_loop, joined-IsQueued, Steps-IsKept,
}

-- Depth can go on to its return, with no context ended for it.
abbrev pub DepthCanReturn : ℕ → Channels → Type 0
DepthCanReturn j r =
    (r' : Channels) × Steps j r r'
    × (depth_returned r'.depth ≡ true)
    × (r'.depth_ended ≡ r.depth_ended)
    × (r'.service_ended ≡ r.service_ended)

-- Join can go on to its return without an error, with no context ended for it.
abbrev pub CanBeLetIn : ℕ → Channels → Type 0
CanBeLetIn j r =
    (r' : Channels) × (n : ℕ) × Steps j r r'
    × (r'.join ≡ let_in n)
    × (r'.join_ended ≡ r.join_ended)
    × (r'.service_ended ≡ r.service_ended)

result_can_return :
    (j : ℕ) (r : Channels) (n : ℕ)
    → r.depth ≡ awaiting_result
    → r.result ≡ some n
    → DepthCanReturn j r
result_can_return j r n d e = (_, then r _ _ (result_read r n d e) (here _), refl, refl, refl)

asking_can_return :
    (j : ℕ) (r : Channels) (loop : Option Admitter)
    → r.loop ≡ loop
    → r.depth ≡ asking
    → DepthCanReturn j r
asking_can_return j r none l d = (_, then r _ _ (done_seen r d l) (here _), refl, refl, refl)
asking_can_return j r (some a) l d = (
  _,
  then r _ _ (depth_received r a l d) (then _ _ _ (result_read _ _ refl refl) (here _)),
  refl,
  refl,
  refl,
)

depth_can_return :
    (j : ℕ) (r : Channels) (s : Asking) → r.depth ≡ s → DepthKept s r.result → DepthCanReturn j r
depth_can_return j r asking d h = asking_can_return j r r.loop refl d
depth_can_return j r awaiting_result d (n, e) = result_can_return j r n d e
depth_can_return j r (answered n) d h = (r, here r, ap depth_returned d, refl, refl)
depth_can_return j r depth_cancelled d h = (r, here r, ap depth_returned d, refl, refl)
depth_can_return j r depth_stopped d h = (r, here r, ap depth_returned d, refl, refl)

tick_shortens :
    (a : Admitter) (k : ℕ) (rest : List ℕ)
    → a.queue ≡ k ∷ rest
    → turn ticked a ≡ (admitted k, record a { queue = rest })
unfolding turn
tick_shortens a k rest q = rw q refl

tick_lets_in :
    (j : ℕ) (a : Admitter) (behind : List ℕ) (adm : Bool)
    → a.queue ≡ j ∷ behind
    → (adm || closes j (turn ticked a).0) ≡ true
unfolding closes
tick_lets_in j a behind adm q = rw (tick_shortens a j behind q) (ground (arith, (==_iff j j).1))

-- A tick for everyone ahead, and one for the joiner.
queued-CanBeLetIn :
    (j n : ℕ) (r : Channels) (a : Admitter) (ahead behind : List ℕ)
    → r.loop ≡ some a
    → a.queue ≡ ahead ++ (j ∷ behind)
    → r.join ≡ awaiting_admission n
    → CanBeLetIn j r
queued-CanBeLetIn j n r a [] behind l q s = (
  _,
  n,
  then r _ _ (loop_turns r a ticked l (λ e. cc))
      (then _ _ _ (admission_seen _ n s (tick_lets_in j a behind r.is_admitted q)) (here _)),
  refl,
  refl,
  refl,
)
queued-CanBeLetIn j n r a (x ∷ ahead) behind l q s =
    let (r', m, steps, done, same, kept) =
      queued-CanBeLetIn j n
        (record r {
          loop = some (turn ticked a).1;
          is_admitted = r.is_admitted || closes j (turn ticked a).0;
        })
        (turn ticked a).1 ahead behind refl
        (ap (λ (p : Reply × Admitter). p.1.queue) (tick_shortens a x (ahead ++ (j ∷ behind)) q))
        s in
    (r', m, then r _ r' (loop_turns r a ticked l (λ e. cc)) steps, done, same, kept)

InLine-CanBeLetIn :
    (j n : ℕ) (r : Channels) (a : Admitter) (adm : Bool)
    → r.loop ≡ some a
    → r.is_admitted ≡ adm
    → InLine j adm (some a)
    → r.join ≡ awaiting_admission n
    → CanBeLetIn j r
InLine-CanBeLetIn j n r a true l e h s =
    (_, n, then r _ _ (admission_seen r n s e) (here _), refl, refl, refl)
InLine-CanBeLetIn j n r a false l e (ahead, behind, q) s =
    queued-CanBeLetIn j n r a ahead behind l q s

placed-CanBeLetIn :
    (j n : ℕ) (r : Channels) (a : Admitter)
    → r.loop ≡ some a
    → r.join ≡ awaiting_position
    → r.position ≡ some n
    → InLine j r.is_admitted (some a)
    → CanBeLetIn j r
placed-CanBeLetIn j n r a l s e h =
    let (r', m, steps, done, same, kept) =
      InLine-CanBeLetIn j n (record r { join = awaiting_admission n; position = none }) a
        r.is_admitted l refl h refl in
    (r', m, then r _ r' (position_read r n s e) steps, done, same, kept)

sent-CanBeLetIn :
    (j : ℕ) (r : Channels) (a : Admitter) → r.loop ≡ some a → r.join ≡ sending → CanBeLetIn j r
sent-CanBeLetIn j r a l s =
    let (r', m, steps, done, same, kept) =
      placed-CanBeLetIn j a.next_position
        (record r {
          loop = some (turn (joined j) a).1;
          join = awaiting_position;
          position = some a.next_position;
        })
        (turn (joined j) a).1 refl refl refl (joined-IsQueued j a r.is_admitted) in
    (r', m, then r _ r' (join_received r a l s) steps, done, same, kept)

join_can_return :
    (j : ℕ) (r : Channels) (a : Admitter) (s : Joining)
    → r.loop ≡ some a
    → r.join ≡ s
    → JoinKept j s r.position r.is_admitted (some a)
    → (r.join ≡ join_cancelled) ⊎ CanBeLetIn j r
join_can_return j r a sending l e h = inr (sent-CanBeLetIn j r a l e)
join_can_return j r a awaiting_position l e ((n, p), h) = inr (placed-CanBeLetIn j n r a l e p h)
join_can_return j r a (awaiting_admission n) l e h =
    inr (InLine-CanBeLetIn j n r a r.is_admitted l refl h e)
join_can_return j r a (let_in n) l e h = inr (r, n, here r, e, refl, refl)
join_can_return j r a join_cancelled l e h = inl e

loop_or_gone : (loop : Option Admitter) → (loop ≡ none) ⊎ ((a : Admitter) × (loop ≡ some a))
loop_or_gone none = inl refl
loop_or_gone (some a) = inr (a, refl)

-- Nobody is left waiting by the code: in whatever order the loop, the joiners, the callers of Depth
-- and the ends of their contexts take their steps, a call of Depth can go on to its return, and a call
-- of Join either has been cancelled, or finds the loop gone, or can go on to be let in. Neither needs
-- a context to end.
pub calls_can_return :
    (j : ℕ) (r : Channels)
    → Steps j opened r
    → DepthCanReturn j r × ((r.loop ≡ none) ⊎ ((r.join ≡ join_cancelled) ⊎ CanBeLetIn j r))
calls_can_return j r steps =
    let (h, d) = Steps-IsKept j opened r steps (tt, tt) in
    (
      depth_can_return j r r.depth refl d,
      elim (loop_or_gone r.loop) [
        | inl gone ↦ inl gone
        | inr (a, l) ↦ inr (join_can_return j r a r.join l refl (at_loop j r (some a) l h))
      ],
    )
