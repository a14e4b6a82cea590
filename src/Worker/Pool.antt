-- ===== src/Worker/Pool.antt =====
-- cmd/expiry-worker/main.go: what every order of the goroutines' steps keeps, and how it winds down.
use flashsale_reservation.Prelude.{
  List-cases, ℕ, ◌+◌, ◌*◌, ◌<◌, ◌≤◌, ◌≡◌, ◌⊎◌, inl, inr, refl, ap, ◌∙◌, false, none, [], ◌∷◌,
  length, length-append, arith,
}
use flashsale_reservation.Prelude.Int.{pos}
use flashsale_reservation.Tx.{done}
use flashsale_reservation.Expiry
use flashsale_reservation.Store.Sums.{stock}
use flashsale_reservation.Store.Moves.{Move, stay, Move-stock}
use flashsale_reservation.Store.Invariant.{Sound, Move-Sound}
use flashsale_reservation.Decision.Safety.{process_attempt-Move}
use flashsale_reservation.Expiry.Safety.{expire_reservation-Move}
use flashsale_reservation.Worker.{
  Config, System, Step, decides, scans, sends, closes, takes, expires, Steps, here, then,
}

Step-Move : (f : Config) (s t : System) → Step f s t → Sound s.db → Move s.db t.db
Step-Move f s t (decides _ a ttl c) sound = process_attempt-Move f.uuids a ttl c s.db
Step-Move f s t (scans _ now ids _ _ _) sound = stay
Step-Move f s t (sends _ id ids _ _ _) sound = stay
Step-Move f s t (closes _ _) sound = stay
Step-Move f s t (takes _ id ids _ _) sound = stay
Step-Move f s t (expires _ id before after c _) sound =
    expire_reservation-Move f.uuids id c s.db sound

-- Within the bounds of the channel and of the pool.
abbrev pub IsBounded : Config → System → Type 0
IsBounded f s = (length s.jobs ≤ f.capacity) × (length s.busy ≤ f.pool_size)

Step-IsBounded : (f : Config) (s t : System) → Step f s t → IsBounded f s → IsBounded f t
Step-IsBounded f s t (decides _ a ttl c) (jobs, busy) = (jobs, busy)
Step-IsBounded f s t (scans _ now ids _ _ _) (jobs, busy) = (jobs, busy)
Step-IsBounded f s t (sends _ id ids _ _ room) (jobs, busy) =
    (omega (arith, length-append s.jobs (id ∷ []), room), busy)
Step-IsBounded f s t (closes _ _) (jobs, busy) = (jobs, busy)
Step-IsBounded f s t (takes _ id ids e room) (jobs, busy) =
    (omega (arith, ap length e), omega arith)
Step-IsBounded f s t (expires _ id before after c e) (jobs, busy) = (
  jobs,
  omega (arith, ap length e, length-append before (id ∷ after), length-append before after),
)

-- However the scanner, the workers and the decision service interleave, the tables keep their
-- invariant, of every item `i` the units on hand and the units held keep their sum, and the channel
-- and the pool stay within their sizes.
pub Steps-Sound :
    (f : Config) (s t : System) (i : ℕ)
    → Steps f s t
    → Sound s.db
    → IsBounded f s
    → Sound t.db × (stock i t.db ≡ stock i s.db) × IsBounded f t
Steps-Sound f s t i (here _) sound bounded = (sound, refl, bounded)
Steps-Sound f s t i (then _ m _ first rest) sound bounded =
    let move = Step-Move f s m first sound in
    let (kept, same, within) =
      Steps-Sound f m t i rest (Move-Sound move sound) (Step-IsBounded f s m first bounded) in
    (kept, same ∙ Move-stock i move, within)

-- What is left to do once the scanner is gone: two steps for an id in the channel, one for an id
-- that a worker is at.
abbrev pub left : System → ℕ
left s = 2 * length s.jobs + length s.busy

-- The steps of the pool in a series, the decision service's left out.
abbrev pub pool_step : {f : Config} {s t : System} → Step f s t → ℕ
pool_step (decides _ _ _ _) = 0
pool_step _ = 1

abbrev pub pool_steps : {f : Config} {s t : System} → Steps f s t → ℕ
pool_steps (here _) = 0
pool_steps (then _ _ _ first rest) = pool_step first + pool_steps rest

Step-left :
    (f : Config) (s t : System) (x : Step f s t)
    → s.scanning ≡ false
    → (t.scanning ≡ false) × (pool_step x + left t ≡ left s)
Step-left f s t (decides _ a ttl c) h = (h, omega arith)
Step-left f s t (scans _ now ids on _ _) h = absurd (ground arith)
Step-left f s t (sends _ id ids on _ room) h = absurd (ground arith)
Step-left f s t (closes _ on) h = absurd (ground arith)
Step-left f s t (takes _ id ids e room) h = (h, omega (arith, ap length e))
Step-left f s t (expires _ id before after c e) h =
    (h, omega (arith, ap length e, length-append before (id ∷ after), length-append before after))

-- A call of which nothing is said: any will do for a step.
abbrev untroubled : Expiry.Calls
untroubled = record {
  now = pos 0;
  begin_tx = none;
  update_reservation = none;
  update_item = none;
  commit = done;
}

-- The shutdown drains the pool: once the scanner has closed the channel, every series of steps, in
-- whatever order the workers take them, spends exactly what was left to do, so the pool takes as
-- many steps as that and no more; and while something is left and there is a worker, a step of the
-- pool can be taken.
pub closed_pool_drains :
    (f : Config) (s t : System) (xs : Steps f s t)
    → s.scanning ≡ false
    → 0 < f.pool_size
    → (pool_steps xs + left t ≡ left s)
      × ((left t ≡ 0) ⊎ ((w : System) × (x : Step f t w) × (pool_step x ≡ 1)))
closed_pool_drains f s t xs closed pool = (spent f s t xs closed, progress f t pool)
  where
    spent :
        (f : Config) (s t : System) (xs : Steps f s t)
        → s.scanning ≡ false
        → pool_steps xs + left t ≡ left s
    spent f s t (here _) closed = omega arith
    spent f s t (then _ m _ first rest) closed =
        let (still, one) = Step-left f s m first closed in
        omega (arith, one, spent f m t rest still)

    progress :
        (f : Config) (t : System)
        → 0 < f.pool_size
        → (left t ≡ 0) ⊎ ((w : System) × (x : Step f t w) × (pool_step x ≡ 1))
    progress f t pool = elim (List-cases t.busy) [
      | inr (id, ids, e) ↦ inr (_, expires t id [] ids untroubled e, refl)
      | inl idle ↦ elim (List-cases t.jobs) [
        | inr (id, ids, e) ↦ inr (_, takes t id ids e (omega (arith, ap length idle)), refl)
        | inl empty ↦ inl (omega (arith, ap length idle, ap length empty))
      ]
    ]
