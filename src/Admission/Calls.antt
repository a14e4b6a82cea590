-- ===== src/Admission/Calls.antt =====
-- internal/admission/admitter.go as goroutines: a call of Join, a call of Depth and the loop of run,
-- which meet on channels, with the contexts that end them.
use flashsale_reservation.Prelude.{
  ℕ, ◌≡◌, ◌≢◌, Bool, true, false, ◌||◌, ◌==◌, Option, none, some, length,
}
use flashsale_reservation.Admission.{
  Admitter, Event, joined, asked_depth, Reply, placed, admitted, idle, counted, new_admitter, turn,
}

-- Where Join stands: in one of its three selects, or returned with a position or with ctx.Err().
pub data Joining : Type 0 where
  sending awaiting_position : Joining
  awaiting_admission : ℕ → Joining
  let_in : ℕ → Joining
  join_cancelled : Joining

-- Where Depth stands: in one of its two selects, or returned.
pub data Asking : Type 0 where
  asking awaiting_result : Asking
  answered : ℕ → Asking
  depth_cancelled depth_stopped : Asking

abbrev pub depth_returned : Asking → Bool
depth_returned asking = false
depth_returned awaiting_result = false
depth_returned (answered n) = true
depth_returned depth_cancelled = true
depth_returned depth_stopped = true

abbrev pub join_returned : Joining → Bool
join_returned sending = false
join_returned awaiting_position = false
join_returned (awaiting_admission n) = false
join_returned (let_in n) = true
join_returned join_cancelled = true

-- The joiner's two channels are `position`, with its buffer, and `is_admitted`, which is closed or
-- not. The loop is missing once it has returned and closed `done`.
pub record Channels : Type 0 where
  pub loop : Option Admitter
  pub service_ended : Bool
  pub join : Joining
  pub position : Option ℕ
  pub is_admitted : Bool
  pub join_ended : Bool
  pub depth : Asking
  pub result : Option ℕ
  pub depth_ended : Bool

-- Whether a turn of the loop closes the joiner's channel.
unfoldable pub closes : ℕ → Reply → Bool
closes j (placed k p) = false
closes j (admitted k) = k == j
closes j idle = false
closes j (counted n) = false

-- The steps that are open to the loop, to the call of Join by j, to the call of Depth, and to the
-- contexts. Any other call meets the loop as an event.
pub data Step (j : ℕ) : Channels → Channels → Type 0 where
  join_received :
      (r : Channels) (a : Admitter)
      → r.loop ≡ some a
      → r.join ≡ sending
      → Step j r (record r {
        loop = some (turn (joined j) a).1;
        join = awaiting_position;
        position = some a.next_position;
      })
  position_read :
      (r : Channels) (n : ℕ)
      → r.join ≡ awaiting_position
      → r.position ≡ some n
      → Step j r (record r { join = awaiting_admission n; position = none })
  admission_seen :
      (r : Channels) (n : ℕ)
      → r.join ≡ awaiting_admission n
      → r.is_admitted ≡ true
      → Step j r (record r { join = let_in n })
  send_given_up :
      (r : Channels)
      → r.join ≡ sending
      → r.join_ended ≡ true
      → Step j r (record r { join = join_cancelled })
  position_given_up :
      (r : Channels)
      → r.join ≡ awaiting_position
      → r.join_ended ≡ true
      → Step j r (record r { join = join_cancelled })
  admission_given_up :
      (r : Channels) (n : ℕ)
      → r.join ≡ awaiting_admission n
      → r.join_ended ≡ true
      → Step j r (record r { join = join_cancelled })
  loop_turns :
      (r : Channels) (a : Admitter) (e : Event)
      → r.loop ≡ some a
      → e ≢ joined j
      → Step j r (record r {
        loop = some (turn e a).1;
        is_admitted = r.is_admitted || closes j (turn e a).0;
      })
  depth_received :
      (r : Channels) (a : Admitter)
      → r.loop ≡ some a
      → r.depth ≡ asking
      → Step j r (record r {
        loop = some (turn asked_depth a).1;
        depth = awaiting_result;
        result = some (length a.queue);
      })
  result_read :
      (r : Channels) (n : ℕ)
      → r.depth ≡ awaiting_result
      → r.result ≡ some n
      → Step j r (record r { depth = answered n; result = none })
  done_seen :
      (r : Channels)
      → r.depth ≡ asking
      → r.loop ≡ none
      → Step j r (record r { depth = depth_stopped })
  ask_given_up :
      (r : Channels)
      → r.depth ≡ asking
      → r.depth_ended ≡ true
      → Step j r (record r { depth = depth_cancelled })
  result_given_up :
      (r : Channels)
      → r.depth ≡ awaiting_result
      → r.depth_ended ≡ true
      → Step j r (record r { depth = depth_cancelled })
  loop_returns : (r : Channels) → r.service_ended ≡ true → Step j r (record r { loop = none })
  service_ends : (r : Channels) → Step j r (record r { service_ended = true })
  join_ends : (r : Channels) → Step j r (record r { join_ended = true })
  depth_ends : (r : Channels) → Step j r (record r { depth_ended = true })

pub data Steps (j : ℕ) : Channels → Channels → Type 0 where
  here : (r : Channels) → Steps j r r
  then : (p q r : Channels) → Step j p q → Steps j q r → Steps j p r

-- NewAdmitter has started the loop, and both calls begin.
abbrev pub opened : Channels
opened = record {
  loop = some new_admitter;
  service_ended = false;
  join = sending;
  position = none;
  is_admitted = false;
  join_ended = false;
  depth = asking;
  result = none;
  depth_ended = false;
}
