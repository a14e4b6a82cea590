-- ===== src/Admission.antt =====
-- internal/admission: the waiting room's admitter loop, and the registry of admitters by item.
-- A joiner's channels are a number; one turn of the loop's `select` is a step.
pub mod Fifo
pub mod Service
pub mod Items
pub mod Rate
pub mod Calls
pub mod InLine
pub mod Hangs
pub mod Stranded
pub mod Replies
pub mod Sequential
use flashsale_reservation.Prelude.{
  ℕ, zero, suc, Option, none, some, List, [], ◌∷◌, ◌++◌, ◌/◌, length, if◌then◌else◌,
}
use flashsale_reservation.Prelude.Int.{ℤ, pos, negsuc, ◌-ℤ◌, ltb_ℤ}
use flashsale_reservation.Prelude.Text.{Text, text_eq}
use flashsale_reservation.Retry.{second}

-- The two local variables of `run`.
pub record Admitter : Type 0 where
  pub queue : List ℕ
  pub next_position : ℕ

-- How `NewAdmitter` fares: the division panics, `NewTicker` panics on an interval that is not
-- positive, or the loop runs with a tick every so many nanoseconds.
pub data Start : Type 0 where
  no_rate no_interval : Start
  ticking : ℤ → Start

-- time.Second / time.Duration(ratePerSecond), which drops the fraction.
unfoldable pub interval : ℤ → Option ℤ
interval (pos zero) = none
interval (pos (suc n)) = some (pos (second / suc n))
interval (negsuc n) = some (pos 0 -ℤ pos (second / suc n))

unfoldable pub start_admitter : ℤ → Start
start_admitter rate = elim (interval rate) [
  | none ↦ no_rate
  | some d ↦ if ltb_ℤ (pos 0) d then ticking d else no_interval
]

-- What `select` receives, with ctx.Done() as the end of the list of events.
pub data Event : Type 0 where
  joined : ℕ → Event
  ticked asked_depth : Event

-- What it sends: the joiner's position, the admission that closes a channel, or the depth.
pub data Reply : Type 0 where
  placed : ℕ → ℕ → Reply
  admitted : ℕ → Reply
  idle : Reply
  counted : ℕ → Reply

abbrev pub new_admitter : Admitter
new_admitter = record { queue = []; next_position = 0 }

unfoldable pub turn : Event → Admitter → Reply × Admitter
turn (joined j) a = (
  placed j a.next_position,
  record { queue = a.queue ++ (j ∷ []); next_position = suc a.next_position },
)
turn ticked a = elim a.queue [
  | [] ↦ (idle, a)
  | next ∷ rest ↦ (admitted next, record a { queue = rest })
]
turn asked_depth a = (counted (length a.queue), a)

unfoldable pub run : List Event → Admitter → List Reply × Admitter
run [] a = ([], a)
run (e ∷ es) a =
    let (reply, a') = turn e a in let (replies, a'') = run es a' in (reply ∷ replies, a'')

-- registry.go: the map of admitters. Those that `For` starts run on; `None` is a missing key.
abbrev pub Registry : Type 0
Registry = List (Text × Admitter)

unfoldable pub find_admitter : Text → Registry → Option Admitter
find_admitter item [] = none
find_admitter item ((i, a) ∷ reg) = if text_eq i item then some a else find_admitter item reg

unfoldable pub for_item : Text → Registry → Admitter × Registry
for_item item reg = elim (find_admitter item reg) [
  | some a ↦ (a, reg)
  | none ↦ (new_admitter, (item, new_admitter) ∷ reg)
]

-- The loop of the item's admitter takes a turn.
unfoldable pub update : Text → Admitter → Registry → Registry
update item a [] = []
update item a ((i, b) ∷ reg) = if text_eq i item then (i, a) ∷ reg else (i, b) ∷ update item a reg

unfoldable pub serve : Text → Event → Registry → Reply × Registry
serve item e reg =
    let (a, reg') = for_item item reg in let (reply, a') = turn e a in (reply, update item a' reg')

unfoldable pub serve_events : List (Text × Event) → Registry → List (Text × Reply) × Registry
serve_events [] reg = ([], reg)
serve_events ((item, e) ∷ es) reg =
    let (reply, reg') = serve item e reg in
    let (replies, reg'') = serve_events es reg' in ((item, reply) ∷ replies, reg'')
