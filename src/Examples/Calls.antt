-- ===== src/Examples/Calls.antt =====
-- internal/admission/admitter.go at work: a joiner and a caller of Depth, served and stranded.
use flashsale_reservation.Prelude.{◌≡◌, ◌⊎◌, refl, true, false, none, some}
use flashsale_reservation.Admission.{new_admitter, joined, turn}
use flashsale_reservation.Admission.Calls.{
  awaiting_position, awaiting_admission, join_cancelled, Channels, Steps, here, then, opened,
  closes, join_returned, join_received, position_read, loop_turns,
}
use flashsale_reservation.Admission.Hangs.{DepthCanReturn, CanBeLetIn, calls_can_return}
use flashsale_reservation.Admission.Sequential.{Followed, calls_follow_run}
use flashsale_reservation.Admission.Stranded.{stopped_join_hangs}

-- Buyer 3 stands in line.
abbrev three_waits : Channels
three_waits = record opened { loop = some (turn (joined 3) new_admitter).1 }

-- Buyer 4 has been sent behind.
abbrev four_sent : Channels
four_sent = record opened {
  loop = some (turn (joined 4) (turn (joined 3) new_admitter).1).1;
  join = awaiting_position;
  position = some (turn (joined 3) new_admitter).1.next_position;
}

to_four_sent : Steps 4 opened four_sent
to_four_sent =
    then opened three_waits four_sent
      (unfold turn closes in loop_turns opened new_admitter (joined 3) refl (λ e. cc))
      (then three_waits four_sent four_sent
        (join_received three_waits (turn (joined 3) new_admitter).1 refl refl) (here four_sent))

calls_can_return_example :
    DepthCanReturn 4 four_sent
    × ((four_sent.loop ≡ none) ⊎ ((four_sent.join ≡ join_cancelled) ⊎ CanBeLetIn 4 four_sent))
calls_can_return_example = calls_can_return 4 four_sent to_four_sent

calls_follow_run_example : Followed 4 four_sent
calls_follow_run_example = calls_follow_run 4 four_sent to_four_sent

-- The service ended while buyer 4 was in line, and the loop has returned.
abbrev four_left : Channels
four_left = record four_sent { loop = none; service_ended = true }

abbrev four_placed : Channels
four_placed = record four_left { join = awaiting_admission 1; position = none }

to_four_placed : Steps 4 four_left four_placed
to_four_placed =
    then four_left four_placed four_placed (unfold turn in position_read four_left 1 refl refl)
      (here four_placed)

stopped_join_hangs_example : join_returned four_placed.join ≡ false
stopped_join_hangs_example =
    stopped_join_hangs 4 four_left four_placed refl refl refl to_four_placed refl
