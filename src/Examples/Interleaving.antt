-- ===== src/Examples/Interleaving.antt =====
-- Runs of cmd/checkout-api with checkouts at work at the same time.
use flashsale_reservation.Prelude.{ℕ, ◌+◌, ◌≤◌, refl, some, List, [], ◌∷◌, All, arith}
use flashsale_reservation.Prelude.Int.{pos}
use flashsale_reservation.Prelude.Text.{text_eq}
use flashsale_reservation.Redis.{inventory_key, admission_key, read}
use flashsale_reservation.Redis.FastPath.{Counts}
use flashsale_reservation.Checkout.Steps.{arrived, Handler, interleave}
use flashsale_reservation.Checkout.Interleaved.{
  held_in, HasArrived, interleaved_checkouts_never_oversell,
}
use flashsale_reservation.Examples.Data.{phone_id}
use flashsale_reservation.Examples.Checkouts.{codec, calls, left, request, site}

-- Two checkouts of five phones: the client of the first leaves while its event is being written.
abbrev two_handlers : List Handler
two_handlers =
    (record { item = phone_id; body = some request; calls = left; stage = arrived })
    ∷ (record { item = phone_id; body = some request; calls = calls; stage = arrived })
    ∷ []

abbrev turns : List ℕ
turns = 0 ∷ 1 ∷ 0 ∷ 0 ∷ 1 ∷ 0 ∷ 1 ∷ 0 ∷ []

two_handlers-HasArrived : All HasArrived two_handlers
two_handlers-HasArrived = ((refl, tt), ((refl, tt), tt))

interleaved_checkouts_never_oversell_example :
    let (hs, s') = interleave codec (pos 60) turns two_handlers site in
    (m : ℕ) × Counts phone_id m s'.redis × (held_in phone_id hs + m ≤ 5)
unfolding read text_eq inventory_key admission_key
interleaved_checkouts_never_oversell_example =
    interleaved_checkouts_never_oversell codec (pos 60) turns two_handlers site phone_id 5
      two_handlers-HasArrived refl (omega arith)
