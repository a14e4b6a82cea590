-- ===== src/Examples/Tokens.antt =====
-- Runs of internal/redisx.
use flashsale_reservation.Redis.Risk.{
  Floats, set_risk_score, get_risk_score, set_then_get_risk_score,
}
use flashsale_reservation.Prelude.{ℕ, ◌≡◌, refl, Option, none, some, [], ◌∷◌, arith}
use flashsale_reservation.Prelude.Int.{pos, ◌+ℤ◌}
use flashsale_reservation.Prelude.Text.{Text}
use flashsale_reservation.Prelude.Result.{ok}
use flashsale_reservation.Redis.{up, admission_key, inventory_key}
use flashsale_reservation.Examples.Data.{phone_id, ann, stocked}

abbrev parse_score : Text → Option ℕ
parse_score [] = none
parse_score (n ∷ t) = some n

-- Scores as numbers of one sign.
abbrev scores : Floats ℕ
scores = record { format = λ n. n ∷ []; parse = parse_score; parse_integer = λ z. none }

set_then_get_risk_score_example :
    let r' = (set_risk_score scores up (pos 0) phone_id ann 8 (pos 60) stocked).1 in
    (get_risk_score scores up (pos 50) phone_id ann r' ≡ ok (some 8))
    × (r' (inventory_key phone_id) ≡ stocked (inventory_key phone_id))
    × (r' (admission_key phone_id ann) ≡ stocked (admission_key phone_id ann))
unfolding ◌+ℤ◌
set_then_get_risk_score_example =
    set_then_get_risk_score scores (pos 0) (pos 50) phone_id ann phone_id phone_id ann 8 (pos 60)
      stocked (omega arith) refl
