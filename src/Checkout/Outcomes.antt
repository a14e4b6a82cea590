-- ===== src/Checkout/Outcomes.antt =====
-- cmd/checkout-api/main.go, handleCheckout and releaseAndRegrant: the ends of an admitted checkout.
use flashsale_reservation.Prelude.{ℕ, ◌≡◌, ◌⊎◌, none, some, ◌∷◌, ◌++◌, if◌then◌else◌}
use flashsale_reservation.Prelude.Int.{ℤ, ◌+ℤ◌, ltb_ℤ}
use flashsale_reservation.Prelude.Text.{Text}
use flashsale_reservation.Redis.{Redis, text, admission_key, read}
use flashsale_reservation.Redis.FastPath.{Counts}
use flashsale_reservation.Checkout.{CheckoutRequest, Response, Site}
use flashsale_reservation.Kafka.Copies.{copies}

-- The request went through, with `n` units left.
abbrev pub Accepted : Text → CheckoutRequest → ℕ → Site → Response × Site → Type 0
Accepted item req n s (response, s') =
    (response.status ≡ 200)
    × Counts item n s'.redis
    × (s'.redis (admission_key item req.user_id) ≡ none)
    × ((v : Text) × (k : ℕ) × (s'.topic
          ≡ s.topic
            ++ (record { key = item; value = v } ∷ copies k (record { key = item; value = v }))))

-- The request was undone: the counter shows `n`, and a token granted at `at` can be read until its
-- time to live `ttl` has passed.
abbrev pub Undone : Text → CheckoutRequest → ℕ → Text → ℤ → ℤ → ℤ → Response × Site → Type 0
Undone item req n stamp at ttl later (response, s') =
    ((response.status ≡ 500) ⊎ (response.status ≡ 503))
    × Counts item n s'.redis
    × (read later (admission_key item req.user_id) s'.redis ≡ (
        if ltb_ℤ later (at +ℤ ttl)
        then some (record { value = text stamp; expires_at = some (at +ℤ ttl) })
        else none))
