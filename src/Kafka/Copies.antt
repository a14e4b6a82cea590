-- ===== src/Kafka/Copies.antt =====
-- internal/kafkax: how often a write leaves its record on the topic, with the writer's own retries.
use flashsale_reservation.Prelude.{ℕ, zero, suc, ◌≡◌, ◌≢◌, refl, sym, ap, ◌∙◌, List, [], ◌∷◌, ◌++◌}
use mathlib.Core.List.{append-nil, append_assoc}
use flashsale_reservation.Prelude.Result.{ok}
use flashsale_reservation.Kafka.{
  Delivery, acknowledged, failed, unacknowledged, rewritten, Record, write_message,
}

abbrev pub copies : ℕ → Record → List Record
copies zero m = []
copies (suc k) m = m ∷ copies k m

-- The tries that were written.
abbrev pub tries : Delivery → ℕ
tries acknowledged = 1
tries failed = 0
tries unacknowledged = 1
tries (rewritten d) = suc (tries d)

pub write_message-copies :
    (d : Delivery) (m : Record) (log : List Record)
    → (write_message d m log).1 ≡ log ++ copies (tries d) m
write_message-copies acknowledged m log = refl
write_message-copies failed m log = sym (append-nil log)
write_message-copies unacknowledged m log = refl
write_message-copies (rewritten d) m log =
    write_message-copies d m (log ++ (m ∷ [])) ∙ append_assoc log (m ∷ []) (copies (tries d) m)

pub tries-suc : (d : Delivery) → d ≢ failed → (k : ℕ) × (tries d ≡ suc k)
tries-suc acknowledged h = (0, refl)
tries-suc failed h = absurd (h refl)
tries-suc unacknowledged h = (0, refl)
tries-suc (rewritten d) h = (tries d, refl)

cancel_log : (log xs ys : List Record) → log ++ xs ≡ log ++ ys → xs ≡ ys
cancel_log [] xs ys e = e
cancel_log (x ∷ log) xs ys e = cancel_log log xs ys (tail e)
  where
    tail : {us ws : List Record} → ◌≡◌ {A = List Record} (x ∷ us) (x ∷ ws) → us ≡ ws
    tail e = cc

all_alike :
    (k : ℕ) (m rec : Record) (before after : List Record)
    → before ++ (rec ∷ after) ≡ copies k m
    → rec ≡ m
all_alike zero m rec [] after e = absurd cc
all_alike zero m rec (b ∷ before) after e = absurd cc
all_alike (suc k) m rec [] after e = cc
all_alike (suc k) m rec (b ∷ before) after e = all_alike k m rec before after (tail e)
  where
    tail : {us ws : List Record} → ◌≡◌ {A = List Record} (b ∷ us) (m ∷ ws) → us ≡ ws
    tail e = cc

-- Whichever of the appended records one takes, it is the one that was written.
pub one_of_copies :
    (k : ℕ) (m rec : Record) (log before after : List Record)
    → log ++ (before ++ (rec ∷ after)) ≡ log ++ copies k m
    → rec ≡ m
one_of_copies k m rec log before after e = all_alike k m rec before after (cancel_log log _ _ e)

-- An acknowledged write has left the record at least once.
pub written-copies :
    (d : Delivery) (m : Record) (log : List Record)
    → (write_message d m log).0 ≡ ok tt
    → (k : ℕ) × ((write_message d m log).1 ≡ log ++ (m ∷ copies k m))
written-copies d m log h =
    let (k, e) = tries-suc d (λ f. failed_write d f h) in
    (k, write_message-copies d m log ∙ ap (λ (n : ℕ). log ++ copies n m) e)
  where
    failed_write : (d : Delivery) → d ≡ failed → (write_message d m log).0 ≢ ok tt
    failed_write acknowledged f e = cc
    failed_write failed f e = cc
    failed_write unacknowledged f e = cc
    failed_write (rewritten d) f e = cc
