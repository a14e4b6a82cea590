-- ===== src/Examples/Starting.antt =====
-- Starts of the services: settings, rates, connections.
use flashsale_reservation.Prelude.{
  refl, ℕ, ◌+◌, ◌*◌, ◌≤◌, ◌<◌, ◌≡◌, ◌⊎◌, none, some, List, [], ◌∷◌, if◌then◌else◌, ◌==◌, ◌%◌, ◌-◌,
  ◌^◌,
}
use flashsale_reservation.Prelude.Int.{ℤ, pos, negsuc, ◌<ℤ◌, ◌-ℤ◌}
use flashsale_reservation.Prelude.Text.{Text, codes, text_eq}
use flashsale_reservation.Retry.{second}
use flashsale_reservation.Env.{Env, int, atoi, read_digits}
use flashsale_reservation.Env.Numerals.{Spells, int_exact}
use flashsale_reservation.Admission.{start_admitter, ticking, no_rate, no_interval}
use flashsale_reservation.Admission.Rate.{start_admitter_exact}
use flashsale_reservation.Connect.{PoolConfig, ClientConfig, new_pool, new_client}
use flashsale_reservation.Connect.Leaks.{PoolHasLimits, ClientHasLimits, IsTidy, connecting-IsTidy}
use flashsale_reservation.Kafka.{PurchaseAttempted, Codec, Delivery, acknowledged, unacknowledged}
use flashsale_reservation.Kafka.Writers.{Topic, new_writer, partition_log, publish_all}
use flashsale_reservation.Kafka.Partitions.{under, attempts_for, item_has_one_partition}

-- One variable is set, to a number with a sign.
abbrev env : Env
env key = if text_eq key (codes "ADMIT_RATE_PER_SEC") then codes "+50" else []

int_exact_example :
    let key = codes "ADMIT_RATE_PER_SEC" in
    ((z : ℤ) × Spells (env key) z × (int env key (pos 5) ≡ z))
    ⊎ (((z : ℤ) → ¬ Spells (env key) z) × (int env key (pos 5) ≡ pos 5))
int_exact_example = int_exact env (codes "ADMIT_RATE_PER_SEC") (pos 5)

start_admitter_exact_example :
    ((n : ℕ) × (k : ℕ) × (pos 50 ≡ pos n)
      × (start_admitter (pos 50) ≡ ticking (pos k))
      × (0 < k)
      × (n * k ≤ second)
      × (second < n * k + n))
    ⊎ ((pos 50 ≡ pos 0) × (start_admitter (pos 50) ≡ no_rate))
    ⊎ (((pos 50 <ℤ pos 0) ⊎ (pos second <ℤ pos 50)) × (start_admitter (pos 50) ≡ no_interval))
start_admitter_exact_example = start_admitter_exact (pos 50)

abbrev pool : PoolConfig
pool = record {
  dsn = codes "db";
  max_open_conns = pos 0;
  max_idle_conns = pos 3;
  conn_max_lifetime = pos 0;
}

abbrev client : ClientConfig
client = record {
  addr = codes "redis";
  dial_timeout = pos 0;
  read_timeout = pos 0;
  write_timeout = pos 7;
}

-- The pool opens and does not answer; the client is reached.
connecting-IsTidy_example :
    IsTidy PoolHasLimits (new_pool {E = Text} pool none (some (codes "down")))
    × IsTidy ClientHasLimits (new_client {E = Text} client none)
connecting-IsTidy_example = connecting-IsTidy pool client none (some (codes "down")) none

-- Keys are hashed by their first byte.
abbrev first_byte : Text → ℕ
first_byte [] = 0
first_byte (b ∷ t) = b

abbrev topic : Topic
topic = record { partitions = 4; hash = first_byte; default_place = λ n. n }

abbrev codec : Codec PurchaseAttempted
codec = record { marshal = λ e. some e.idempotency_key; unmarshal = λ t. none }

abbrev attempt : Text → Text → PurchaseAttempted
attempt item key = record {
  item_id = item;
  user_id = codes "ann";
  quantity = pos 1;
  idempotency_key = key;
  attempted_at = pos 0;
}

-- Two items, and a retry of which the first write lost its acknowledgement.
abbrev published : List (Delivery × PurchaseAttempted)
published =
    (unacknowledged, attempt (codes "a") (codes "k1"))
    ∷ (acknowledged, attempt (codes "b") (codes "k2"))
    ∷ (acknowledged, attempt (codes "a") (codes "k3"))
    ∷ []

item_has_one_partition_example :
    under (codes "a") (partition_log topic (new_writer []) 1 0 (publish_all codec published []))
    ≡ (if 1 == 97 % 4 then publish_all codec (attempts_for (codes "a") published) [] else [])
item_has_one_partition_example = item_has_one_partition topic [] codec published (codes "a") 1

signs : (atoi (codes "+07") ≡ some (pos 7)) × (atoi (codes "-12") ≡ some (negsuc 11))
unfolding atoi read_digits ◌-ℤ◌
signs = (refl, refl)

edges :
    (atoi (codes "9223372036854775808") ≡ none)
    × (atoi (codes "-9223372036854775808") ≡ some (negsuc (2 ^ 63 - 1)))
    × (atoi (codes "-") ≡ none)
    × (atoi (codes "5s") ≡ none)
unfolding atoi read_digits ◌-ℤ◌
edges = (refl, refl, refl, refl)
