-- ===== src/Consumer/Order.antt =====
-- cmd/decision-service/main.go: the order of the commits, and what the dead-letter topic holds.
use flashsale_reservation.Prelude.{
  ℕ, Bool, if◌then◌else◌, ◌≡◌, ◌≢◌, ◌⊎◌, refl, sym, ap, true, false, none, some, List, [], ◌∷◌,
  ◌++◌, All, arith, inl, inr, ◌∙◌, Bool-cases,
}
use mathlib.Core.List.{append-nil, append_assoc}
use flashsale_reservation.Prelude.Text.{Text}
use flashsale_reservation.Store.{Db}
use flashsale_reservation.Store.Sums.{stock}
use flashsale_reservation.Store.Invariant.{Sound}
use flashsale_reservation.Kafka.Copies.{copies, tries-suc, write_message-copies}
use flashsale_reservation.Kafka.{
  Record, PurchaseAttempted, failed, decode_attempt, publish_dead_letter,
}
use flashsale_reservation.Consumer.{Verdict, committed, dead_lettered, shut_down, waiting, handle}
use flashsale_reservation.Consumer.Safety.{handle-Sound}
use flashsale_reservation.Prelude.Result.{ok, err, Result-cases}
use flashsale_reservation.Consumer.Loop.{
  Message, undecodable, Turn, Fetch, fetched, fetch_failed, cancelled, Service, Setup,
  send_to_dead_letter, to_attempt, give_up, finish, take_turn, run_consume_loop,
}

finish-db :
    (s : Setup) (t : Turn) (d : Verdict) (db : Db) (v : Service) → (finish s t d db v).1.db ≡ db
finish-db s t (committed out) db v = refl
finish-db s t (dead_lettered e n) db v = refl
finish-db s t shut_down db v = refl
finish-db s t waiting db v = refl

-- The two ways of a turn.
take_turn-cases :
    (s : Setup) (t : Turn) (v : Service)
    → (take_turn s t v ≡ (true, give_up s t undecodable 0 v.db v))
      ⊎ ((event : PurchaseAttempted) × (take_turn s t v ≡ (
            let h =
              handle s.policy s.uuids s.reservation_ttl (to_attempt event) t.rounds 0 0 v.db in
            finish s t h.verdict h.db v)))
unfolding take_turn
take_turn-cases s t v = elim (Result-cases (decode_attempt s.attempts t.message.value)) [
  | inl (event, e) ↦ inr (event, rw (e, take_turn))
  | inr (x, e) ↦ inl (rw (e, take_turn))
]

take_turn-Sound :
    (s : Setup) (t : Turn) (v : Service) (i : ℕ)
    → Sound v.db
    → Sound (take_turn s t v).1.db × (stock i (take_turn s t v).1.db ≡ stock i v.db)
take_turn-Sound s t v i sound = elim (take_turn-cases s t v) [
  | inl e ↦ rw e (sound, refl)
  | inr (event, e) ↦
      let h = handle s.policy s.uuids s.reservation_ttl (to_attempt event) t.rounds 0 0 v.db in
      let (kept, same) =
        handle-Sound s.policy s.uuids s.reservation_ttl (to_attempt event) t.rounds 0 0 v.db i
          sound in
      rw e (rw (finish-db s t h.verdict h.db v) (kept, same))
]

-- On sound tables the service keeps their invariant and conserves the stock of every item `i`,
-- over any sequence of messages, failed fetches and a shutdown.
pub run_consume_loop-Sound :
    (s : Setup) (fs : List Fetch) (v : Service) (i : ℕ)
    → Sound v.db
    → Sound (run_consume_loop s fs v).db × (stock i (run_consume_loop s fs v).db ≡ stock i v.db)
unfolding run_consume_loop
run_consume_loop-Sound s [] v i sound = (sound, refl)
run_consume_loop-Sound s (cancelled ∷ fs) v i sound = (sound, refl)
run_consume_loop-Sound s (fetch_failed ∷ fs) v i sound = run_consume_loop-Sound s fs v i sound
run_consume_loop-Sound s (fetched t ∷ fs) v i sound =
    let (kept, same) = take_turn-Sound s t v i sound in
    elim (Bool-cases (take_turn s t v).0) [
      | inl on ↦
          let (rest, also) = run_consume_loop-Sound s fs (take_turn s t v).1 i kept in
          rw on (rest, also ∙ same)
      | inr off ↦ rw off (kept, same)
    ]

-- Whether the handling of a message came to an end: an outcome, or a dead letter.
abbrev pub is_over : Verdict → Bool
is_over (committed out) = true
is_over (dead_lettered e n) = true
is_over shut_down = false
is_over waiting = false

-- Whether a turn settles its message, by the verdict of `handle` alone, and the tables after it.
unfoldable pub settles : Setup → Turn → Db → Bool × Db
settles s t db = elim (decode_attempt s.attempts t.message.value) [
  | err e ↦ (true, db)
  | ok event ↦
      let h = handle s.policy s.uuids s.reservation_ttl (to_attempt event) t.rounds 0 0 db in
      (is_over h.verdict, h.db)
]

-- The messages that are settled before the first that is not, or before the shutdown.
abbrev pub settled : Setup → List Fetch → Db → List Message
settled s [] db = []
settled s (cancelled ∷ fs) db = []
settled s (fetch_failed ∷ fs) db = settled s fs db
settled s (fetched t ∷ fs) db =
    let (over, db') = settles s t db in
    let later = settled s fs db' in if over then t.message ∷ later else []

-- The messages that a series of fetches brings, in order.
abbrev pub messages : List Fetch → List Message
messages [] = []
messages (fetched t ∷ fs) = t.message ∷ messages fs
messages (fetch_failed ∷ fs) = messages fs
messages (cancelled ∷ fs) = messages fs

abbrev pub Commits : Fetch → Type 0
Commits (fetched t) = t.commit_works ≡ true
Commits _ = Unit {0}

-- A turn goes on, and commits, exactly when it settles its message.
abbrev TurnCommits : Turn → Bool × Db → Service → Bool × Service → Type 0
TurnCommits t (over, db) v (goes_on, v') =
    (goes_on ≡ over)
    × (v'.db ≡ db)
    × (v'.commits ≡ (if over then v.commits ++ (t.message ∷ []) else v.commits))

finish-TurnCommits :
    (s : Setup) (t : Turn) (d : Verdict) (db : Db) (v : Service)
    → t.commit_works ≡ true
    → TurnCommits t (is_over d, db) v (finish s t d db v)
finish-TurnCommits s t (committed out) db v w = (refl, refl, rw w refl)
finish-TurnCommits s t (dead_lettered e n) db v w = (refl, refl, rw w refl)
finish-TurnCommits s t shut_down db v w = (refl, refl, refl)
finish-TurnCommits s t waiting db v w = (refl, refl, refl)

take_turn-TurnCommits :
    (s : Setup) (t : Turn) (v : Service)
    → t.commit_works ≡ true
    → TurnCommits t (settles s t v.db) v (take_turn s t v)
unfolding take_turn settles
take_turn-TurnCommits s t v w = elim (Result-cases (decode_attempt s.attempts t.message.value)) [
  | inr (x, e) ↦ rw (e, take_turn, settles) (refl, refl, rw w refl)
  | inl (event, e) ↦
      let h = handle s.policy s.uuids s.reservation_ttl (to_attempt event) t.rounds 0 0 v.db in
      rw (e, take_turn, settles) (finish-TurnCommits s t h.verdict h.db v w)
]

settled-messages :
    (s : Setup) (fs : List Fetch) (db : Db)
    → (rest : List Message) × (messages fs ≡ settled s fs db ++ rest)
settled-messages s [] db = ([], refl)
settled-messages s (cancelled ∷ fs) db = (messages fs, refl)
settled-messages s (fetch_failed ∷ fs) db = settled-messages s fs db
settled-messages s (fetched t ∷ fs) db = elim (Bool-cases (settles s t db).0) [
  | inl over ↦
      let (rest, e) = settled-messages s fs (settles s t db).1 in
      (rest, rw over (ap (λ (l : List Message). t.message ∷ l) e))
  | inr waits ↦ (t.message ∷ messages fs, rw waits refl)
]

run-settled :
    (s : Setup) (fs : List Fetch) (v : Service)
    → All Commits fs
    → (run_consume_loop s fs v).commits ≡ v.commits ++ settled s fs v.db
unfolding run_consume_loop
run-settled s [] v w = sym (append-nil v.commits)
run-settled s (cancelled ∷ fs) v w = sym (append-nil v.commits)
run-settled s (fetch_failed ∷ fs) v w = run-settled s fs v w.1
run-settled s (fetched t ∷ fs) v w =
    let (goes, tables, commits) = take_turn-TurnCommits s t v w.0 in
    elim (Bool-cases (settles s t v.db).0) [
      | inl over ↦
          let v' = (take_turn s t v).1 in
          let db' = (settles s t v.db).1 in
          let more : v'.commits ≡ v.commits ++ (t.message ∷ []) = commits ∙ rw over refl in
          rw (goes ∙ over) (
            rw over (
              run-settled s fs v' w.1
              ∙ ap (λ (db : Db). v'.commits ++ settled s fs db) tables
              ∙ ap (λ (c : List Message). c ++ settled s fs db') more
              ∙ append_assoc v.commits (t.message ∷ []) (settled s fs db')))
      | inr waits ↦ rw (goes ∙ waits) (rw waits (commits ∙ rw waits (sym (append-nil v.commits))))
    ]

-- Offsets are committed in the order of the messages and without a gap: where the commits go
-- through, what is committed is exactly the messages up to the first whose handling has not ended in
-- an outcome or a dead letter, in the order in which they were fetched. So a message that still waits
-- for Postgres, or that a shutdown interrupts, is not committed, nor is any message after it.
pub run_consume_loop_in_order :
    (s : Setup) (fs : List Fetch) (v : Service)
    → All Commits fs
    → ((run_consume_loop s fs v).commits ≡ v.commits ++ settled s fs v.db)
      × ((rest : List Message) × (messages fs ≡ settled s fs v.db ++ rest))
run_consume_loop_in_order s fs v w = (run-settled s fs v w, settled-messages s fs v.db)

-- A message that does not decode touches no table, is committed where the commit goes through, and
-- lands on the dead-letter topic under its own key, in a letter that holds its value verbatim and
-- reports no attempt, once or more often as the writer retries, if the letter marshals and its write
-- arrives, acknowledged or not.
pub undecodable_to_dead_letters :
    (s : Setup) (t : Turn) (v : Service) (w : Text)
    → s.attempts.unmarshal t.message.value ≡ none
    → t.dead_letter_delivery ≢ failed
    → t.commit_works ≡ true
    → s.letters.marshal (record {
      original_topic = t.message.topic;
      original_partition = t.message.partition;
      original_offset = t.message.offset;
      original_key = t.message.key;
      original_value = t.message.value;
      reason = s.text_of undecodable;
      attempt_count = 0;
      failed_at = t.failed_at;
    })
      ≡ some w
    → let v' = (take_turn s t v).1 in
      ((take_turn s t v).0 ≡ true)
      × (v'.db ≡ v.db)
      × (v'.commits ≡ v.commits ++ (t.message ∷ []))
      × ((k : ℕ) × (let letter : Record = record { key = t.message.key; value = w } in
            v'.dead_letters ≡ v.dead_letters ++ (letter ∷ copies k letter)))
unfolding take_turn decode_attempt send_to_dead_letter publish_dead_letter
undecodable_to_dead_letters s t v w bad arrives commits marshals =
    let letter : Record = record { key = t.message.key; value = w } in
    let (k, written) = tries-suc t.dead_letter_delivery arrives in
    let sent = write_message-copies t.dead_letter_delivery letter v.dead_letters in
    (
      ground arith,
      ground arith,
      ground arith,
      (k, ground (arith, sent ∙ ap (λ (n : ℕ). v.dead_letters ++ copies n letter) written)),
    )
