-- ===== src/Kafka/Partitions.antt =====
-- internal/kafkax/producer.go: an item's attempts stand on one partition, in order.
use mathlib.Core.List.{append-nil}
use flashsale_reservation.Prelude.{
  zero, ℕ, suc, ◌%◌, ◌≡◌, ◌≢◌, ◌⊎◌, inl, inr, refl, sym, ap, ◌∙◌, subst, true, false, none, some,
  List, [], ◌∷◌, ◌++◌, ◌==◌, if◌then◌else◌, arith, Bool-cases, Option-cases, ==_iff,
}
use flashsale_reservation.Prelude.Text.{Text, text_eq, text_eq_iff}
use flashsale_reservation.Kafka.Copies.{copies, tries, write_message-copies}
use flashsale_reservation.Kafka.{PurchaseAttempted, Codec, Delivery, Record, publish_attempt}
use flashsale_reservation.Kafka.Writers.{Topic, new_writer, partition_log, publish_all}

-- The records under a key, and the attempts for an item.
abbrev pub under : Text → List Record → List Record
under key [] = []
under key (m ∷ log) = if text_eq m.key key then m ∷ under key log else under key log

abbrev pub attempts_for :
    Text → List (Delivery × PurchaseAttempted) → List (Delivery × PurchaseAttempted)
attempts_for item [] = []
attempts_for item ((d, e) ∷ events) =
    if text_eq e.item_id item then (d, e) ∷ attempts_for item events else attempts_for item events

under-append :
    (key : Text) (xs ys : List Record) → under key (xs ++ ys) ≡ under key xs ++ under key ys
under-append key [] ys = refl
under-append key (m ∷ xs) ys = elim (Bool-cases (text_eq m.key key)) [
  | inl same ↦ ground (arith, under-append key xs ys)
  | inr other ↦ ground (arith, under-append key xs ys)
]

same_place :
    (f : Topic) (s t : Text)
    → text_eq s t ≡ true
    → f.hash s % f.partitions ≡ f.hash t % f.partitions
same_place f s t h = ap (λ (k : Text). f.hash k % f.partitions) ((text_eq_iff s t).0 h)

module _ (f : Topic) (brokers : List Text) (key : Text) where
  under-home :
      (n : ℕ) (log : List Record)
      → under key (partition_log f (new_writer brokers) (f.hash key % f.partitions) n log)
        ≡ under key log
  unfolding partition_log new_writer
  under-home n [] = refl
  under-home n (m ∷ log) = elim (Bool-cases (text_eq m.key key)) [
    | inl same ↦ ground (arith, same_place f m.key key same, under-home (suc n) log)
    | inr other ↦ ground (arith, under-home (suc n) log)
  ]

  under-elsewhere :
      (p n : ℕ) (log : List Record)
      → p ≢ f.hash key % f.partitions
      → under key (partition_log f (new_writer brokers) p n log) ≡ []
  unfolding partition_log new_writer
  under-elsewhere p n [] h = refl
  under-elsewhere p n (m ∷ log) h = elim (Bool-cases (text_eq m.key key)) [
    | inl same ↦ ground (arith, same_place f m.key key same, under-elsewhere p (suc n) log h)
    | inr other ↦ ground (arith, under-elsewhere p (suc n) log h)
  ]

-- What one call leaves on the topic.
abbrev sent : Codec PurchaseAttempted → Delivery → PurchaseAttempted → List Record
sent codec d e = elim (codec.marshal e) [
  | none ↦ []
  | some v ↦ copies (tries d) (record { key = e.item_id; value = v })
]

publish_attempt-append :
    (codec : Codec PurchaseAttempted) (d : Delivery) (e : PurchaseAttempted) (log : List Record)
    → (publish_attempt codec d e log).1 ≡ log ++ sent codec d e
unfolding publish_attempt
publish_attempt-append codec d e log = elim (Option-cases (codec.marshal e)) [
  | inl unencoded ↦ ground (arith, append-nil log)
  | inr (v, encoded) ↦
      ground (arith, write_message-copies d (record { key = e.item_id; value = v }) log)
]

copies-under :
    (k : ℕ) (m : Record) (item : Text)
    → under item (copies k m) ≡ (if text_eq m.key item then copies k m else [])
copies-under zero m item = ground arith
copies-under (suc k) m item = ground (arith, copies-under k m item)

sent-under :
    (codec : Codec PurchaseAttempted) (d : Delivery) (e : PurchaseAttempted) (item : Text)
    → under item (sent codec d e) ≡ (if text_eq e.item_id item then sent codec d e else [])
sent-under codec d e item = elim (Option-cases (codec.marshal e)) [
  | inl unencoded ↦ ground arith
  | inr (v, encoded) ↦
      ground (arith, copies-under (tries d) (record { key = e.item_id; value = v }) item)
]

publish_attempt-under :
    (codec : Codec PurchaseAttempted) (d : Delivery) (e : PurchaseAttempted) (item : Text)
    (log : List Record)
    → under item (publish_attempt codec d e log).1 ≡ (
        if text_eq e.item_id item
        then (publish_attempt codec d e (under item log)).1
        else under item log)
publish_attempt-under codec d e item log =
    ap (under item) (publish_attempt-append codec d e log)
    ∙ (under-append item log (sent codec d e) ∙ by_test (Bool-cases (text_eq e.item_id item)))
  where
    by_test :
        ((text_eq e.item_id item ≡ true) ⊎ (text_eq e.item_id item ≡ false))
        → under item log ++ under item (sent codec d e) ≡ (
            if text_eq e.item_id item
            then (publish_attempt codec d e (under item log)).1
            else under item log)
    by_test (inl same) =
        ground (arith, sent-under codec d e item, publish_attempt-append codec d e (under item log))
    by_test (inr other) = ground (arith, sent-under codec d e item, append-nil (under item log))

publish_all-under :
    (codec : Codec PurchaseAttempted) (events : List (Delivery × PurchaseAttempted)) (item : Text)
    (log : List Record)
    → under item (publish_all codec events log)
      ≡ publish_all codec (attempts_for item events) (under item log)
unfolding publish_all
publish_all-under codec [] item log = refl
publish_all-under codec ((d, e) ∷ events) item log =
    publish_all-under codec events item (publish_attempt codec d e log).1
    ∙ by_test (Bool-cases (text_eq e.item_id item))
  where
    by_test :
        ((text_eq e.item_id item ≡ true) ⊎ (text_eq e.item_id item ≡ false))
        → publish_all codec
            (attempts_for item events)
            (under item (publish_attempt codec d e log).1)
          ≡ publish_all codec (attempts_for item ((d, e) ∷ events)) (under item log)
    by_test (inl same) = ground (arith, publish_attempt-under codec d e item log)
    by_test (inr other) = ground (arith, publish_attempt-under codec d e item log)

-- One partition, one order per item: of the records that checkout-api has published through its
-- writer, from an empty topic, those under an item are on the partition of the item's hash just as
-- publishing the item's own attempts alone would have left them on a topic, in their order, however
-- the writes of other items and the item's own ended, and no other partition has any.
pub item_has_one_partition :
    (f : Topic) (brokers : List Text) (codec : Codec PurchaseAttempted)
    (events : List (Delivery × PurchaseAttempted)) (item : Text) (p : ℕ)
    → let w = new_writer brokers in
      let topic = publish_all codec events [] in
      let home = f.hash item % f.partitions in
      under item (partition_log f w p 0 topic)
      ≡ (if p == home then publish_all codec (attempts_for item events) [] else [])
item_has_one_partition f brokers codec events item p =
    let topic = publish_all codec events [] in
    let home = f.hash item % f.partitions in
    elim (Bool-cases (p == home)) [
      | inl same ↦
          let here =
            subst
              (λ k. under item (partition_log f (new_writer brokers) k 0 topic) ≡ under item topic)
              (sym ((==_iff p home).0 same)) (under-home f brokers item 0 topic) in
          ground (arith, here, publish_all-under codec events item [])
      | inr other ↦ ground (arith, under-elsewhere f brokers item p 0 topic (ground arith))
    ]
