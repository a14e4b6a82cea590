-- ===== src/Redis/Tokens.antt =====
-- internal/redisx/tokens.go: a token admits once, and only before it expires.
use flashsale_reservation.Prelude.{
  ◌≡◌, ◌≢◌, ◌⊎◌, inl, inr, true, false, none, some, arith, if◌then◌else◌, Bool-cases, Option-cases,
}
use flashsale_reservation.Prelude.Int.{ℤ, pos, ◌+ℤ◌, ◌<ℤ◌, ltb_ℤ}
use flashsale_reservation.Prelude.Text.{Text, text_eq_self}
use flashsale_reservation.Prelude.Result.{ok}
use flashsale_reservation.Redis.{
  text, Entry, Redis, Link, up, cut, lost, again, get_del, read, write,
}
use flashsale_reservation.Redis.{consume_admission, grant_admission, admission_key}

-- A token of the user for the item is there and has not expired.
abbrev pub Admitted : ℤ → Text → Text → Redis → Type 0
Admitted now item user r = (e : Entry) × (read now (admission_key item user) r ≡ some e)

-- A grant is there until its time to live has passed, and not from then on.
pub grant_admission-read :
    (now later : ℤ) (stamp item user : Text) (ttl : ℤ) (r : Redis)
    → pos 0 <ℤ ttl
    → read later (admission_key item user) (grant_admission up now stamp item user ttl r).1 ≡ (
        if ltb_ℤ later (now +ℤ ttl)
        then some (record { value = text stamp; expires_at = some (now +ℤ ttl) })
        else none)
unfolding grant_admission read write
grant_admission-read now later stamp item user ttl r h =
    ground (arith, text_eq_self (admission_key item user))

-- `ConsumeAdmission` finds a token exactly when one is there, and leaves none behind.
consume_exact :
    (now : ℤ) (item user : Text) (r : Redis)
    → let (res, r') = consume_admission up now item user r in
      (((e : Entry) × (read now (admission_key item user) r ≡ some e)
          × (res ≡ ok true)
          × (r' (admission_key item user) ≡ none))
        ⊎ ((read now (admission_key item user) r ≡ none) × (res ≡ ok false) × (r' ≡ r)))
unfolding consume_admission write
consume_exact now item user r = elim (Option-cases (read now (admission_key item user) r)) [
  | inl missing ↦ inr (missing, ground arith, ground arith)
  | inr (e, f) ↦ inl (e, f, ground arith, ground (arith, text_eq_self (admission_key item user)))
]

read-none : (now : ℤ) (key : Text) (r : Redis) → r key ≡ none → read now key r ≡ none
unfolding read
read-none now key r h = ground arith

get_del-none :
    (now : ℤ) (item user : Text) (r : Redis)
    → read now (admission_key item user) r ≡ none
    → (get_del now (admission_key item user) r).1 ≡ r
get_del-none now item user r h = ground arith

consume-none :
    (link : Link) (now : ℤ) (item user : Text) (r : Redis)
    → read now (admission_key item user) r ≡ none
    → (consume_admission link now item user r).0 ≢ ok true
unfolding consume_admission
consume-none up now item user r h e = ground arith
consume-none cut now item user r h e = cc
consume-none lost now item user r h e = cc
consume-none (again link) now item user r h e =
    consume-none link now item user r h (rw (get_del-none now item user r h) at e)

consume-gone :
    (link : Link) (now : ℤ) (item user : Text) (r : Redis)
    → (consume_admission link now item user r).0 ≡ ok true
    → (consume_admission link now item user r).1 (admission_key item user) ≡ none
unfolding read consume_admission
consume-gone up now item user r h = elim (consume_exact now item user r) [
  | inl (e, f, res, gone) ↦ gone
  | inr (missing, res, same) ↦ absurd (ground arith)
]
consume-gone cut now item user r h = unfold consume_admission in cc
consume-gone lost now item user r h = unfold consume_admission in cc
consume-gone (again link) now item user r h =
    consume-gone link now item user (get_del now (admission_key item user) r).1 h

-- A token is used once: after a call that found it, no call finds one at any time, as long as none
-- is granted again.
pub consume_admission_once :
    (link link' : Link) (now later : ℤ) (item user : Text) (r : Redis)
    → (consume_admission link now item user r).0 ≡ ok true
    → (consume_admission link' later item user (consume_admission link now item user r).1).0
      ≢ ok true
consume_admission_once link link' now later item user r h =
    let r' = (consume_admission link now item user r).1 in
    consume-none link' later item user r'
      (read-none later (admission_key item user) r' (consume-gone link now item user r h))

-- A granted token lets exactly one checkout through: the first consumer before it expires finds it,
-- a consumer at or after that time does not.
pub grant_then_consume :
    (now later : ℤ) (stamp item user : Text) (ttl : ℤ) (r : Redis)
    → pos 0 <ℤ ttl
    → (consume_admission up later item user (grant_admission up now stamp item user ttl r).1).0
      ≡ ok (ltb_ℤ later (now +ℤ ttl))
unfolding consume_admission
grant_then_consume now later stamp item user ttl r h =
    elim (Bool-cases (ltb_ℤ later (now +ℤ ttl))) [
      | inl fresh ↦ ground (arith, grant_admission-read now later stamp item user ttl r h)
      | inr stale ↦ ground (arith, grant_admission-read now later stamp item user ttl r h)
    ]
