-- ===== src/Redis/Risk.antt =====
-- internal/redisx/risk.go: the cache of risk scores, over Go's float64 and its texts.
use flashsale_reservation.Prelude.{
  ◌≡◌, ◌≢◌, sym, false, Option, none, some, arith, if◌then◌else◌, Bool-cases, inl, inr,
}
use flashsale_reservation.Prelude.Int.{ℤ, pos, ◌+ℤ◌, ◌<ℤ◌, leb_ℤ, ltb_ℤ}
use flashsale_reservation.Prelude.Text.{Text, text_eq, text_eq_self, text_eq_iff}
use flashsale_reservation.Prelude.Result.{Result, ok, err}
use flashsale_reservation.Redis.{
  Redis, unreachable, Link, up, cut, lost, again, Entry, integer, decimal, text, read, write, via,
  wrap, Error, bad_ttl, redis, set_token, risk_score_key, inventory_key, admission_key,
}
use flashsale_reservation.Redis.Keys.{key_kinds_apart}

-- `strconv` on float64: the shortest decimal text, the reading of a text, and of the text of an
-- integer that Redis holds as a number.
pub record Floats {ℓ} (F : Type ℓ) : Type ℓ where
  pub format : F → Text
  pub parse : Text → Option F
  pub parse_integer : ℤ → Option F

-- A bad time to live, an error of Redis, or a text that is no number.
pub data RiskError : Type 0 where
  score_unavailable : Error → RiskError
  score_unreadable : RiskError

-- SET with a time to live: the same command as for a token, with the score as its value.
unfoldable pub set_risk_score {ℓ} :
    {F : Type ℓ}
    → Floats F
    → Link
    → ℤ
    → Text
    → Text
    → F
    → ℤ
    → Redis
    → Result Error (Unit {0}) × Redis
set_risk_score floats link now item user score ttl r =
    if leb_ℤ ttl (pos 0)
    then (err bad_ttl, r)
    else wrap (via link (set_token now (risk_score_key item user) (floats.format score) ttl) r)

abbrev pub parsed {ℓ} : {F : Type ℓ} → Option F → Result RiskError (Option F)
parsed none = err score_unreadable
parsed (some x) = ok (some x)

-- `ok none` is not found.
abbrev pub score_of {ℓ} : {F : Type ℓ} → Floats F → Option Entry → Result RiskError (Option F)
score_of floats none = ok none
score_of floats (some e) = elim e.value [
  | text t ↦ parsed (floats.parse t)
  | decimal z t ↦ parsed (floats.parse t)
  | integer n ↦ parsed (floats.parse_integer n)
]

unfoldable pub get_risk_score {ℓ} :
    {F : Type ℓ} → Floats F → Link → ℤ → Text → Text → Redis → Result RiskError (Option F)
get_risk_score floats up now item user r = score_of floats (read now (risk_score_key item user) r)
get_risk_score floats cut now item user r = err (score_unavailable (redis unreachable))
get_risk_score floats lost now item user r = err (score_unavailable (redis unreachable))
get_risk_score floats (again link) now item user r = get_risk_score floats link now item user r

apart : (k l : Text) → l ≢ k → text_eq k l ≡ false
apart k l h = elim (Bool-cases (text_eq k l)) [
  | inl same ↦ absurd (h (sym ((text_eq_iff k l).0 same)))
  | inr e ↦ e
]

-- With commands that are answered and a positive time to live, a score whose text reads back is read
-- as it was written until its time to live is over, and from then on it is unknown, not an error; no
-- counter and no token is touched.
pub set_then_get_risk_score {ℓ} :
    {F : Type ℓ} (floats : Floats F) (now later : ℤ) (item user i j u : Text) (score : F) (ttl : ℤ)
    (r : Redis)
    → pos 0 <ℤ ttl
    → floats.parse (floats.format score) ≡ some score
    → let r' = (set_risk_score floats up now item user score ttl r).1 in
      (get_risk_score floats up later item user r'
        ≡ ok (if ltb_ℤ later (now +ℤ ttl) then some score else none))
      × (r' (inventory_key i) ≡ r (inventory_key i))
      × (r' (admission_key j u) ≡ r (admission_key j u))
unfolding set_risk_score get_risk_score read write
set_then_get_risk_score floats now later item user i j u score ttl r h faithful =
    let counters =
      apart (risk_score_key item user) (inventory_key i) (key_kinds_apart i item user user).4 in
    let tokens =
      apart (risk_score_key item user) (admission_key j u) (key_kinds_apart j item u user).2 in
    (
      elim (Bool-cases (ltb_ℤ later (now +ℤ ttl))) [
        | inl fresh ↦ ground (arith, text_eq_self (risk_score_key item user))
        | inr stale ↦ ground (arith, text_eq_self (risk_score_key item user))
      ],
      ground arith,
      ground arith,
    )
