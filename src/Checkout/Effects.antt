-- ===== src/Checkout/Effects.antt =====
-- What a checkout does to the fast-path counter of its item.
use flashsale_reservation.Prelude.{
  ℕ, ◌+◌, ◌^◌, ◌<◌, ◌≡◌, ◌⊎◌, inl, inr, refl, Bool, true, false, arith, Bool-cases, Option-cases,
}
use flashsale_reservation.Prelude.Int.{ℤ, pos, leb_ℤ, ◌+ℤ◌}
use flashsale_reservation.Prelude.Text.{Text, text_eq, text_eq_self, text_eq_iff}
use flashsale_reservation.Redis.{
  Redis, Link, up, cut, lost, again, set_token, inventory_key, admission_key, incr_by, read, write,
  grant_admission, consume_admission, release_inventory, get_del,
}
use flashsale_reservation.Checkout.{on_context}
use flashsale_reservation.Redis.Keys.{key_kinds_apart}
use flashsale_reservation.Redis.FastPath.{Counts}

pub kinds_test : (i u j : Text) → text_eq (admission_key i u) (inventory_key j) ≡ false
kinds_test i u j = elim (Bool-cases (text_eq (admission_key i u) (inventory_key j))) [
  | inl same ↦ absurd ((key_kinds_apart i j u u).0 ((text_eq_iff _ _).0 same))
  | inr apart ↦ apart
]

set-Counts :
    (now : ℤ) (stamp item i user : Text) (ttl : ℤ) (n : ℕ) (r : Redis)
    → Counts item n r
    → Counts item n (set_token now (admission_key i user) stamp ttl r).1
unfolding write
set-Counts now stamp item i user ttl n r h = ground (arith, kinds_test i user item)

pub grant-Counts :
    (link : Link) (now : ℤ) (stamp item i user : Text) (ttl : ℤ) (n : ℕ) (r : Redis)
    → Counts item n r
    → Counts item n (grant_admission link now stamp i user ttl r).1
unfolding grant_admission write
grant-Counts up now stamp item i user ttl n r h = ground (arith, kinds_test i user item)
grant-Counts cut now stamp item i user ttl n r h = ground arith
grant-Counts lost now stamp item i user ttl n r h = ground (arith, kinds_test i user item)
grant-Counts (again link) now stamp item i user ttl n r h = elim (Bool-cases (leb_ℤ ttl (pos 0))) [
  | inl bad ↦ rw bad h
  | inr good ↦
      let r' = (set_token now (admission_key i user) stamp ttl r).1 in
      rw good (
        rw good at (
          grant-Counts link now stamp item i user ttl n r'
            (set-Counts now stamp item i user ttl n r h)))
]

del-Counts :
    (now : ℤ) (item i user : Text) (n : ℕ) (r : Redis)
    → Counts item n r
    → Counts item n (get_del now (admission_key i user) r).1
unfolding write
del-Counts now item i user n r h = elim (Option-cases (read now (admission_key i user) r)) [
  | inl missing ↦ ground arith
  | inr (e, f) ↦ ground (arith, kinds_test i user item)
]

pub consume-Counts :
    (link : Link) (now : ℤ) (item i user : Text) (n : ℕ) (r : Redis)
    → Counts item n r
    → Counts item n (consume_admission link now i user r).1
unfolding consume_admission
consume-Counts up now item i user n r h = ground (arith, del-Counts now item i user n r h)
consume-Counts cut now item i user n r h = h
consume-Counts lost now item i user n r h = del-Counts now item i user n r h
consume-Counts (again link) now item i user n r h =
    consume-Counts link now item i user n (get_del now (admission_key i user) r).1
      (del-Counts now item i user n r h)

plus : (m q : ℕ) → pos m +ℤ pos q ≡ pos (m + q)
unfolding ◌+ℤ◌
plus m q = ground arith

incr-Counts :
    (now : ℤ) (item : Text) (m q : ℕ) (r : Redis)
    → Counts item m r
    → m + q < 2 ^ 53
    → Counts item (m + q) (incr_by now (inventory_key item) (pos q) r).1
unfolding incr_by read write
incr-Counts now item m q r h range = ground (arith, plus m q, text_eq_self (inventory_key item))

-- The server runs the command at most once.
abbrev pub IsSentOnce : Link → Type 0
IsSentOnce up = Unit {0}
IsSentOnce cut = Unit {0}
IsSentOnce lost = Unit {0}
IsSentOnce (again link) = ⊥

-- A release that is not sent again gives the quantity back or nothing.
pub release-Counts :
    (link : Link) (now : ℤ) (item : Text) (m q : ℕ) (r : Redis)
    → Counts item m r
    → 0 < q
    → m + q < 2 ^ 53
    → IsSentOnce link
    → Counts item (m + q) (release_inventory link now item (pos q) r).1
      ⊎ (Counts item m (release_inventory link now item (pos q) r).1 × (link ≡ cut))
unfolding release_inventory
release-Counts up now item m q r h p range once =
    inl (ground (arith, incr-Counts now item m q r h (omega (arith, range))))
release-Counts cut now item m q r h p range once = inr (ground arith, refl)
release-Counts lost now item m q r h p range once =
    inl (ground (arith, incr-Counts now item m q r h (omega (arith, range))))
release-Counts (again link) now item m q r h p range once = absurd once

pub on_context-IsSentOnce :
    (ended : Bool) (link : Link) → IsSentOnce link → IsSentOnce (on_context ended link)
on_context-IsSentOnce true link once = tt
on_context-IsSentOnce false link once = once
