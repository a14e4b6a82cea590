-- ===== src/Tx.antt =====
-- The end of a transaction, as both processors write it: `tx.Commit()`, and the deferred
-- `tx.Rollback()` on every way out before it.
use flashsale_reservation.Prelude.{◌≡◌, refl, ap, ◌⊎◌, inl, inr, arith}
use flashsale_reservation.Prelude.Result.{Result, ok, err}
use flashsale_reservation.Store.{Db, DbError}
use flashsale_reservation.Store.Moves.{Move, stay}

-- How `Commit` ends: done, or with an error, either before the server applied the transaction or
-- after it, when only the answer was lost.
pub data Commit : Type 0 where
  done : Commit
  failed lost : DbError → Commit

-- `wrap` is the caller's error for a failure of the database.
unfoldable pub conclude {ε ω} :
    {E : Type ε} {O : Type ω} → (DbError → E) → Commit → Db → Result E (O × Db) → Result E O × Db
conclude wrap done db (ok (out, db')) = (ok out, db')
conclude wrap (failed e) db (ok (out, db')) = (err (wrap e), db)
conclude wrap (lost e) db (ok (out, db')) = (err (wrap e), db')
conclude wrap _ db (err e) = (err e, db)

-- Nothing changed, and the answer is the outcome `o` or an error.
abbrev pub Answers {ε ω} : {E : Type ε} {O : Type ω} → O → Db → Result E O × Db → Type (ε ⊔ ω)
Answers {E = E} o db (r, db') = (db' ≡ db) × ((r ≡ ok o) ⊎ ((e : E) × (r ≡ err e)))

module _ {ε ω} {E : Type ε} {O : Type ω} (wrap : DbError → E) where
  pub conclude-Move :
      (co : Commit) (db : Db) (t : Result E (O × Db))
      → ((res : O × Db) → t ≡ ok res → Move db res.1)
      → Move db (conclude wrap co db t).1
  unfolding conclude
  conclude-Move done db (ok (out, db')) h = h (out, db') refl
  conclude-Move (failed e) db (ok (out, db')) h = stay
  conclude-Move (lost e) db (ok (out, db')) h = h (out, db') refl
  conclude-Move done db (err e) h = stay
  conclude-Move (failed x) db (err e) h = stay
  conclude-Move (lost x) db (err e) h = stay

  pub conclude_atomic :
      (co : Commit) (db : Db) (t : Result E (O × Db)) (e : E)
      → (conclude wrap co db t).0 ≡ err e
      → ((conclude wrap co db t).1 ≡ db)
        ⊎ ((x : DbError) × (co ≡ lost x)
            × (e ≡ wrap x)
            × ((conclude wrap co db t).1 ≡ (conclude wrap done db t).1))
  unfolding conclude
  conclude_atomic done db (ok (out, db')) e h = cc
  conclude_atomic (failed x) db (ok (out, db')) e h = inl refl
  conclude_atomic (lost x) db (ok (out, db')) e h = inr (x, refl, ground arith, refl)
  conclude_atomic done db (err d) e h = inl refl
  conclude_atomic (failed x) db (err d) e h = inl refl
  conclude_atomic (lost x) db (err d) e h = inl refl

  pub conclude-ok :
      (co : Commit) (db : Db) (t : Result E (O × Db)) (out : O)
      → (conclude wrap co db t).0 ≡ ok out
      → t ≡ ok (out, (conclude wrap co db t).1)
  unfolding conclude
  conclude-ok done db (ok (o, db')) out h = ground arith
  conclude-ok (failed e) db (ok (o, db')) out h = cc
  conclude-ok (lost e) db (ok (o, db')) out h = cc
  conclude-ok done db (err e) out h = cc
  conclude-ok (failed x) db (err e) out h = cc
  conclude-ok (lost x) db (err e) out h = cc

  pub conclude-Answers :
      (o : O) (co : Commit) (db : Db) (t : Result E (O × Db))
      → ((res : O × Db) → t ≡ ok res → (res.0 ≡ o) × (res.1 ≡ db))
      → Answers o db (conclude wrap co db t)
  unfolding conclude
  conclude-Answers o done db (ok res) h = let (same, kept) = h res refl in (kept, inl (ap ok same))
  conclude-Answers o (failed e) db (ok res) h = (refl, inr (wrap e, refl))
  conclude-Answers o (lost e) db (ok res) h =
      let (same, kept) = h res refl in (kept, inr (wrap e, refl))
  conclude-Answers o done db (err e) h = (refl, inr (e, refl))
  conclude-Answers o (failed x) db (err e) h = (refl, inr (e, refl))
  conclude-Answers o (lost x) db (err e) h = (refl, inr (e, refl))
