-- ===== src/Table.antt =====
-- SQL statements on one table, a list of its rows: `UPDATE ... WHERE`, `DELETE ... WHERE`,
-- `INSERT ... ON CONFLICT DO NOTHING`, `cur.rowcount`. `filter` and `find` of the prelude are the
-- two forms of `SELECT ... WHERE`.
pub mod Laws
use career_spyder.Prelude.{
  ℕ, zero, suc, ◌+◌, Bool, true, false, not, List, [], ◌∷◌, ◌++◌, any, filter, if◌then◌else◌,
}

module _ {ℓ} {R : Type ℓ} where
  unfoldable pub update_where : (R → Bool) → (R → R) → List R → List R
  update_where p f [] = []
  update_where p f (r ∷ rs) = (if p r then f r else r) ∷ update_where p f rs

  unfoldable pub delete_where : (R → Bool) → List R → List R
  delete_where p rs = filter (λ r. not (p r)) rs

  -- `cur.rowcount` of an `UPDATE` or `DELETE`, and `SELECT COUNT(*)`.
  unfoldable pub count_where : (R → Bool) → List R → ℕ
  count_where p [] = 0
  count_where p (r ∷ rs) = (if p r then 1 else 0) + count_where p rs

  -- A new row goes to the end, unless a row that conflicts with it stands in the table.
  unfoldable pub insert_unless : (R → Bool) → R → List R → List R
  insert_unless conflict r rs = if any conflict rs then rs else rs ++ r ∷ []
