-- ===== src/Table/Laws.antt =====
-- What the statements do to the row that a key selects.
use career_spyder.Prelude.{
  suc, ◌+◌, ◌++◌, ◌≡◌, refl, ap, Bool, true, false, none, List, [], ◌∷◌, any, filter, find, length,
  if◌then◌else◌, Bool-cases, map_option, is_none, is_some, arith, inl, inr, find-append,
}
use career_spyder.Table.{update_where, delete_where, count_where, insert_unless}

module _ {ℓ} {R : Type ℓ} where
  -- The row that `q` selects after an update that leaves the columns of `q` alone.
  pub find-update_where :
      (q p : R → Bool) (f : R → R) (rs : List R)
      → ((r : R) → q (f r) ≡ q r)
      → find q (update_where p f rs) ≡ map_option (λ r. if p r then f r else r) (find q rs)
  unfolding update_where
  find-update_where q p f [] h = refl
  find-update_where q p f (r ∷ rs) h = ground (arith, h r, find-update_where q p f rs h)

  pub length-update_where :
      (p : R → Bool) (f : R → R) (rs : List R) → length (update_where p f rs) ≡ length rs
  unfolding update_where
  length-update_where p f [] = refl
  length-update_where p f (r ∷ rs) = ap suc (length-update_where p f rs)

  pub update_where-eq_of_none :
      (p : R → Bool) (f : R → R) (rs : List R) → count_where p rs ≡ 0 → update_where p f rs ≡ rs
  unfolding update_where count_where
  update_where-eq_of_none p f [] h = refl
  update_where-eq_of_none p f (r ∷ rs) h = elim (Bool-cases (p r)) [
    | inl e ↦ ground arith
    | inr e ↦ rw e (ap (λ t. r ∷ t) (update_where-eq_of_none p f rs (ground arith)))
  ]

  pub find-insert_unless :
      (q conflict : R → Bool) (r : R) (rs : List R)
      → find q (insert_unless conflict r rs) ≡ (
          if any conflict rs
          then find q rs
          else if is_none (find q rs)
          then find q (r ∷ [])
          else find q rs)
  unfolding insert_unless
  find-insert_unless q conflict r rs = elim (Bool-cases (any conflict rs)) [
    | inl e ↦ rw e
    | inr e ↦ rw e (find-append q rs (r ∷ []))
  ]

  pub any-eq-is_some-find : (p : R → Bool) (rs : List R) → any p rs ≡ is_some (find p rs)
  any-eq-is_some-find p [] = refl
  any-eq-is_some-find p (r ∷ rs) = ground (arith, any-eq-is_some-find p rs)

  pub find-delete_where :
      (q p : R → Bool) (rs : List R)
      → ((r : R) → q r ≡ true → p r ≡ true)
      → find q (delete_where p rs) ≡ none
  unfolding delete_where
  find-delete_where q p [] h = refl
  find-delete_where q p (r ∷ rs) h = ground (arith, h r, find-delete_where q p rs h)

  pub find-delete_where_ne :
      (q p : R → Bool) (rs : List R)
      → ((r : R) → q r ≡ true → p r ≡ false)
      → find q (delete_where p rs) ≡ find q rs
  unfolding delete_where
  find-delete_where_ne q p [] h = refl
  find-delete_where_ne q p (r ∷ rs) h = ground (arith, h r, find-delete_where_ne q p rs h)

  pub count_where-eq-length-filter :
      (p : R → Bool) (rs : List R) → count_where p rs ≡ length (filter p rs)
  unfolding count_where
  count_where-eq-length-filter p [] = refl
  count_where-eq-length-filter p (r ∷ rs) = ground (arith, count_where-eq-length-filter p rs)

  -- No row is selected exactly when the count is 0.
  pub count_where-eq-zero : (p : R → Bool) (rs : List R) → find p rs ≡ none → count_where p rs ≡ 0
  unfolding count_where
  count_where-eq-zero p [] h = refl
  count_where-eq-zero p (r ∷ rs) h = ground (arith, count_where-eq-zero p rs)

  -- An update that leaves the columns of `q` alone in the rows it changes leaves the count alone.
  pub count-update_where :
      (q p : R → Bool) (f : R → R) (rs : List R)
      → ((r : R) → p r ≡ true → q (f r) ≡ q r)
      → count_where q (update_where p f rs) ≡ count_where q rs
  unfolding count_where update_where
  count-update_where q p f [] h = refl
  count-update_where q p f (r ∷ rs) h = ground (arith, h r, count-update_where q p f rs h)

  pub count-append_one :
      (q : R → Bool) (rs : List R) (r : R)
      → count_where q (rs ++ r ∷ []) ≡ count_where q rs + (if q r then 1 else 0)
  unfolding count_where
  count-append_one q [] r = ground arith
  count-append_one q (x ∷ rs) r = ground (arith, count-append_one q rs r)
