-- ===== src/Jobs/Rows.antt =====
-- The rows of `jobs` by their primary key: at most one row for each user and key.
use career_spyder.Prelude.{
  String, ◌==◌, ◌≡◌, refl, ◌∙◌, Bool, true, false, ◌&&◌, Option, none, some, List, [], ◌∷◌, ◌++◌,
  map, any, filter, find, elem, Bool-cases, arith, eq_iff, inl, inr, any-append,
}
use career_spyder.Database.{JobRow, owned}
use career_spyder.Table.{update_where, insert_unless}

-- No two rows have the same user and key.
abbrev pub IsKeyed : List JobRow → Type 0
IsKeyed [] = Unit
IsKeyed (r ∷ rs) = (any (owned r.user_id r.key) rs ≡ false) × IsKeyed rs

-- `c` of the row that a key selects.
abbrev pub holds_of : (JobRow → Bool) → Option JobRow → Bool
holds_of c none = false
holds_of c (some r) = c r

any-owned-false :
    (u k : String) (c : JobRow → Bool) (rs : List JobRow)
    → any (owned u k) rs ≡ false
    → any (λ r. owned u k r && c r) rs ≡ false
any-owned-false u k c [] h = refl
any-owned-false u k c (r ∷ rs) h = ground (arith, any-owned-false u k c rs)

-- With the primary key, a test on the rows of a user and key is a test on the row found.
pub any-owned :
    (u k : String) (c : JobRow → Bool) (rs : List JobRow)
    → IsKeyed rs
    → any (λ r. owned u k r && c r) rs ≡ holds_of c (find (owned u k) rs)
any-owned u k c [] h = refl
any-owned u k c (r ∷ rs) h = elim (Bool-cases (owned u k r)) [
  | inl e ↦ rw e (
      let same_user : r.user_id ≡ u = (eq_iff r.user_id u).0 (ground arith) in
      let same_key : r.key ≡ k = (eq_iff r.key k).0 (ground arith) in
      let rest : any (λ r. owned u k r && c r) rs ≡ false =
        any-owned-false u k c rs (rw (← same_user, ← same_key) h.0) in
      ground (arith, rest))
  | inr e ↦ rw e (any-owned u k c rs h.1)
]

-- A selected key is the key of a selected row.
pub elem-map-filter :
    (u k : String) (c : JobRow → Bool) (rs : List JobRow)
    → elem k (map (λ (r : JobRow). r.key) (filter (λ r. r.user_id == u && c r) rs))
      ≡ any (λ r. owned u k r && c r) rs
elem-map-filter u k c [] = refl
elem-map-filter u k c (r ∷ rs) = ground (arith, elem-map-filter u k c rs)

any-owned-update_where :
    (u k : String) (p : JobRow → Bool) (f : JobRow → JobRow) (rs : List JobRow)
    → ((r : JobRow) → (f r).user_id ≡ r.user_id)
    → ((r : JobRow) → (f r).key ≡ r.key)
    → any (owned u k) (update_where p f rs) ≡ any (owned u k) rs
unfolding update_where
any-owned-update_where u k p f [] hu hk = refl
any-owned-update_where u k p f (r ∷ rs) hu hk =
    ground (arith, hu r, hk r, any-owned-update_where u k p f rs hu hk)

pub update_where-IsKeyed :
    (p : JobRow → Bool) (f : JobRow → JobRow) (rs : List JobRow)
    → ((r : JobRow) → (f r).user_id ≡ r.user_id)
    → ((r : JobRow) → (f r).key ≡ r.key)
    → IsKeyed rs
    → IsKeyed (update_where p f rs)
unfolding update_where
update_where-IsKeyed p f [] hu hk h = tt
update_where-IsKeyed p f (r ∷ rs) hu hk h = elim (Bool-cases (p r)) [
  | inl e ↦ rw e (
    rw (hu r, hk r) (any-owned-update_where r.user_id r.key p f rs hu hk ∙ h.0),
    update_where-IsKeyed p f rs hu hk h.1,
  )
  | inr e ↦ rw e (
    any-owned-update_where r.user_id r.key p f rs hu hk ∙ h.0,
    update_where-IsKeyed p f rs hu hk h.1,
  )
]

owned-ne :
    (u k : String) (r s : JobRow)
    → owned u k s ≡ false
    → owned u k r ≡ true
    → owned r.user_id r.key s ≡ false
owned-ne u k r s h e = ground (arith, eq_iff r.user_id u, eq_iff r.key k)

append-IsKeyed :
    (rs : List JobRow) (s : JobRow)
    → any (owned s.user_id s.key) rs ≡ false
    → IsKeyed rs
    → IsKeyed (rs ++ s ∷ [])
append-IsKeyed [] s h k = (refl, tt)
append-IsKeyed (r ∷ rs) s h k = (
  any-append (owned r.user_id r.key) rs (s ∷ [])
      ∙ ground (
        arith,
        k.0,
        eq_iff r.user_id s.user_id,
        eq_iff r.key s.key,
        eq_iff s.user_id r.user_id,
        eq_iff s.key r.key,
      ),
  append-IsKeyed rs s (ground arith) k.1,
)

pub insert_unless-IsKeyed :
    (s : JobRow) (rs : List JobRow)
    → IsKeyed rs
    → IsKeyed (insert_unless (owned s.user_id s.key) s rs)
unfolding insert_unless
insert_unless-IsKeyed s rs h = elim (Bool-cases (any (owned s.user_id s.key) rs)) [
  | inl e ↦ rw e h
  | inr e ↦ rw e (append-IsKeyed rs s e h)
]

any-filter-false :
    (q p : JobRow → Bool) (rs : List JobRow) → any q rs ≡ false → any q (filter p rs) ≡ false
any-filter-false q p [] h = refl
any-filter-false q p (r ∷ rs) h = ground (arith, any-filter-false q p rs)

pub filter-IsKeyed : (p : JobRow → Bool) (rs : List JobRow) → IsKeyed rs → IsKeyed (filter p rs)
filter-IsKeyed p [] h = tt
filter-IsKeyed p (r ∷ rs) h = elim (Bool-cases (p r)) [
  | inl e ↦ rw e (any-filter-false (owned r.user_id r.key) p rs h.0, filter-IsKeyed p rs h.1)
  | inr e ↦ rw e (filter-IsKeyed p rs h.1)
]
