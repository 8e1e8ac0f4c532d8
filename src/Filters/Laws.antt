-- ===== src/Filters/Laws.antt =====
-- Which jobs pass the keyword filters.
use career_spyder.Prelude.{
  String, ◌≡◌, refl, ap, sym, Bool, true, false, not, ◌&&◌, ◌||◌, List, [], ◌∷◌, ◌++◌, map, any,
  filter, arith, filter-append,
}
use career_spyder.Models.{Job}
use career_spyder.Filters.{fields, mentions, keep_included, drop_excluded, apply_keyword_filters}
use career_spyder.Text.{contains}

abbrev pub is_nil {ℓ} : {A : Type ℓ} → List A → Bool
is_nil [] = true
is_nil (x ∷ xs) = false

-- Some keyword of the list, in lower case, occurs in the job's fields.
abbrev pub hits : (String → String) → List String → Job → Bool
hits lower keywords j = any (λ k. contains (fields lower j) (lower k)) keywords

abbrev pub passes : (String → String) → List String → List String → Job → Bool
passes lower include exclude j =
    (is_nil include || hits lower include j) && not (hits lower exclude j)

any-map {ℓ κ} :
    {A : Type ℓ} {B : Type κ} (p : B → Bool) (f : A → B) (xs : List A)
    → any p (map f xs) ≡ any (λ x. p (f x)) xs
any-map p f [] = refl
any-map p f (x ∷ xs) = ap (λ b. p (f x) || b) (any-map p f xs)

filter-and {ℓ} :
    {A : Type ℓ} (p q : A → Bool) (xs : List A)
    → filter q (filter p xs) ≡ filter (λ x. p x && q x) xs
filter-and p q [] = refl
filter-and p q (x ∷ xs) = ground (arith, filter-and p q xs)

filter_congr {ℓ} :
    {A : Type ℓ} (p q : A → Bool) (xs : List A) → ((x : A) → p x ≡ q x) → filter p xs ≡ filter q xs
filter_congr p q [] h = refl
filter_congr p q (x ∷ xs) h = ground (arith, h x, filter_congr p q xs h)

filter-true {ℓ} : {A : Type ℓ} (xs : List A) → filter (λ x. true) xs ≡ xs
filter-true [] = refl
filter-true (x ∷ xs) = ap (λ t. x ∷ t) (filter-true xs)

keep_included-eq-filter :
    (lower : String → String) (include : List String) (jobs : List Job)
    → keep_included lower include jobs ≡ filter (λ j. is_nil include || hits lower include j) jobs
unfolding keep_included mentions
keep_included-eq-filter lower [] jobs = sym (filter-true jobs)
keep_included-eq-filter lower (k ∷ ks) jobs =
    filter_congr _ _ jobs (λ j. any-map (contains (fields lower j)) lower (k ∷ ks))

drop_excluded-eq-filter :
    (lower : String → String) (exclude : List String) (jobs : List Job)
    → drop_excluded lower exclude jobs ≡ filter (λ j. not (hits lower exclude j)) jobs
unfolding drop_excluded mentions
drop_excluded-eq-filter lower [] jobs = sym (filter-true jobs)
drop_excluded-eq-filter lower (k ∷ ks) jobs =
    filter_congr _ _ jobs (λ j. ap not (any-map (contains (fields lower j)) lower (k ∷ ks)))

-- The jobs kept, in their order, are those that mention an include keyword, where there are any,
-- and no exclude keyword.
pub apply_keyword_filters-eq-filter :
    (lower : String → String) (jobs : List Job) (include exclude : List String)
    → apply_keyword_filters lower jobs include exclude ≡ filter (passes lower include exclude) jobs
unfolding apply_keyword_filters
apply_keyword_filters-eq-filter lower jobs include exclude =
    rw (drop_excluded-eq-filter, keep_included-eq-filter) (filter-and _ _ jobs)

-- Keywords never make a kept job reappear or vanish when jobs of two pages are joined.
pub apply_keyword_filters-append :
    (lower : String → String) (xs ys : List Job) (include exclude : List String)
    → apply_keyword_filters lower (xs ++ ys) include exclude
      ≡ apply_keyword_filters lower xs include exclude
        ++ apply_keyword_filters lower ys include exclude
apply_keyword_filters-append lower xs ys include exclude =
    simp (apply_keyword_filters-eq-filter, filter-append)
