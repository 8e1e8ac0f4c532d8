-- ===== src/Digest/Laws.antt =====
-- What a digest shows.
use career_spyder.Prelude.{
  nonempty, none, some, Option-cases, not, length-take, zero, suc, ◌&&◌, ◌<◌, true, leb, ltb, drop,
  ap, eq_iff, ◌+◌, length, take, filter, Bool-cases, ◌++◌, inl, inr, sym, ℕ, ◌≡◌, refl, ◌∙◌, arith,
  String, ◌==◌, Bool, false, ◌||◌, List, [], ◌∷◌, nat_eq, if◌then◌else◌,
}
use career_spyder.Html.{escape, escape_char}
use career_spyder.Digest.{company_of, group, add_to_company, shown}
use Prim.Native.Char.{Char, code}
use Prim.Native.String
use Prim.Native.String.append
use mathlib.Core.List.{append-nil, append_assoc}
use career_spyder.Models.{Job}

-- No character of the text opens or closes a tag or a quoted attribute.
abbrev pub is_markup : ℕ → Bool
is_markup c = nat_eq c b'<' || nat_eq c b'>' || nat_eq c 34 || nat_eq c 39

abbrev pub has_markup : String → Bool
has_markup String.[] = false
has_markup (String.◌∷◌ c s) = is_markup (code c) || has_markup s

has_markup-append : (s t : String) → has_markup (String.◌++◌ s t) ≡ has_markup s || has_markup t
has_markup-append String.[] t = ap has_markup (append.nil t)
has_markup-append (String.◌∷◌ c s) t =
    ap has_markup (append.cons c s t) ∙ ground (arith, has_markup-append s t)

has_markup-escape_char : (c : Char) → has_markup (escape_char c) ≡ false
unfolding escape_char
has_markup-escape_char c = elim (Bool-cases (nat_eq (code c) b'&')) [
  | inl e ↦ rw e refl
  | inr e ↦ rw e (elim (Bool-cases (nat_eq (code c) b'<')) [
    | inl f ↦ rw f refl
    | inr f ↦ rw f (elim (Bool-cases (nat_eq (code c) b'>')) [
      | inl g ↦ rw g refl
      | inr g ↦ rw g (elim (Bool-cases (nat_eq (code c) 34)) [
        | inl h ↦ rw h refl
        | inr h ↦ rw h (elim (Bool-cases (nat_eq (code c) 39)) [
          | inl i ↦ rw i refl
          | inr i ↦ rw i (rw (f, g, h, i) refl)
        ])
      ])
    ])
  ])
]

-- Whatever text is escaped, nothing of it can open or close a tag or an attribute.
pub has_markup-escape : (s : String) → has_markup (escape s) ≡ false
unfolding escape
has_markup-escape String.[] = refl
has_markup-escape (String.◌∷◌ c s) =
    has_markup-append (escape_char c) (escape s)
    ∙ rw (has_markup-escape_char c, has_markup-escape s)

-- The jobs that a company's group holds.
abbrev pub jobs_in : String → List (String × List Job) → List Job
jobs_in company [] = []
jobs_in company ((c, jobs) ∷ rest) = if c == company then jobs else jobs_in company rest

jobs_in-add_to_company :
    (c company : String) (job : Job) (groups : List (String × List Job))
    → jobs_in c (add_to_company company job groups)
      ≡ jobs_in c groups ++ (if company == c then job ∷ [] else [])
unfolding add_to_company
jobs_in-add_to_company c company job [] = ground arith
jobs_in-add_to_company c company job ((d, jobs) ∷ groups) = ground (
  arith,
  jobs_in-add_to_company c company job groups,
  eq_iff d company,
  eq_iff d c,
  eq_iff company c,
  append-nil jobs,
  append-nil (jobs_in c groups),
)

jobs_in-group_from :
    (c : String) (groups : List (String × List Job)) (jobs : List Job)
    → jobs_in c (group groups jobs)
      ≡ jobs_in c groups ++ filter (λ (j : Job). company_of j == c) jobs
unfolding group
jobs_in-group_from c groups [] = sym (append-nil _)
jobs_in-group_from c groups (j ∷ jobs) =
    jobs_in-group_from c (add_to_company (company_of j) j groups) jobs
    ∙ rw (jobs_in-add_to_company c (company_of j) j groups) (elim (Bool-cases (company_of j == c)) [
      | inl e ↦ rw (e, append_assoc) refl
      | inr e ↦ rw (e, append-nil) refl
    ])

-- Whether a section has the name.
abbrev has_section : String → List (String × List Job) → Bool
has_section c [] = false
has_section c ((d, jobs) ∷ rest) = d == c || has_section c rest

-- No two sections have the same name.
abbrev pub has_distinct_names : List (String × List Job) → Bool
has_distinct_names [] = true
has_distinct_names ((c, jobs) ∷ rest) = not (has_section c rest) && has_distinct_names rest

has_section-add_to_company :
    (c company : String) (job : Job) (groups : List (String × List Job))
    → has_section c (add_to_company company job groups) ≡ has_section c groups || company == c
unfolding add_to_company
has_section-add_to_company c company job [] = ground arith
has_section-add_to_company c company job ((d, jobs) ∷ groups) =
    ground (arith, has_section-add_to_company c company job groups, eq_iff d company)

has_distinct_names-add_to_company :
    (company : String) (job : Job) (groups : List (String × List Job))
    → has_distinct_names groups ≡ true
    → has_distinct_names (add_to_company company job groups) ≡ true
unfolding add_to_company
has_distinct_names-add_to_company company job [] h = refl
has_distinct_names-add_to_company company job ((d, jobs) ∷ groups) h = ground (
  arith,
  h,
  has_distinct_names-add_to_company company job groups,
  has_section-add_to_company d company job groups,
  eq_iff d company,
  eq_iff company d,
)

has_distinct_names-group :
    (jobs : List Job) (groups : List (String × List Job))
    → has_distinct_names groups ≡ true
    → has_distinct_names (group groups jobs) ≡ true
unfolding group
has_distinct_names-group [] groups h = h
has_distinct_names-group (j ∷ jobs) groups h =
    has_distinct_names-group jobs _ (has_distinct_names-add_to_company (company_of j) j groups h)

-- What a job's section is called.
abbrev pub section_name : Job → String
section_name job = elim job.company [
  | none ↦ "Unknown"
  | some company ↦ if nonempty company then company else "Unknown"
]

named_company : (j : Job) → company_of j ≡ section_name j
named_company j = elim (Option-cases j.company) [ inl e ↦ rw e refl | inr (c, e) ↦ rw e refl ]

filter_named :
    (company : String) (jobs : List Job)
    → filter (λ (j : Job). company_of j == company) jobs
      ≡ filter (λ (j : Job). section_name j == company) jobs
filter_named company [] = refl
filter_named company (j ∷ jobs) = rw (named_company j, filter_named company jobs) refl

-- The jobs of a digest are grouped in sections with different names, and the section of a company holds
-- exactly its jobs, in their order; jobs without a company's name are under "Unknown". How many of them are
-- shown is another question.
pub jobs_in-group :
    (company : String) (jobs : List Job)
    → (has_distinct_names (group [] jobs) ≡ true)
      × (jobs_in company (group [] jobs) ≡ filter (λ (j : Job). section_name j == company) jobs)
jobs_in-group company jobs = (
  has_distinct_names-group jobs [] refl,
  jobs_in-group_from company [] jobs ∙ filter_named company jobs,
)

take-append-drop : (n : ℕ) (jobs : List Job) → take n jobs ++ drop n jobs ≡ jobs
take-append-drop zero jobs = refl
take-append-drop (suc n) [] = refl
take-append-drop (suc n) (j ∷ jobs) = ap (λ t. j ∷ t) (take-append-drop n jobs)

drop_all : (jobs : List Job) → jobs ++ drop (length jobs) jobs ≡ jobs
drop_all [] = refl
drop_all (j ∷ jobs) = ap (λ t. j ∷ t) (drop_all jobs)

-- A section shows the first jobs of its company, at most the limit where there is one, and with the
-- number of jobs said to be missing it accounts for all of them.
pub shown_lem :
    (max_per_company : ℕ) (jobs : List Job)
    → (length (shown max_per_company jobs).0 + (shown max_per_company jobs).1 ≡ length jobs)
      × ((if ltb 0 max_per_company
            then leb (length (shown max_per_company jobs).0) max_per_company
            else true)
          ≡ true)
      × ((shown max_per_company jobs).0 ++ drop (length (shown max_per_company jobs).0) jobs ≡ jobs)
unfolding shown
shown_lem n jobs = elim (Bool-cases (ltb 0 n && ltb n (length jobs))) [
  | inl cut ↦
      let fits : n < length jobs = ground arith in
      let size : length (take n jobs) ≡ n = omega (arith, length-take n jobs) in
      rw cut (omega (arith, size), ground (arith, size), rw size (take-append-drop n jobs))
  | inr whole ↦ rw whole (omega arith, ground arith, drop_all jobs)
]
