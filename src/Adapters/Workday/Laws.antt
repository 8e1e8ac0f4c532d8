-- ===== src/Adapters/Workday/Laws.antt =====
-- The loop over the pages of a Workday board ends, and misses no posting (app/adapters/workday.py).
use career_spyder.Prelude.{
  take-nil, ge→ltb, ltb, ltb→lt, ltb→ge, min, suc, zero, ◌++◌, drop-all, take-add, drop-add, ap,
  ◌∙◌, Bool-cases, inl, inr, ℕ, zero, suc, ◌+◌, ◌*◌, ◌≤◌, ◌<◌, ◌⊎◌, min, ◌≡◌, refl, ap, sym, ◌∙◌,
  String, Option, some, List, [], ◌∷◌, ◌++◌, take, drop, length, take-add, drop-add, drop-all,
  arith, ltb, ltb→lt, ltb→ge, Bool-cases, inl, inr,
}
use mathlib.Core.List.{append_assoc}
use career_spyder.Result.{Result, ok}
use career_spyder.Models.{Job}
use career_spyder.Config.{Source}
use career_spyder.Adapters.Workday.{
  Posting, Page, parse_posting, parse_postings, extend, fetch_from, fetch_after, fetch,
}

parse_postings-append :
    (source : Source) (base : String) (xs ys : List (Option Posting))
    → parse_postings source base (xs ++ ys)
      ≡ parse_postings source base xs ++ parse_postings source base ys
unfolding parse_postings
parse_postings-append source base [] ys = refl
parse_postings-append source base (x ∷ xs) ys =
    rw (parse_postings-append source base xs ys)
      (sym (append_assoc (parse_posting source base x) _ _))

-- A board answers each offset below the number of its postings with a page of them. The first answer has the
-- true total, and the others any.
abbrev pub IsBoard : (ℕ → Result Page) → List (Option Posting) → (ℕ → ℕ) → Type 0
IsBoard fetch_page all total =
    (o : ℕ)
    → (o ≡ 0) ⊎ (o < length all)
    → fetch_page o ≡ ok (record { total = total o; postings = take 20 (drop o all) })

module _ (fetch_page : ℕ → Result Page) (all : List (Option Posting)) (total : ℕ → ℕ)
    (source : Source) (base : String) (board : IsBoard fetch_page all total) where
  abbrev rest_of : (left offset : ℕ) → List Job
  rest_of left offset = parse_postings source base (take (left * 20) (drop offset all))

  suc_pages : (left : ℕ) → suc left * 20 ≡ 20 + left * 20
  suc_pages left = omega arith

  same_bound :
      (left offset : ℕ)
      → min (length all) (offset + suc left * 20) ≡ min (length all) (offset + 20 + left * 20)
  same_bound left offset = omega arith

  rest_of-suc :
      (left offset : ℕ)
      → parse_postings source base (take 20 (drop offset all)) ++ rest_of left (offset + 20)
        ≡ rest_of (suc left) offset
  rest_of-suc left offset =
      let split =
        ap (λ n. take n (drop offset all)) (suc_pages left)
        ∙ take-add 20 (left * 20) (drop offset all) in
      sym (
        ap (parse_postings source base) split
        ∙ parse_postings-append source base (take 20 (drop offset all)) _
        ∙ ap
            (λ xs.
              parse_postings source base (take 20 (drop offset all))
              ++ parse_postings source base (take (left * 20) xs))
            (sym (drop-add offset 20 all)))

  rest_of-past : (left offset : ℕ) → length all ≤ offset → rest_of left offset ≡ []
  unfolding parse_postings
  rest_of-past left offset h = rw (drop-all offset all h) (rw (take-nil (left * 20)) refl)

  rest_of-zero : (offset : ℕ) → rest_of 0 offset ≡ []
  unfolding parse_postings
  rest_of-zero offset = refl

  fetch_from_lem :
      (fuel left offset : ℕ)
      → left ≤ fuel
      → fetch_from fetch_page source base fuel offset (min (length all) (offset + left * 20))
        ≡ some (ok (rest_of left offset))
  unfolding fetch_from
  fetch_from_lem zero zero offset h =
      rw (ge→ltb offset (min (length all) (offset + 0 * 20)) (omega arith))
        (ap (λ t. some (ok t)) (sym (rest_of-zero offset)))
  fetch_from_lem zero (suc left) offset h = absurd (omega (arith, h))
  fetch_from_lem (suc fuel) zero offset h =
      rw (ge→ltb offset (min (length all) (offset + 0 * 20)) (omega arith))
        (ap (λ t. some (ok t)) (sym (rest_of-zero offset)))
  fetch_from_lem (suc fuel) (suc left) offset h =
      elim (Bool-cases (ltb offset (min (length all) (offset + suc left * 20)))) [
        | inr e ↦ rw e (
            ap (λ t. some (ok t))
              (sym (rest_of-past (suc left) offset (omega (arith, ltb→ge offset _ e)))))
        | inl e ↦ rw e (
            rw (board offset (inr (omega (arith, ltb→lt offset _ e)))) (
              rw (same_bound left offset) (
                rw (fetch_from_lem fuel left (offset + 20) (omega (arith, h)))
                  (ap (λ t. some (ok t)) (rest_of-suc left offset)))))
      ]

  fetch_after_lem :
      (left : ℕ)
      → fetch_after fetch_page source base
          (suc left)
          (ok (record { total = length all; postings = take 20 (drop 0 all) }))
        ≡ some (ok (rest_of (suc left) 0))
  unfolding fetch_after
  fetch_after_lem left = rw (ap (λ n. min (length all) n) (suc_pages left)) (
      rw (fetch_from_lem (suc left) left 20 (omega arith))
        (unfold extend in ap (λ t. some (ok t)) (rest_of-suc left 0)))

-- Reading a board ends, and gives the jobs of its first `max_pages` pages of postings, each once and in their
-- order, whatever total the later pages report. The fuel is the number of pages.
pub fetch-board :
    (fetch_page : ℕ → Result Page) (all : List (Option Posting)) (total : ℕ → ℕ) (source : Source)
    (base : String) (max_pages : ℕ)
    → IsBoard fetch_page all total
    → total 0 ≡ length all
    → 1 ≤ max_pages
    → fetch fetch_page source base max_pages
      ≡ some (ok (parse_postings source base (take (max_pages * 20) all)))
unfolding fetch
fetch-board fetch_page all total source base zero board first h = absurd (omega (arith, h))
fetch-board fetch_page all total source base (suc left) board first h =
    rw (board 0 (inl refl)) (rw first (fetch_after_lem fetch_page all total source base board left))
