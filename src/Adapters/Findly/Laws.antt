-- ===== src/Adapters/Findly/Laws.antt =====
-- The loop over the pages of Findly's interface misses no record (app/adapters/findly.py).
use career_spyder.Prelude.{
  drop, drop-add, take-add, ◌++◌, ltb, ltb→lt, Bool-cases, inl, inr, length-take, take-all, ℕ, zero,
  suc, ◌+◌, ◌*◌, ◌<◌, ◌≡◌, refl, ap, sym, ◌∙◌, Option, List, [], ◌∷◌, ◌++◌, take, drop, length,
  length-take, take-add, drop-add, take-all, arith, ltb, ltb→lt, Bool-cases, inl, inr,
}
use mathlib.Core.List.{append_assoc}
use career_spyder.Result.{Result, ok}
use career_spyder.Config.{Source}
use career_spyder.Adapters.Findly.{Record, parse_record, parse_records, extend, fetch_from, fetch}

parse_records-append :
    (source : Source) (xs ys : List (Option Record))
    → parse_records source (xs ++ ys) ≡ parse_records source xs ++ parse_records source ys
unfolding parse_records
parse_records-append source [] ys = refl
parse_records-append source (x ∷ xs) ys =
    rw (parse_records-append source xs ys) (sym (append_assoc (parse_record source x) _ _))

-- The interface answers an offset, counted from 1, with the records from there.
abbrev pub IsServed : (ℕ → Result (List (Option Record))) → List (Option Record) → Type 0
IsServed http_get all = (o : ℕ) → http_get (o + 1) ≡ ok (take 500 (drop o all))

module _ (http_get : ℕ → Result (List (Option Record))) (all : List (Option Record))
    (source : Source) (served : IsServed http_get all) where
  short_page :
      (left : ℕ) (xs : List (Option Record))
      → length (take 500 xs) < 500
      → take 500 xs ≡ take (suc left * 500) xs
  short_page left xs h =
      take-all 500 xs (omega (arith, h, length-take 500 xs))
      ∙ sym (take-all (suc left * 500) xs (omega (arith, h, length-take 500 xs)))

  suc_pages : (left : ℕ) → suc left * 500 ≡ 500 + left * 500
  suc_pages left = omega arith

  next_page : (page : ℕ) → (page + 1) * 500 ≡ page * 500 + 500
  next_page page = omega arith

  full_page :
      (left page : ℕ)
      → parse_records source (take 500 (drop (page * 500) all))
          ++ parse_records source (take (left * 500) (drop ((page + 1) * 500) all))
        ≡ parse_records source (take (suc left * 500) (drop (page * 500) all))
  full_page left page =
      let xs = drop (page * 500) all in
      sym (
        ap (λ n. parse_records source (take n xs)) (suc_pages left)
        ∙ ap (parse_records source) (take-add 500 (left * 500) xs)
        ∙ parse_records-append source (take 500 xs) _
        ∙ ap
            (λ ys.
              parse_records source (take 500 xs) ++ parse_records source (take (left * 500) ys))
            (sym (drop-add (page * 500) 500 all) ∙ ap (λ n. drop n all) (sym (next_page page))))

  fetch_from_lem :
      (left page : ℕ)
      → fetch_from http_get source left page
        ≡ ok (parse_records source (take (left * 500) (drop (page * 500) all)))
  unfolding fetch_from extend
  fetch_from_lem zero page = refl
  fetch_from_lem (suc left) page = rw (served (page * 500)) (
      rw (fetch_from_lem left (page + 1))
        (elim (Bool-cases (ltb (length (take 500 (drop (page * 500) all))) 500)) [
          | inl e ↦ rw e (
              ap (λ xs. ok (parse_records source xs))
                (short_page left (drop (page * 500) all) (ltb→lt _ _ e)))
          | inr e ↦ rw e (ap ok (full_page left page))
        ]))

-- Fetching gives the jobs of the first `max_pages` pages of records, each once and in their order.
pub fetch-served :
    (http_get : ℕ → Result (List (Option Record))) (all : List (Option Record)) (source : Source)
    (max_pages : ℕ)
    → IsServed http_get all
    → fetch http_get source max_pages ≡ ok (parse_records source (take (max_pages * 500) all))
unfolding fetch
fetch-served http_get all source max_pages served =
    fetch_from_lem http_get all source served max_pages 0
