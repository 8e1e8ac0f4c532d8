-- ===== src/Pagination.antt =====
-- app/web/pagination.py. The page asked for is the integer that `int` reads, `none` where it raises.
use native.Mathlib.Nat.{lt-div-mul-add, div-mul-le_self}
use native.Mathlib.Decide.{dec_lt}
use career_spyder.Prelude.{
  lt→ltb, ge→ltb, sym, ℕ, ℤ, pos, negsuc, zero, suc, ◌+◌, ◌-◌, ◌*◌, ◌/◌, ◌≤◌, ◌<◌, ◌≡◌, Bool,
  Option, none, some, ltb, min, max, arith,
}

pub record Pagination : Type 0 where
  pub page : ℕ
  pub total_pages : ℕ
  pub offset : ℕ
  pub has_prev : Bool
  pub has_next : Bool

-- `-(-total // page_size)`, the quotient rounded up.
unfoldable pub ceil_div : ℕ → ℕ → ℕ
ceil_div total page_size = (total + (page_size - 1)) / page_size

-- `max(1, min(page_num, total_pages))`
unfoldable pub clamp_page : ℤ → ℕ → ℕ
clamp_page (pos n) total_pages = max 1 (min n total_pages)
clamp_page (negsuc n) total_pages = 1

unfoldable pub page_number : Option ℤ → ℤ
page_number none = pos 1
page_number (some n) = n

unfoldable pub paginate : ℕ → Option ℤ → ℕ → Pagination
unfolding ceil_div clamp_page page_number
paginate total page page_size =
    let total_pages = max 1 (ceil_div total page_size) in
    let page_num = clamp_page (page_number page) total_pages in
    record {
      page = page_num;
      total_pages = total_pages;
      offset = (page_num - 1) * page_size;
      has_prev = ltb 1 page_num;
      has_next = ltb page_num total_pages;
    }

clamp_bounds :
    (n : ℤ) (total_pages : ℕ)
    → 1 ≤ total_pages
    → (1 ≤ clamp_page n total_pages) × (clamp_page n total_pages ≤ total_pages)
unfolding clamp_page
clamp_bounds (pos n) total_pages h = (omega arith, omega arith)
clamp_bounds (negsuc n) total_pages h = (omega arith, omega arith)

-- The quotient rounded up: the pages reach the total, and the last one is needed.
ceil_div_rows : (total page_size : ℕ) → 0 < page_size → total ≤ ceil_div total page_size * page_size
unfolding ceil_div
ceil_div_rows total page_size h = omega (arith, lt-div-mul-add {a = total + (page_size - 1)} h)

ceil_div_least :
    (total page_size : ℕ)
    → 0 < page_size
    → ceil_div total page_size * page_size ≤ total + (page_size - 1)
unfolding ceil_div
ceil_div_least total page_size h = div-mul-le_self (total + (page_size - 1)) page_size

mul_mono : (a b c : ℕ) → a ≤ b → a * c ≤ b * c
mul_mono a b c h = grind arith

pred_mul : (p c : ℕ) → 1 ≤ p → (p - 1) * c + c ≡ p * c
pred_mul zero c h = elim h [ ]
pred_mul (suc m) c h = grind arith

-- A page in range starts at a row, and rows lie beyond it exactly if it is not the last.
module _ (total size q p : ℕ) (pos_size : 0 < size) (low : 1 ≤ p) (high : p ≤ max 1 q)
    (reach : total ≤ q * size) (least : q * size ≤ total + (size - 1)) where
  offset-le : (p - 1) * size ≤ total - 1
  offset-le = elim (dec_lt 0 q) [
    | yes some_page ↦ omega (arith, pred_mul p size low, mul_mono p q size (omega arith))
    | no no_page ↦ omega (arith, pred_mul p size low, mul_mono p 1 size (omega arith))
  ]

  next_iff : ltb p (max 1 q) ≡ ltb ((p - 1) * size + size) total
  next_iff = rw (pred_mul p size low) (elim (dec_lt p q) [
    | yes more ↦
        rw (lt→ltb p (max 1 q) (omega arith))
          (sym (lt→ltb (p * size) total (omega (arith, mul_mono (suc p) q size more))))
    | no last ↦
        rw (ge→ltb p (max 1 q) (omega arith))
          (sym (ge→ltb (p * size) total (omega (arith, mul_mono q p size (omega arith)))))
  ])

-- The page shown exists, whatever was asked for; its first row is a row of the list, unless the
-- list is empty; and no row lies after the last page.
pub paginate_bounds :
    (total : ℕ) (page : Option ℤ) (page_size : ℕ)
    → 0 < page_size
    → (1 ≤ (paginate total page page_size).page)
      × ((paginate total page page_size).page ≤ (paginate total page page_size).total_pages)
      × ((paginate total page page_size).offset ≤ total - 1)
      × (total ≤ (paginate total page page_size).total_pages * page_size)
unfolding paginate
paginate_bounds total page page_size h =
    let q = ceil_div total page_size in
    let p = clamp_page (page_number page) (max 1 q) in
    let c = clamp_bounds (page_number page) (max 1 q) (omega arith) in
    let reach = ceil_div_rows total page_size h in
    let least = ceil_div_least total page_size h in
    (
      c.0,
      c.1,
      offset-le total page_size q p h c.0 c.1 reach least,
      omega (arith, reach, mul_mono q (max 1 q) page_size (omega arith)),
    )

-- There is a next page exactly when rows lie beyond this one.
pub has_next_lem :
    (total : ℕ) (page : Option ℤ) (page_size : ℕ)
    → 0 < page_size
    → (paginate total page page_size).has_next
      ≡ ltb ((paginate total page page_size).offset + page_size) total
unfolding paginate
has_next_lem total page page_size h =
    let q = ceil_div total page_size in
    let p = clamp_page (page_number page) (max 1 q) in
    let c = clamp_bounds (page_number page) (max 1 q) (omega arith) in
    next_iff total page_size q p h c.0 c.1 (ceil_div_rows total page_size h)
      (ceil_div_least total page_size h)
