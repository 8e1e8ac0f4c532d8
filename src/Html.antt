-- ===== src/Html.antt =====
-- Texts of a digest: `str` of a number, `html.escape` with its quotes, and the scheme noise of
-- app/textutils.py.
use Prim.Native.Char.{Char, code}
use Prim.Native.String
use career_spyder.Prelude.{
  ℕ, zero, suc, String, Bool, ◌&&◌, ◌||◌, List, [], ◌∷◌, ltb, leb, nat_eq, if◌then◌else◌,
}
use career_spyder.Text.{join}

abbrev pub cat : List String → String
cat = join ""

-- `str(n)`, by the decimal digits with the lowest first.
unfoldable pub increment : List ℕ → List ℕ
increment [] = 1 ∷ []
increment (d ∷ ds) = let rest = increment ds in if ltb d 9 then suc d ∷ ds else 0 ∷ rest

unfoldable pub digits : ℕ → List ℕ
unfolding increment
digits zero = 0 ∷ []
digits (suc n) = increment (digits n)

abbrev digit : ℕ → String
digit d =
    if nat_eq d 0
    then "0"
    else if nat_eq d 1
    then "1"
    else if nat_eq d 2
    then "2"
    else if nat_eq d 3
    then "3"
    else if nat_eq d 4
    then "4"
    else if nat_eq d 5
    then "5"
    else if nat_eq d 6
    then "6"
    else if nat_eq d 7
    then "7"
    else if nat_eq d 8
    then "8"
    else "9"

unfoldable pub show_digits : List ℕ → String
show_digits [] = ""
show_digits (d ∷ ds) = String.◌++◌ (show_digits ds) (digit d)

unfoldable pub str : ℕ → String
unfolding digits show_digits
str n = show_digits (digits n)

-- `html.escape(text)` with its quotes, one character at a time.
unfoldable pub escape_char : Char → String
escape_char c =
    if nat_eq (code c) b'&'
    then "&amp;"
    else if nat_eq (code c) b'<'
    then "&lt;"
    else if nat_eq (code c) b'>'
    then "&gt;"
    else if nat_eq (code c) 34
    then "&quot;"
    else if nat_eq (code c) 39
    then "&#x27;"
    else String.◌∷◌ c ""

unfoldable pub escape : String → String
unfolding escape_char
escape String.[] = ""
escape (String.◌∷◌ c s) = String.◌++◌ (escape_char c) (escape s)

-- The characters of `_SCHEME_NOISE`.
unfoldable pub is_noise : ℕ → Bool
is_noise c =
    leb c 0x20
    || nat_eq c 0x7f
    || nat_eq c 0xa0
    || nat_eq c 0x1680
    || nat_eq c 0x2028
    || nat_eq c 0x2029
    || nat_eq c 0x202f
    || nat_eq c 0x205f
    || nat_eq c 0x3000
    || nat_eq c 0xfeff
    || (leb 0x2000 c && leb c 0x200b)

unfoldable pub clean : String → String
unfolding is_noise
clean String.[] = ""
clean (String.◌∷◌ c s) = let rest = clean s in if is_noise (code c) then rest else String.◌∷◌ c rest
