-- ===== src/Web/Exchange/Lists.antt =====
-- What joining with commas, splitting, stripping and selecting known texts leave alone
-- (app/web/routes_settings.py).
use Prim.Native.Char.{Char, code}
use Prim.Native.String
use Prim.Native.String.append
use career_spyder.Prelude.{
  ℕ, zero, suc, String, ◌==◌, ◌≡◌, refl, ap, ◌∙◌, Bool, true, not, ◌&&◌, some, List, [], ◌∷◌, map,
  filter, elem, take, All, Bool-cases, inl, inr, arith, eq_iff, nonempty, nat_eq,
}
use career_spyder.Text.{split, join, strip, lstrip, rstrip, is_space}
use career_spyder.Web.Preferences.{keep_known, is_valid_email}
use career_spyder.Web.Exchange.{texts_of, valid_emails}

abbrev pub no_sep : ℕ → String → Bool
no_sep sep String.[] = true
no_sep sep (String.◌∷◌ c s) = not (nat_eq (code c) sep) && no_sep sep s

pub texts_of-map : (ws : List String) → texts_of (map (λ w. some w) ws) ≡ ws
unfolding texts_of
texts_of-map [] = refl
texts_of-map (w ∷ ws) = ap (λ t. w ∷ t) (texts_of-map ws)

split-word : (sep : ℕ) (w : String) → no_sep sep w ≡ true → split sep w ≡ w ∷ []
unfolding split
split-word sep String.[] h = refl
split-word sep (String.◌∷◌ c s) h =
    let rest = split-word sep s (ground (arith, h)) in rw rest (ground (arith, h))

split-append :
    (sep : ℕ) (w : String) (c : Char) (s : String)
    → no_sep sep w ≡ true
    → nat_eq (code c) sep ≡ true
    → split sep (String.◌++◌ w (String.◌∷◌ c s)) ≡ w ∷ split sep s
unfolding split
split-append sep String.[] c s h e = rw (append.nil (String.◌∷◌ c s)) (ground (arith, e))
split-append sep (String.◌∷◌ d w) c s h e =
    rw (append.cons d w (String.◌∷◌ c s))
      (rw (split-append sep w c s (ground (arith, h)) e) (ground (arith, h)))

-- A word of a list that a comma ends.
abbrev pub IsWord : String → Type 0
IsWord w = (nonempty w ≡ true) × (no_sep 44 w ≡ true)

pub filter-words : (ws : List String) → All IsWord ws → filter nonempty ws ≡ ws
filter-words [] h = refl
filter-words (w ∷ ws) h = rw (h.0.0) (ap (λ t. w ∷ t) (filter-words ws h.1))

abbrev comma : Char
comma = ","

comma_append : (t : String) → String.◌++◌ "," t ≡ String.◌∷◌ comma t
comma_append t = append.cons comma "" t ∙ ap (λ u. String.◌∷◌ comma u) (append.nil t)

pub split-join :
    (w : String) (ws : List String) → All IsWord (w ∷ ws) → split 44 (join "," (w ∷ ws)) ≡ w ∷ ws
unfolding join
split-join w [] h = split-word 44 w (h.0.1)
split-join w (v ∷ ws) h = rw (comma_append (join "," (v ∷ ws))) (
    rw (split-append 44 w comma (join "," (v ∷ ws)) (h.0.1) refl)
      (ap (λ t. w ∷ t) (split-join v ws h.1)))

pub words_back : (ws : List String) → All IsWord ws → filter nonempty (split 44 (join "," ws)) ≡ ws
unfolding split join
words_back [] h = refl
words_back (w ∷ ws) h = rw (split-join w ws h) (filter-words (w ∷ ws) h)

-- The texts of a known list that a selection of it holds are the selection.
elem-filter :
    (p : String → Bool) (ks : List String) (d : String) → elem d (filter p ks) ≡ p d && elem d ks
elem-filter p [] d = ground arith
elem-filter p (k ∷ ks) d = ground (arith, elem-filter p ks d, eq_iff k d)

filter-agree :
    (p q : String → Bool) (ks : List String)
    → ((d : String) → elem d ks ≡ true → p d ≡ q d)
    → filter p ks ≡ filter q ks
filter-agree p q [] h = refl
filter-agree p q (k ∷ ks) h =
    let rest = filter-agree p q ks (λ d e. h d (ground (arith, e))) in
    let here = h k (ground (arith, eq_iff k k)) in rw (here, rest)

pub keep_known-again :
    (known chosen : List String)
    → keep_known known (keep_known known chosen) ≡ keep_known known chosen
unfolding keep_known
keep_known-again known chosen =
    filter-agree _ _ known (λ d e. elem-filter (λ k. elem k chosen) known d ∙ ground (arith, e))

All-kept :
    (P : String → Type 0) (p : String → Bool) (xs : List String) → All P xs → All P (filter p xs)
All-kept P p [] h = tt
All-kept P p (x ∷ xs) h = elim (Bool-cases (p x)) [
  | inl e ↦ rw e (h.0, All-kept P p xs h.1)
  | inr e ↦ rw e (All-kept P p xs h.1)
]

pub keep_known-words :
    (known chosen : List String) → All IsWord known → All IsWord (keep_known known chosen)
unfolding keep_known
keep_known-words known chosen h = All-kept IsWord (λ d. elem d chosen) known h

-- Stripping twice is stripping once.
rstrip-again : (s : String) → rstrip (rstrip s) ≡ rstrip s
unfolding rstrip
rstrip-again String.[] = refl
rstrip-again (String.◌∷◌ c s) = elim (Bool-cases (rstrip s == "" && is_space (code c))) [
  | inl e ↦ rw e refl
  | inr e ↦ rw e (rw (rstrip-again s, e) refl)
]

lstrip-strip : (s : String) → lstrip (rstrip (lstrip s)) ≡ rstrip (lstrip s)
unfolding rstrip lstrip
lstrip-strip String.[] = refl
lstrip-strip (String.◌∷◌ c s) = elim (Bool-cases (is_space (code c))) [
  | inl e ↦ rw e (lstrip-strip s)
  | inr e ↦ rw e (elim (Bool-cases (rstrip s == "")) [
    | inl f ↦ rw (f, e) (rw e refl)
    | inr f ↦ rw f (rw e refl)
  ])
]

pub strip-again : (s : String) → strip (strip s) ≡ strip s
unfolding strip
strip-again s = rw (lstrip-strip s) (rstrip-again (lstrip s))

-- An address that is stored: stripped, and taken by the test of an address.
abbrev pub IsStored : String → Type 0
IsStored w = (strip w ≡ w) × ((nonempty w && is_valid_email w) ≡ true)

valid_emails-IsStored : (ws : List String) → All IsStored (valid_emails ws)
unfolding valid_emails
valid_emails-IsStored [] = tt
valid_emails-IsStored (w ∷ ws) =
    elim (Bool-cases (nonempty (strip w) && is_valid_email (strip w))) [
      | inl e ↦ rw e ((strip-again w, e), valid_emails-IsStored ws)
      | inr e ↦ rw e (valid_emails-IsStored ws)
    ]

All-take {ℓ} : {A : Type ℓ} (P : A → Type 0) (n : ℕ) (xs : List A) → All P xs → All P (take n xs)
All-take P zero xs h = tt
All-take P (suc n) [] h = tt
All-take P (suc n) (x ∷ xs) h = (h.0, All-take P n xs h.1)

take-again {ℓ} : {A : Type ℓ} (n : ℕ) (xs : List A) → take n (take n xs) ≡ take n xs
take-again zero xs = refl
take-again (suc n) [] = refl
take-again (suc n) (x ∷ xs) = ap (λ t. x ∷ t) (take-again n xs)

stored_emails : (ws : List String) → All IsStored ws → valid_emails ws ≡ ws
unfolding valid_emails
stored_emails [] h = refl
stored_emails (w ∷ ws) h = rw (h.0.0) (rw (h.0.1) (ap (λ t. w ∷ t) (stored_emails ws h.1)))

pub valid_emails-again :
    (n : ℕ) (ws : List String)
    → take n (valid_emails (take n (valid_emails ws))) ≡ take n (valid_emails ws)
valid_emails-again n ws =
    rw (stored_emails (take n (valid_emails ws)) (All-take IsStored n _ (valid_emails-IsStored ws)))
      (take-again n (valid_emails ws))

nonempty_stored :
    (ws : List String) → All IsStored ws → All (λ w. no_sep 44 w ≡ true) ws → All IsWord ws
nonempty_stored [] h k = tt
nonempty_stored (w ∷ ws) h k = ((ground (arith, h.0.1), k.0), nonempty_stored ws h.1 k.1)

pub valid_emails-words :
    (n : ℕ) (ws : List String)
    → All (λ w. no_sep 44 w ≡ true) (take n (valid_emails ws))
    → All IsWord (take n (valid_emails ws))
valid_emails-words n ws k =
    nonempty_stored (take n (valid_emails ws)) (All-take IsStored n _ (valid_emails-IsStored ws)) k
