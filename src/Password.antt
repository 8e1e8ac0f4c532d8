-- ===== src/Password.antt =====
-- app/security/password_policy.py. A text is the list of its code points. `Policy` stands for what
-- lies outside: case folding, the bundled list, the settings of the environment, and the breach
-- service with the SHA-1 digest.
pub mod Laws
use career_spyder.Prelude.{
  ℕ, ℤ, pos, negsuc, zero, suc, ◌+◌, ◌-◌, ◌≤◌, String, ◌==◌, Bool, true, false, not, ◌&&◌, ◌||◌,
  Option, none, some, List, [], ◌∷◌, ◌++◌, map, any, all, length, leb, ltb, nat_eq, min, max,
  if◌then◌else◌, arith,
}

abbrev pub Text : Type 0
Text = List ℕ

-- `a == b` for two texts.
unfoldable pub text_eq : Text → Text → Bool
text_eq [] [] = true
text_eq (a ∷ xs) (b ∷ ys) = nat_eq a b && text_eq xs ys
text_eq [] (b ∷ ys) = false
text_eq (a ∷ xs) [] = false

unfoldable pub has_prefix : Text → Text → Bool
has_prefix [] text = true
has_prefix (n ∷ needle) [] = false
has_prefix (n ∷ needle) (c ∷ text) = nat_eq n c && has_prefix needle text

-- `needle in text`
unfoldable pub occurs : Text → Text → Bool
unfolding has_prefix
occurs needle [] = has_prefix needle []
occurs needle (c ∷ text) = has_prefix needle (c ∷ text) || occurs needle text

-- The bytes of one character in UTF-8.
unfoldable pub utf8_width : ℕ → ℕ
utf8_width c = if ltb c 0x80 then 1 else if ltb c 0x800 then 2 else if ltb c 0x10000 then 3 else 4

unfoldable pub byte_length : Text → ℕ
unfolding utf8_width
byte_length [] = 0
byte_length (c ∷ text) = utf8_width c + byte_length text

-- `clamped` of `min_length`, by the integer that the variable holds; `none` where it is empty or no
-- integer.
unfoldable pub min_length : Option ℤ → ℕ
min_length none = 8
min_length (some (pos n)) = max 8 (min n 64)
min_length (some (negsuc n)) = 8

-- `len(set(password)) == 1`
unfoldable pub is_repetitive : Text → Bool
is_repetitive [] = false
is_repetitive (c ∷ text) = all (λ d. nat_eq d c) text

-- `set(pairwise steps) == {1}`, and `== {-1}`; a text of fewer than two characters has no step.
unfoldable pub steps_up : Text → Bool
steps_up [] = true
steps_up (a ∷ []) = true
steps_up (a ∷ b ∷ text) = nat_eq b (suc a) && steps_up (b ∷ text)

unfoldable pub steps_down : Text → Bool
steps_down [] = true
steps_down (a ∷ []) = true
steps_down (a ∷ b ∷ text) = nat_eq (suc b) a && steps_down (b ∷ text)

abbrev pub has_step : Text → Bool
has_step text = leb 2 (length text)

unfoldable pub is_repetitive_or_sequential : Text → Bool
unfolding is_repetitive steps_up steps_down
is_repetitive_or_sequential text =
    is_repetitive text || (has_step text && (steps_up text || steps_down text))

pub record Policy : Type 0 where
  pub strip : Text → Text
  pub casefold : Text → Text
  pub is_common : Text → Bool
  pub min_length_env : Option ℤ
  pub breach_check_enabled : Bool
  -- `digest[:5]` and `digest[5:]`, as upper-case hexadecimal.
  pub sha1_prefix : Text → Text
  pub sha1_suffix : Text → Text
  -- The lines that the service sends for a prefix: a suffix, and the count if it is an integer;
  -- `none` where the lookup fails.
  pub range : Text → Option (List (Text × Option ℕ))

unfoldable pub app_name : Text
app_name = 0x63 ∷ 0x61 ∷ 0x72 ∷ 0x65 ∷ 0x65 ∷ 0x72 ∷ 0x73 ∷ 0x70 ∷ 0x79 ∷ 0x64 ∷ 0x65 ∷ 0x72 ∷ []

-- `email.split("@", 1)[0]`
unfoldable pub local_part : Text → Text
local_part [] = []
local_part (c ∷ text) = if nat_eq c b'@' then [] else c ∷ local_part text

-- The loop of `pwned_count` over the lines.
unfoldable pub scan : Text → List (Text × Option ℕ) → ℕ
scan suffix [] = 0
scan suffix ((candidate, count) ∷ lines) =
    let rest = scan suffix lines in
    if text_eq candidate suffix then (elim count [ none ↦ rest | some n ↦ n ]) else rest

pub data Message : Type 0 where
  required : Message
  too_short : ℕ → Message
  too_long : Message
  mismatch : Message
  pattern_found : Message
  common : Message
  contains_app_name : Message
  contains_username : Message
  contains_email : Message
  breached : ℕ → Message

module _ (policy : Policy) where
  unfoldable pub contains_context : Text → Text → Bool
  contains_context folded_password word =
      let w = policy.casefold (policy.strip word) in
      if leb (length w) 0
      then false
      else text_eq folded_password w || (leb 3 (length w) && occurs w folded_password)

  unfoldable pub pwned_count : Text → Option ℕ
  unfolding scan
  pwned_count password = elim (policy.range (policy.sha1_prefix password)) [
    | none ↦ none
    | some lines ↦ some (scan (policy.sha1_suffix password) lines)
  ]

  -- `if count:` on the result of the lookup.
  unfoldable pub breach_message : Option ℕ → Option Message
  breach_message none = none
  breach_message (some zero) = none
  breach_message (some (suc n)) = some (breached (suc n))

  unfoldable pub check_folded : Text → Text → Text → Text → Option Message
  unfolding breach_message
  check_folded password folded username email =
      if is_repetitive_or_sequential folded
      then some pattern_found
      else if policy.is_common folded
      then some common
      else if occurs app_name folded
      then some contains_app_name
      else if contains_context folded username
      then some contains_username
      else if contains_context folded (local_part (policy.strip email))
      then some contains_email
      else if policy.breach_check_enabled
      then breach_message (pwned_count password)
      else none

  unfoldable pub check_new_password : (password confirm username email : Text) → Option Message
  unfolding check_folded
  check_new_password password confirm username email =
      let n = min_length policy.min_length_env in
      if leb (length password) 0
      then some required
      else if ltb (length password) n
      then some (too_short n)
      else if ltb 72 (byte_length password)
      then some too_long
      else if not (text_eq password confirm)
      then some mismatch
      else check_folded password (policy.casefold password) username email
