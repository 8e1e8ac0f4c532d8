-- ===== src/Password/Laws.antt =====
-- What an accepted password is.
use career_spyder.Prelude.{
  ℤ, pos, negsuc, ◌≤◌, ◌≡◌, refl, true, false, Option, none, some, [], ◌∷◌, length, arith,
}
use career_spyder.Password.{
  Text, text_eq, occurs, byte_length, min_length, is_repetitive_or_sequential, Policy, app_name,
  local_part, contains_context, check_new_password,
}

text_eq→eq : (a b : Text) → text_eq a b ≡ true → a ≡ b
unfolding text_eq
text_eq→eq [] [] h = refl
text_eq→eq [] (b ∷ ys) h = cc
text_eq→eq (a ∷ xs) [] h = cc
text_eq→eq (a ∷ xs) (b ∷ ys) h = ground (arith, text_eq→eq xs ys)

min_length_bounds : (n : Option ℤ) → (8 ≤ min_length n) × (min_length n ≤ 64)
unfolding min_length
min_length_bounds none = omega arith
min_length_bounds (some (pos n)) = (omega arith, omega arith)
min_length_bounds (some (negsuc n)) = omega arith

-- What the policy promises of a password that it accepts.
pub record IsAcceptable (policy : Policy) (password confirm username email : Text) : Type 0 where
  pub long_enough : 8 ≤ length password
  pub as_configured : min_length policy.min_length_env ≤ length password
  pub hashable : byte_length password ≤ 72
  pub confirmed : password ≡ confirm
  pub no_pattern : is_repetitive_or_sequential (policy.casefold password) ≡ false
  pub uncommon : policy.is_common (policy.casefold password) ≡ false
  pub no_app_name : occurs app_name (policy.casefold password) ≡ false
  pub no_username : contains_context policy (policy.casefold password) username ≡ false
  pub no_email :
      contains_context policy (policy.casefold password) (local_part (policy.strip email)) ≡ false

-- An accepted password has at least 8 characters and the configured number, at most the 72 bytes
-- that are hashed, is the confirmed one, and passes every local check.
pub check_new_password-IsAcceptable :
    (policy : Policy) (password confirm username email : Text)
    → check_new_password policy password confirm username email ≡ none
    → IsAcceptable policy password confirm username email
unfolding check_new_password
check_new_password-IsAcceptable policy password confirm username email h =
    let bounds = min_length_bounds policy.min_length_env in
    record {
      long_enough = ground (arith, bounds);
      as_configured = ground arith;
      hashable = ground arith;
      confirmed = text_eq→eq password confirm (ground arith);
      no_pattern = ground arith;
      uncommon = ground arith;
      no_app_name = ground arith;
      no_username = ground arith;
      no_email = ground arith;
    }
