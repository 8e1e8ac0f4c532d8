-- ===== src/Examples/Guarded.antt =====
-- The guarded requests, the rate limit and the password policy at concrete parameters.
use career_spyder.Prelude.{
  ℕ, pos, String, ◌==◌, ◌≡◌, ◌≤◌, refl, arith, Bool, true, false, Option, some, [], ◌∷◌, filter,
  length, if◌then◌else◌, ltb, not,
}
use career_spyder.Ssrf.{Ip, v4, v6, Registry, Net, safe_request}
use career_spyder.Ssrf.Hops.{IsGuarded, safe_request-IsGuarded}
use career_spyder.Ssrf.Browser.{
  Fetched, Verdict, passes, unsafe, has_passed, handle, is_stopped, IsVetted, handle-IsVetted,
}
use career_spyder.RateLimit.{Buckets}
use career_spyder.RateLimit.Window.{in_window, start, attempts, attempts-in_window-le-max}
use career_spyder.Password.{
  Text, Policy, check_new_password, min_length, byte_length, text_eq, is_repetitive_or_sequential,
  occurs, app_name, contains_context, local_part, pwned_count,
}
use career_spyder.Password.Laws.{IsAcceptable, check_new_password-IsAcceptable}

abbrev is_low : Ip → Bool
is_low (v4 n) = ltb n 100
is_low (v6 n) = ltb n 100

-- Addresses below 100 are private, all others public.
abbrev registry : Registry
registry = record {
  is_global = λ ip. not (is_low ip);
  is_private = is_low;
  is_loopback = λ ip. false;
  is_link_local = λ ip. false;
  is_reserved = λ ip. false;
  is_multicast = λ ip. false;
  is_unspecified = λ ip. false;
}

-- A name that turns private after a while, and a server that redirects for ever.
abbrev net : Net
net = record {
  registry = registry;
  urlparse = λ url. some (record { scheme = "http"; hostname = some url; port = some 80 });
  urljoin = λ base target. target;
  getaddrinfo = λ now host port. some (if ltb now 3 then v4 200 ∷ [] else v4 7 ∷ []);
  dial = λ now ip url. some (record {
    status = 302;
    is_redirect = true;
    is_permanent_redirect = false;
    location = some "next";
  });
}

safe_request-IsGuarded_example : IsGuarded net 6 (safe_request net 5 0 "first")
safe_request-IsGuarded_example = safe_request-IsGuarded net 5 0 "first"

abbrev redirect : ℕ → String → Option Fetched
redirect rounds url = some (record { status = 301; location = some "inside" })

abbrev only_outside : ℕ → String → Verdict
only_outside rounds url = if url == "outside" then passes else unsafe

handle-IsVetted_example :
    IsVetted only_outside redirect
      (λ base target. target)
      6
      (handle only_outside redirect (λ base target. target) "outside" "document")
    × ((if has_passed (only_outside 6 "outside")
          then true
          else is_stopped
              (handle only_outside redirect (λ base target. target) "outside" "document").route)
        ≡ true)
handle-IsVetted_example =
    handle-IsVetted only_outside redirect (λ base target. target) "outside" "document"

attempts-in_window-le-max_example :
    length (filter (in_window 12 10) (attempts 2 10 start (2 ∷ 3 ∷ 12 ∷ [])).log) ≤ 2
attempts-in_window-le-max_example =
    attempts-in_window-le-max 2 10 1 (2 ∷ 3 ∷ 12 ∷ [])
      (omega arith, (omega arith, (omega arith, tt)))

abbrev no_attempts : Buckets
no_attempts k = []

abbrev policy : Policy
policy = record {
  strip = λ t. t;
  casefold = λ t. t;
  is_common = λ t. false;
  min_length_env = some (pos 9);
  breach_check_enabled = true;
  sha1_prefix = λ t. 65 ∷ [];
  sha1_suffix = λ t. 66 ∷ [];
  range = λ prefix. some ((67 ∷ [], some 3) ∷ []);
}

abbrev nine_letters : Text
nine_letters = 113 ∷ 119 ∷ 101 ∷ 114 ∷ 122 ∷ 117 ∷ 105 ∷ 111 ∷ 112 ∷ []

check_new_password-IsAcceptable_example :
    IsAcceptable policy nine_letters nine_letters (98 ∷ 111 ∷ 98 ∷ []) (98 ∷ 64 ∷ 120 ∷ [])
unfolding check_new_password min_length byte_length text_eq is_repetitive_or_sequential occurs
    app_name contains_context local_part pwned_count
check_new_password-IsAcceptable_example =
    check_new_password-IsAcceptable policy nine_letters nine_letters (98 ∷ 111 ∷ 98 ∷ [])
      (98 ∷ 64 ∷ 120 ∷ []) refl
