-- ===== src/Ssrf/Addresses.antt =====
-- Which addresses are refused.
use career_spyder.Prelude.{
  ℕ, ◌+◌, ◌*◌, ◌<◌, ◌≡◌, refl, String, true, false, Option, none, some, List, [], ◌∷◌, any, arith,
  Bool-cases, inl, inr,
}
use career_spyder.Result.{ok}
use career_spyder.Ssrf.{
  ParsedUrl, assert_parsed, conn_parsed, Ip, v4, v6, Registry, two_32, mapped_prefix, nat64_prefix,
  effective_ip, is_disallowed_ip, Net, first_public, resolve_public_ip, assert_safe_url,
  allowed_scheme,
}

embedded_mapped : (n : ℕ) → n < two_32 → effective_ip (v6 (mapped_prefix * two_32 + n)) ≡ v4 n
unfolding effective_ip
embedded_mapped n h = ground arith

embedded_nat64 : (n : ℕ) → n < two_32 → effective_ip (v6 (nat64_prefix * two_32 + n)) ≡ v4 n
unfolding effective_ip
embedded_nat64 n h = ground arith

refused :
    (g : Registry) (a b : Ip)
    → effective_ip a ≡ effective_ip b
    → is_disallowed_ip g a ≡ is_disallowed_ip g b
unfolding is_disallowed_ip
refused g a b h = rw h

-- An IPv4 address cannot be smuggled past the checks inside an IPv6 one: its mapped form and its
-- NAT64 form are refused exactly when it is.
pub is_disallowed_ip-embedded :
    (g : Registry) (n : ℕ)
    → n < two_32
    → (is_disallowed_ip g (v6 (mapped_prefix * two_32 + n)) ≡ is_disallowed_ip g (v4 n))
      × (is_disallowed_ip g (v6 (nat64_prefix * two_32 + n)) ≡ is_disallowed_ip g (v4 n))
unfolding effective_ip
is_disallowed_ip-embedded g n h =
    (refused g _ (v4 n) (embedded_mapped n h), refused g _ (v4 n) (embedded_nat64 n h))

pub first_public-allowed :
    (g : Registry) (infos : List Ip) (ip : Ip)
    → first_public g infos ≡ ok ip
    → (is_disallowed_ip g ip ≡ false) × (any (is_disallowed_ip g) infos ≡ false)
unfolding first_public
first_public-allowed g [] ip h = cc
first_public-allowed g (x ∷ infos) ip h = elim (Bool-cases (any (is_disallowed_ip g) (x ∷ infos))) [
  | inl bad ↦ cc (rw bad at h)
  | inr good ↦ let same : x ≡ ip = ground arith in (rw (← same) (ground arith), good)
]

-- An address that a name is resolved to is allowed.
pub resolve_public_ip-allowed :
    (net : Net) (now : ℕ) (host : String) (port : Option ℕ) (ip : Ip)
    → resolve_public_ip net now host port ≡ ok ip
    → is_disallowed_ip net.registry ip ≡ false
unfolding resolve_public_ip
resolve_public_ip-allowed net now host port ip h = go (net.getaddrinfo now host port) refl
  where
    go :
        (o : Option (List Ip))
        → net.getaddrinfo now host port ≡ o
        → is_disallowed_ip net.registry ip ≡ false
    go none e = cc (rw (e, resolve_public_ip) at h)
    go (some infos) e =
        (first_public-allowed net.registry infos ip (rw (e, resolve_public_ip) at h)).0

-- The scheme of a parsed URL; one that cannot be parsed has none.
abbrev pub scheme_of : Option ParsedUrl → String
scheme_of none = ""
scheme_of (some parsed) = parsed.scheme

assert_parsed-scheme :
    (net : Net) (now : ℕ) (o : Option ParsedUrl) (ip : Ip)
    → assert_parsed net now o ≡ ok ip
    → allowed_scheme net (scheme_of o) ≡ true
unfolding assert_parsed
assert_parsed-scheme net now none ip h = cc
assert_parsed-scheme net now (some parsed) ip h = ground arith

pub conn_parsed-allowed :
    (net : Net) (now : ℕ) (o : Option ParsedUrl) (ip : Ip)
    → conn_parsed net now o ≡ ok ip
    → is_disallowed_ip net.registry ip ≡ false
unfolding conn_parsed
conn_parsed-allowed net now none ip h = cc
conn_parsed-allowed net now (some parsed) ip h = resolve_public_ip-allowed net now _ _ ip h

-- A URL that passes the check has an allowed scheme.
pub assert_safe_url-scheme :
    (net : Net) (now : ℕ) (url : String) (ip : Ip)
    → assert_safe_url net now url ≡ ok ip
    → allowed_scheme net (scheme_of (net.urlparse url)) ≡ true
unfolding assert_safe_url
assert_safe_url-scheme net now url ip h = assert_parsed-scheme net now (net.urlparse url) ip h
