-- ===== src/Ssrf.antt =====
-- app/security/ssrf_guard.py: which addresses a request may dial. `Net` stands for what lies
-- outside: address registries, URL parsing and joining, name resolution and the servers. Its
-- functions take the moment of the call, so a name may resolve differently each time it is asked
-- for. Every request opens a connection of its own.
pub mod Addresses
pub mod Hops
pub mod Browser
use career_spyder.Prelude.{
  ℕ, zero, suc, ◌+◌, ◌*◌, ◌/◌, ◌%◌, String, ◌==◌, Bool, true, false, not, ◌&&◌, ◌||◌, Option, none,
  some, List, [], ◌∷◌, ◌++◌, any, nat_eq, if◌then◌else◌, truthy, text_or, leb, ltb,
}
use career_spyder.Result.{Result, ok, err, unsafe_url, request_failed, other_error, ◌>>=◌}

-- `ipaddress.ip_address(text)` by its number.
pub data Ip : Type 0 where
  v4 : ℕ → Ip
  v6 : ℕ → Ip

-- The flags of an address.
pub record Registry : Type 0 where
  pub is_global : Ip → Bool
  pub is_private : Ip → Bool
  pub is_loopback : Ip → Bool
  pub is_link_local : Ip → Bool
  pub is_reserved : Ip → Bool
  pub is_multicast : Ip → Bool
  pub is_unspecified : Ip → Bool

abbrev pub two_32 : ℕ
two_32 = 4_294_967_296

-- The upper 96 bits of `::ffff:0:0/96` and of `64:ff9b::/96`.
abbrev pub mapped_prefix : ℕ
mapped_prefix = 0xffff

abbrev pub nat64_prefix : ℕ
nat64_prefix = 0x64ff9b0000000000000000

-- The address that the checks look at.
unfoldable pub effective_ip : Ip → Ip
effective_ip (v4 n) = v4 n
effective_ip (v6 n) =
    if nat_eq (n / two_32) mapped_prefix
    then v4 (n % two_32)
    else if nat_eq (n / two_32) nat64_prefix
    then v4 (n % two_32)
    else v6 n

unfoldable pub is_disallowed_ip : Registry → Ip → Bool
unfolding effective_ip
is_disallowed_ip g address =
    let ip = effective_ip address in
    not (g.is_global ip)
    || g.is_private ip
    || g.is_loopback ip
    || g.is_link_local ip
    || g.is_reserved ip
    || g.is_multicast ip
    || g.is_unspecified ip

pub record ParsedUrl : Type 0 where
  pub scheme : String
  pub hostname : Option String
  pub port : Option ℕ

pub record Response : Type 0 where
  pub status : ℕ
  pub is_redirect : Bool
  pub is_permanent_redirect : Bool
  pub location : Option String

pub record Net : Type 0 where
  pub registry : Registry
  -- `none` where the parser, or reading the port, raises.
  pub urlparse : String → Option ParsedUrl
  pub urljoin : String → String → String
  -- `getaddrinfo`: `none` for `gaierror`.
  pub getaddrinfo : ℕ → String → Option ℕ → Option (List Ip)
  -- The answer to a request that dials the address, `none` for a failed connection.
  pub dial : ℕ → Ip → String → Option Response

unfoldable pub first_public : Registry → List Ip → Result Ip
unfolding is_disallowed_ip
first_public g [] = err other_error
first_public g (ip ∷ infos) =
    if any (is_disallowed_ip g) (ip ∷ infos) then err unsafe_url else ok ip

module _ (net : Net) where
  unfoldable pub resolve_public_ip : ℕ → String → Option ℕ → Result Ip
  unfolding first_public
  resolve_public_ip now host port = elim (net.getaddrinfo now host port) [
    | none ↦ err unsafe_url
    | some infos ↦ first_public net.registry infos
  ]

  abbrev pub allowed_scheme : String → Bool
  allowed_scheme scheme = scheme == "http" || scheme == "https"

  unfoldable pub assert_parsed : ℕ → Option ParsedUrl → Result Ip
  unfolding resolve_public_ip
  assert_parsed now none = err other_error
  assert_parsed now (some parsed) =
      if allowed_scheme parsed.scheme
      then if truthy parsed.hostname
        then resolve_public_ip now (text_or parsed.hostname "") parsed.port
        else err unsafe_url
      else err unsafe_url

  unfoldable pub assert_safe_url : ℕ → String → Result Ip
  unfolding assert_parsed
  assert_safe_url now url = assert_parsed now (net.urlparse url)

  -- `_PinnedConnectionMixin._new_conn`: the address that is dialled.
  unfoldable pub conn_parsed : ℕ → Option ParsedUrl → Result Ip
  unfolding resolve_public_ip
  conn_parsed now none = err other_error
  conn_parsed now (some parsed) = resolve_public_ip now (text_or parsed.hostname "") parsed.port

  unfoldable pub new_conn : ℕ → String → Result Ip
  unfolding conn_parsed
  new_conn now url = conn_parsed now (net.urlparse url)

  -- A connection that was opened: the URL asked for and the address dialled.
  pub record Dialled : Type 0 where
    pub url : String
    pub ip : Ip

  pub record Answered : Type 0 where
    pub result : Result Response
    pub dialled : List Dialled

  abbrev pub after : List Dialled → Answered → Answered
  after before a = record a { dialled = before ++ a.dialled }

  unfoldable pub request_on : ℕ → String → Result Ip → Answered
  request_on now url (err e) = record { result = err e; dialled = [] }
  request_on now url (ok ip) = record {
    result = elim (net.dial now ip url) [ none ↦ err request_failed | some r ↦ ok r ];
    dialled = record { url = url; ip = ip } ∷ [];
  }

  -- One request of the session.
  unfoldable pub request : ℕ → String → Answered
  unfolding request_on new_conn
  request now url = request_on now url (new_conn now url)

  abbrev pub is_any_redirect : Response → Bool
  is_any_redirect r = r.is_redirect || r.is_permanent_redirect

  -- The URL that a response sends the loop on to.
  unfoldable pub next_url : String → Response → Option String
  next_url url r =
      if is_any_redirect r
      then if truthy r.location then some (net.urljoin url (text_or r.location "")) else none
      else none

  -- The check of the next URL, and the rest of the loop if it passes.
  unfoldable pub proceed : Answered → (String → Answered) → String → Result Ip → Answered
  proceed first rest target (err e) = record first { result = err e }
  proceed first rest target (ok ip) = after first.dialled (rest target)

  unfoldable pub follow : ℕ → Answered → (String → Answered) → Option String → Answered
  unfolding proceed
  follow now first rest none = first
  follow now first rest (some target) = proceed first rest target (assert_safe_url now target)

  unfoldable pub on_result :
      ℕ → String → Answered → (String → Answered) → Result Response → Answered
  unfolding follow next_url
  on_result now url first rest (err e) = first
  on_result now url first rest (ok r) = follow now first rest (next_url url r)

  -- The loop over the hops, by the rounds left. A hop takes two moments: the request, and the check
  -- of the URL that it is redirected to.
  unfoldable pub hops : ℕ → ℕ → String → Answered
  unfolding request on_result
  hops zero now url = record { result = err unsafe_url; dialled = [] }
  hops (suc rounds) now url =
      on_result (suc now) url (request now url) (λ target. hops rounds (suc (suc now)) target)
        (request now url).result

  unfoldable pub start_hops : (String → Answered) → String → Result Ip → Answered
  start_hops loop url (err e) = record { result = err e; dialled = [] }
  start_hops loop url (ok ip) = loop url

  unfoldable pub safe_request : ℕ → ℕ → String → Answered
  unfolding assert_safe_url hops start_hops
  safe_request max_redirects now url =
      start_hops (hops (suc max_redirects) (suc now)) url (assert_safe_url now url)
