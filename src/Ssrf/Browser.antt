-- ===== src/Ssrf/Browser.antt =====
-- app/security/ssrf_guard.py: the Playwright route handlers. `check` is the check of a URL, `fetch` stands
-- for `route.fetch` without redirects (`none` where it raises), and `to_http` for the URL with `ws` or
-- `wss` replaced by `http` or `https`. The number given to `check` and `fetch` is that of the rounds left, so
-- that names may resolve otherwise at each round.
use career_spyder.Prelude.{
  ℕ, zero, suc, ◌≤◌, String, ◌==◌, ◌≡◌, refl, Bool, true, false, ◌&&◌, Option, none, some, List, [],
  ◌∷◌, leb, ltb, truthy, text_or, if◌then◌else◌, arith, length, Bool-cases, inl, inr,
}

-- What the check of a URL comes to: it returns, it raises `UnsafeUrlError`, or it raises another error.
pub data Verdict : Type 0 where
  passes : Verdict
  unsafe : Verdict
  raises : Verdict

abbrev pub has_passed : Verdict → Bool
has_passed passes = true
has_passed unsafe = false
has_passed raises = false

-- What becomes of a routed request. It stays open where another error leaves the handler.
pub data Route : Type 0 where
  aborted : (reason : String) → Route
  continued : Route
  fulfilled : (url : String) → Route
  open_still : Route

pub record Fetched : Type 0 where
  pub status : ℕ
  pub location : Option String

-- The outcome, and the URLs that the handler fetched itself.
pub record Handled : Type 0 where
  pub route : Route
  pub fetched : List String

abbrev pub blocked : Handled
blocked = record { route = aborted "blockedbyclient"; fetched = [] }

abbrev pub visit : String → Handled → Handled
visit url h = record h { fetched = url ∷ h.fetched }

abbrev pub redirects : Fetched → Bool
redirects r = leb 300 r.status && ltb r.status 400 && truthy r.location

-- `try: check(url)`, and what follows it.
unfoldable pub checked : Verdict → Handled → Handled
checked passes onward = onward
checked unsafe onward = blocked
checked raises onward = record { route = open_still; fetched = [] }

module _ (check : ℕ → String → Verdict) (fetch : ℕ → String → Option Fetched)
    (urljoin : String → String → String) where
  -- What follows a fetch: abort, fulfil, or go on to the next URL if it passes the check.
  unfoldable pub respond : ℕ → (String → Handled) → String → Option Fetched → Handled
  unfolding checked
  respond rounds loop url none = visit url (record { route = aborted "failed"; fetched = [] })
  respond rounds loop url (some r) =
      if redirects r
      then (let target = urljoin url (text_or r.location "") in
          visit url (checked (check rounds target) (loop target)))
      else visit url (record { route = fulfilled url; fetched = [] })

  unfoldable pub fetch_hops : ℕ → String → Handled
  unfolding respond
  fetch_hops zero url = blocked
  fetch_hops (suc rounds) url =
      respond rounds (λ target. fetch_hops rounds target) url (fetch (suc rounds) url)

  -- `_handle` of `make_route_handler`; a page allows five redirects.
  unfoldable pub handle : (url resource_type : String) → Handled
  unfolding fetch_hops checked
  handle url resource_type = checked (check 6 url) (
      if resource_type == "document"
      then fetch_hops 6 url
      else record { route = continued; fetched = [] })

  -- `_handle` of `make_websocket_route_handler`: whether the socket is connected to its server.
  unfoldable pub handle_websocket : (String → String) → String → Bool
  handle_websocket to_http url = has_passed (check 0 (to_http url))

  -- Each URL passed the check of its round, of `n` rounds.
  abbrev pub all_passed : ℕ → List String → Bool
  all_passed n [] = true
  all_passed zero (url ∷ urls) = false
  all_passed (suc n) (url ∷ urls) = has_passed (check (suc n) url) && all_passed n urls

  -- Every URL fetched passed the check before it, and there are at most `n`.
  pub record IsVetted (n : ℕ) (h : Handled) : Type 0 where
    pub vetted : all_passed n h.fetched ≡ true
    pub few : length h.fetched ≤ n

  abbrev Passed : ℕ → String → Type 0
  Passed n url = has_passed (check n url) ≡ true

  checked-IsVetted :
      (n : ℕ) (v : Verdict) (onward : Handled)
      → (has_passed v ≡ true → IsVetted n onward)
      → IsVetted n (checked v onward)
  unfolding checked
  checked-IsVetted n passes onward h = h refl
  checked-IsVetted zero unsafe onward h = record { vetted = refl; few = omega arith }
  checked-IsVetted (suc n) unsafe onward h = record { vetted = refl; few = omega arith }
  checked-IsVetted zero raises onward h = record { vetted = refl; few = omega arith }
  checked-IsVetted (suc n) raises onward h = record { vetted = refl; few = omega arith }

  visited :
      (n : ℕ) (url : String) (h : Handled)
      → Passed (suc n) url
      → IsVetted n h
      → IsVetted (suc n) (visit url h)
  visited n url h good rest = record {
    vetted = rw good (rest.vetted);
    few = omega (arith, rest.few);
  }

  ended : (n : ℕ) (route : Route) → IsVetted n (record { route = route; fetched = [] })
  ended zero route = record { vetted = refl; few = omega arith }
  ended (suc n) route = record { vetted = refl; few = omega arith }

  respond-IsVetted :
      (n : ℕ) (loop : String → Handled) (url : String) (o : Option Fetched)
      → Passed (suc n) url
      → ((target : String) → Passed n target → IsVetted n (loop target))
      → IsVetted (suc n) (respond n loop url o)
  unfolding respond
  respond-IsVetted n loop url none h k = visited n url _ h (ended n _)
  respond-IsVetted n loop url (some r) h k = elim (Bool-cases (redirects r)) [
    | inr done ↦ rw done (visited n url _ h (ended n _))
    | inl onward ↦
        let target = urljoin url (text_or r.location "") in
        rw onward (visited n url _ h (checked-IsVetted n (check n target) (loop target) (k target)))
  ]

  fetch_hops-IsVetted :
      (rounds : ℕ) (url : String) → Passed rounds url → IsVetted rounds (fetch_hops rounds url)
  unfolding fetch_hops
  fetch_hops-IsVetted zero url h = ended zero _
  fetch_hops-IsVetted (suc rounds) url h =
      respond-IsVetted rounds _ url (fetch (suc rounds) url) h (fetch_hops-IsVetted rounds)

-- The request is not let through.
abbrev pub is_stopped : Route → Bool
is_stopped (aborted reason) = true
is_stopped continued = false
is_stopped (fulfilled url) = false
is_stopped open_still = true

stopped :
    (v : Verdict) (onward : Handled)
    → (if has_passed v then true else is_stopped (checked v onward).route) ≡ true
unfolding checked
stopped passes onward = refl
stopped unsafe onward = refl
stopped raises onward = refl

-- Each URL that the route handler itself fetches for a document passed the check right before, redirect targets
-- included and whatever the check says at other times; there are at most six; and a routed request whose
-- own URL does not pass is not let through. What the browser itself loads for a request that is let
-- through is not stated.
pub handle-IsVetted :
    (check : ℕ → String → Verdict) (fetch : ℕ → String → Option Fetched)
    (urljoin : String → String → String) (url resource_type : String)
    → IsVetted check fetch urljoin 6 (handle check fetch urljoin url resource_type)
      × ((if has_passed (check 6 url)
            then true
            else is_stopped (handle check fetch urljoin url resource_type).route)
          ≡ true)
unfolding handle checked
handle-IsVetted check fetch urljoin url resource_type = (
  checked-IsVetted check fetch urljoin 6 (check 6 url) _ (λ good.
      elim (Bool-cases (resource_type == "document")) [
        | inl document ↦ rw document (fetch_hops-IsVetted check fetch urljoin 6 url good)
        | inr other ↦ rw other (ended check fetch urljoin 6 _)
      ]),
  stopped (check 6 url) _,
)
