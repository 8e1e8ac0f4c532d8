-- ===== src/Ssrf/Hops.antt =====
-- What a guarded request may dial, hop by hop.
use career_spyder.Prelude.{
  length-append, All-append, Option, ℕ, zero, suc, ◌≤◌, ◌≡◌, refl, String, true, false, arith, All,
  length, ◌+◌, some, none,
}
use career_spyder.Ssrf.Addresses.{scheme_of, conn_parsed-allowed, assert_safe_url-scheme}
use career_spyder.Ssrf.{
  proceed, on_result, safe_request, Answered, follow, start_hops, Ip, Net, Response,
  is_disallowed_ip, assert_safe_url, allowed_scheme, new_conn, Dialled, request, request_on, hops,
}
use career_spyder.Result.{Result, ok, err}

module _ (net : Net) where
  -- The address is public, and the URL's scheme is http or https.
  abbrev pub IsSafe : Dialled net → Type 0
  IsSafe d =
      (is_disallowed_ip net.registry d.ip ≡ false)
      × (allowed_scheme net (scheme_of (net.urlparse d.url)) ≡ true)

  request-IsSafe :
      (now : ℕ) (url : String)
      → allowed_scheme net (scheme_of (net.urlparse url)) ≡ true
      → All IsSafe (request net now url).dialled
  unfolding request request_on new_conn
  request-IsSafe now url scheme = go (new_conn net now url) refl
    where
      go :
          (r : Result Ip) → new_conn net now url ≡ r → All IsSafe (request_on net now url r).dialled
      go (err e) h = tt
      go (ok ip) h = ((conn_parsed-allowed net now (net.urlparse url) ip h, scheme), tt)

  length-request : (now : ℕ) (url : String) → length (request net now url).dialled ≤ 1
  unfolding request request_on
  length-request now url = go (new_conn net now url)
    where
      go : (r : Result Ip) → length (request_on net now url r).dialled ≤ 1
      go (err e) = omega arith
      go (ok ip) = omega arith

  -- All connections are safe, and there are at most `n` of them.
  pub record IsGuarded (n : ℕ) (a : Answered net) : Type 0 where
    pub safe : All IsSafe a.dialled
    pub few : length a.dialled ≤ n

  -- The rest of the loop, entered with a URL of an allowed scheme.
  abbrev Rest : ℕ → (String → Answered net) → Type 0
  Rest n rest =
      (target : String)
      → allowed_scheme net (scheme_of (net.urlparse target)) ≡ true
      → IsGuarded n (rest target)

  proceed-IsGuarded :
      (n now : ℕ) (first : Answered net) (rest : String → Answered net) (target : String)
      (r : Result Ip)
      → assert_safe_url net now target ≡ r
      → IsGuarded 1 first
      → Rest n rest
      → IsGuarded (suc n) (proceed net first rest target r)
  unfolding proceed
  proceed-IsGuarded n now first rest target (err e) h f k = record {
    safe = f.safe;
    few = omega arith;
  }
  proceed-IsGuarded n now first rest target (ok ip) h f k =
      let after = k target (assert_safe_url-scheme net now target ip h) in
      record {
        safe = All-append IsSafe first.dialled (rest target).dialled f.safe after.safe;
        few = rw (length-append first.dialled (rest target).dialled) (omega arith);
      }

  follow-IsGuarded :
      (n now : ℕ) (first : Answered net) (rest : String → Answered net) (o : Option String)
      → IsGuarded 1 first
      → Rest n rest
      → IsGuarded (suc n) (follow net now first rest o)
  unfolding follow
  follow-IsGuarded n now first rest none f k = record { safe = f.safe; few = omega arith }
  follow-IsGuarded n now first rest (some target) f k =
      proceed-IsGuarded n now first rest target _ refl f k

  on_result-IsGuarded :
      (n now : ℕ) (url : String) (first : Answered net) (rest : String → Answered net)
      (r : Result Response)
      → IsGuarded 1 first
      → Rest n rest
      → IsGuarded (suc n) (on_result net now url first rest r)
  unfolding on_result
  on_result-IsGuarded n now url first rest (err e) f k = record { safe = f.safe; few = omega arith }
  on_result-IsGuarded n now url first rest (ok r) f k = follow-IsGuarded n now first rest _ f k

  hops-IsGuarded : (rounds now : ℕ) → Rest rounds (hops net rounds now)
  unfolding hops
  hops-IsGuarded zero now url scheme = record { safe = tt; few = omega arith }
  hops-IsGuarded (suc rounds) now url scheme =
      on_result-IsGuarded rounds (suc now) url (request net now url)
        (hops net rounds (suc (suc now))) (request net now url).result
        (record { safe = request-IsSafe now url scheme; few = length-request now url })
        (hops-IsGuarded rounds (suc (suc now)))

  start-IsGuarded :
      (n now : ℕ) (url : String) (loop : String → Answered net) (r : Result Ip)
      → assert_safe_url net now url ≡ r
      → Rest (suc n) loop
      → IsGuarded (n + 1) (start_hops net loop url r)
  unfolding start_hops
  start-IsGuarded n now url loop (err e) h k = record { safe = tt; few = omega arith }
  start-IsGuarded n now url loop (ok ip) h k =
      let run = k url (assert_safe_url-scheme net now url ip h) in
      record { safe = run.safe; few = omega arith }

-- Whatever names resolve to, at whatever moment, and wherever servers redirect to: every connection
-- that a guarded request opens dials a public address for an http or https URL, and there are at
-- most `max_redirects + 1` of them.
pub safe_request-IsGuarded :
    (net : Net) (max_redirects now : ℕ) (url : String)
    → IsGuarded net (max_redirects + 1) (safe_request net max_redirects now url)
unfolding safe_request
safe_request-IsGuarded net max_redirects now url =
    start-IsGuarded net max_redirects now url (hops net (suc max_redirects) (suc now)) _ refl
      (hops-IsGuarded net (suc max_redirects) (suc now))
