-- ===== src/RateLimit.antt =====
-- app/web/ratelimit.py: the sliding-window limiter. The monotonic clock is a native number, and
-- `dq[0] < now - window` is written without subtraction. `_lock` makes `check` one step.
pub mod Window
use career_spyder.Prelude.{
  ℕ, ◌+◌, String, ◌==◌, Bool, true, false, Option, none, some, List, [], ◌∷◌, ◌++◌, ltb, leb,
  length, elem, if◌then◌else◌, not, nonempty,
}
use career_spyder.Text.{strip, split, last}
use Prim.Native.String

abbrev pub Buckets : Type 0
Buckets = String → List ℕ

-- `while dq and dq[0] < cutoff: dq.popleft()`
unfoldable pub expire : ℕ → ℕ → List ℕ → List ℕ
expire now window [] = []
expire now window (stamp ∷ dq) =
    let rest = expire now window dq in if ltb (stamp + window) now then rest else stamp ∷ dq

abbrev pub put : Buckets → String → List ℕ → Buckets
put buckets key dq k = if k == key then dq else buckets k

-- `check` on the queue of its key.
unfoldable pub admit : ℕ → ℕ → ℕ → List ℕ → List ℕ × Bool
admit now max_attempts window dq =
    let live = expire now window dq in
    if leb max_attempts (length live) then (live, false) else (live ++ now ∷ [], true)

-- The source reads the clock before it takes the lock; here the reading and the update are one step.
unfoldable pub check : ℕ → String → ℕ → ℕ → Buckets → Buckets × Bool
check now key max_attempts window buckets =
    let done = admit now max_attempts window (buckets key) in (put buckets key done.0, done.1)

unfoldable pub clear : Buckets → Buckets
clear buckets k = []

pub record Request : Type 0 where
  pub client_host : Option String
  pub forwarded_for : String
  pub real_ip : String

unfoldable pub direct_host : Option String → String
direct_host none = "unknown"
direct_host (some host) = host

-- The headers count only behind a trusted proxy; a missing header is the empty text.
unfoldable pub client_ip : List String → Request → String
unfolding direct_host
client_ip trusted request =
    let direct = direct_host request.client_host in
    if not (elem direct trusted)
    then direct
    else if nonempty request.forwarded_for
    then strip (last (split b',' request.forwarded_for))
    else if nonempty request.real_ip
    then strip request.real_ip
    else direct

unfoldable pub rate_limit : ℕ → List String → Request → String → ℕ → ℕ → Buckets → Buckets × Bool
unfolding check client_ip
rate_limit now trusted request endpoint max_attempts window =
    check now (String.◌++◌ endpoint (String.◌++◌ ":" (client_ip trusted request))) max_attempts
      window
