-- ===== src/RateLimit/Window.antt =====
-- The limiter over a sequence of attempts with one key.
use career_spyder.Prelude.{
  ◌==◌, ℕ, ◌+◌, ◌≤◌, String, ◌≡◌, refl, ap, ◌∙◌, sym, Bool, false, List, [], ◌∷◌, ◌++◌, ltb, leb,
  length, filter, All, length-append, filter-append, All-append, if◌then◌else◌, Bool-cases, arith,
  inl, inr, eq_refl, elem,
}
use mathlib.Core.List.{append-nil}
use career_spyder.RateLimit.{expire, admit, check, Buckets, client_ip, Request, direct_host}

-- Stamps that still count at `now`.
abbrev pub in_window : ℕ → ℕ → ℕ → Bool
in_window now window stamp = leb now (stamp + window)

abbrev IsSorted : List ℕ → Type 0
IsSorted [] = Unit
IsSorted (x ∷ xs) = All (λ y. x ≤ y) xs × IsSorted xs

-- The queue, and every accepted stamp since the start.
pub record Trace : Type 0 where
  pub dq : List ℕ
  pub log : List ℕ

abbrev pub start : Trace
start = record { dq = []; log = [] }

-- One attempt at the time `now`.
unfoldable pub attempt : ℕ → ℕ → Trace → ℕ → Trace
attempt max_attempts window s now =
    let done = admit now max_attempts window s.dq in
    record { dq = done.0; log = s.log ++ (if done.1 then now ∷ [] else []) }

unfoldable pub attempts : ℕ → ℕ → Trace → List ℕ → Trace
attempts max_attempts window s [] = s
attempts max_attempts window s (now ∷ later) =
    attempts max_attempts window (attempt max_attempts window s now) later

-- The clock does not go back.
abbrev pub IsOrdered : ℕ → List ℕ → Type 0
IsOrdered before [] = Unit
IsOrdered before (t ∷ ts) = (before ≤ t) × IsOrdered t ts

abbrev pub last_time : ℕ → List ℕ → ℕ
last_time before [] = before
last_time before (t ∷ ts) = last_time t ts

filter-All_in :
    (now window x : ℕ) (dq : List ℕ)
    → now ≤ x + window
    → All (λ y. x ≤ y) dq
    → filter (in_window now window) dq ≡ dq
filter-All_in now window x [] h k = refl
filter-All_in now window x (y ∷ dq) h k = ground (arith, k.0, filter-All_in now window x dq h k.1)

expire-eq-filter :
    (now window : ℕ) (dq : List ℕ)
    → IsSorted dq
    → expire now window dq ≡ filter (in_window now window) dq
unfolding expire
expire-eq-filter now window [] h = refl
expire-eq-filter now window (x ∷ dq) h = elim (Bool-cases (ltb (x + window) now)) [
  | inl e ↦ ground (arith, expire-eq-filter now window dq h.1)
  | inr e ↦ ground (arith, filter-All_in now window x dq (ground arith) h.0)
]

filter_later :
    (before now window : ℕ) (log : List ℕ)
    → before ≤ now
    → filter (in_window now window) (filter (in_window before window) log)
      ≡ filter (in_window now window) log
filter_later before now window [] h = refl
filter_later before now window (x ∷ log) h = ground (arith, filter_later before now window log h)

filter_now : (now window : ℕ) → filter (in_window now window) (now ∷ []) ≡ now ∷ []
filter_now now window = ground arith

All-later :
    (before now : ℕ) (xs : List ℕ) → before ≤ now → All (λ x. x ≤ before) xs → All (λ x. x ≤ now) xs
All-later before now [] h k = tt
All-later before now (x ∷ xs) h k = (omega arith, All-later before now xs h k.1)

append-IsSorted :
    (xs : List ℕ) (now : ℕ) → IsSorted xs → All (λ x. x ≤ now) xs → IsSorted (xs ++ now ∷ [])
append-IsSorted [] now h k = (tt, tt)
append-IsSorted (x ∷ xs) now h k =
    (All-append _ xs (now ∷ []) h.0 (k.0, tt), append-IsSorted xs now h.1 k.1)

All-filter_of : (P : ℕ → Type 0) (p : ℕ → Bool) (xs : List ℕ) → All P xs → All P (filter p xs)
All-filter_of P p [] h = tt
All-filter_of P p (x ∷ xs) h = elim (Bool-cases (p x)) [
  | inl e ↦ rw e (h.0, All-filter_of P p xs h.1)
  | inr e ↦ rw e (All-filter_of P p xs h.1)
]

filter-IsSorted : (p : ℕ → Bool) (xs : List ℕ) → IsSorted xs → IsSorted (filter p xs)
filter-IsSorted p [] h = tt
filter-IsSorted p (x ∷ xs) h = elim (Bool-cases (p x)) [
  | inl e ↦ rw e (All-filter_of _ p xs h.0, filter-IsSorted p xs h.1)
  | inr e ↦ rw e (filter-IsSorted p xs h.1)
]

length-expire-le : (now window : ℕ) (dq : List ℕ) → length (expire now window dq) ≤ length dq
unfolding expire
length-expire-le now window [] = omega arith
length-expire-le now window (x ∷ dq) = ground (arith, length-expire-le now window dq)

-- What holds between attempts: the queue is the accepted stamps of the window.
record IsWindow (max_attempts window before : ℕ) (s : Trace) : Type 0 where
  queue : s.dq ≡ filter (in_window before window) s.log
  sorted : IsSorted s.log
  past : All (λ x. x ≤ before) s.log
  few : length s.dq ≤ max_attempts

module _ (max_attempts window before now : ℕ) (s : Trace) (order : before ≤ now) where
  live_queue :
      IsWindow max_attempts window before s
      → expire now window s.dq ≡ filter (in_window now window) s.log
  live_queue h = rw h.queue (
      expire-eq-filter now window _ (filter-IsSorted _ s.log h.sorted)
      ∙ filter_later before now window s.log order)

  attempt-IsWindow :
      IsWindow max_attempts window before s
      → IsWindow max_attempts window now (attempt max_attempts window s now)
  unfolding attempt admit
  attempt-IsWindow h = elim (Bool-cases (leb max_attempts (length (expire now window s.dq)))) [
    | inl full ↦ rw full (record {
      queue = live_queue h ∙ ap (filter (in_window now window)) (sym (append-nil s.log));
      sorted = rw (append-nil s.log) h.sorted;
      past = rw (append-nil s.log) (All-later before now s.log order h.past);
      few = omega (arith, length-expire-le now window s.dq);
    })
    | inr room ↦ rw room (record {
      queue =
          ap (λ q. q ++ now ∷ []) (live_queue h)
          ∙ sym (
              filter-append (in_window now window) s.log (now ∷ [])
              ∙ ap (λ q. filter (in_window now window) s.log ++ q) (filter_now now window));
      sorted = append-IsSorted s.log now h.sorted (All-later before now s.log order h.past);
      past =
          All-append _ s.log (now ∷ []) (All-later before now s.log order h.past) (omega arith, tt);
      few = rw (length-append (expire now window s.dq) (now ∷ [])) (ground arith);
    })
  ]

attempts-IsWindow :
    (max_attempts window before : ℕ) (s : Trace) (times : List ℕ)
    → IsOrdered before times
    → IsWindow max_attempts window before s
    → IsWindow max_attempts window (last_time before times) (attempts max_attempts window s times)
unfolding attempts
attempts-IsWindow max_attempts window before s [] o h = h
attempts-IsWindow max_attempts window before s (t ∷ ts) o h =
    attempts-IsWindow max_attempts window t _ ts o.1
      (attempt-IsWindow max_attempts window before t s o.0 h)

-- Whatever the times of the attempts with one key, as long as the clock does not go back: at the
-- last of them at most `max_attempts` attempts of the trailing window were let through.
pub attempts-in_window-le-max :
    (max_attempts window first : ℕ) (times : List ℕ)
    → IsOrdered first times
    → length (
        filter
          (in_window (last_time first times) window)
          (attempts max_attempts window start times).log)
      ≤ max_attempts
attempts-in_window-le-max max_attempts window first times o =
    let h =
      attempts-IsWindow max_attempts window first start times o
        (record { queue = refl; sorted = tt; past = tt; few = omega arith }) in
    rw (← h.queue) h.few

-- A check lets an attempt through exactly when fewer than `max_attempts` stamps of its key are
-- left in the window; then its stamp is added, otherwise nothing is, and no other key's queue
-- changes.
pub check_lem :
    (now : ℕ) (key : String) (max_attempts window : ℕ) (buckets : Buckets)
    → ((check now key max_attempts window buckets).1
        ≡ ltb (length (expire now window (buckets key))) max_attempts)
      × ((check now key max_attempts window buckets).0 key
          ≡ expire now window (buckets key)
            ++ (if (check now key max_attempts window buckets).1 then now ∷ [] else []))
      × ((other : String)
          → (check now key max_attempts window buckets).0 other ≡ (
              if other == key
              then (check now key max_attempts window buckets).0 key
              else buckets other))
unfolding check admit
check_lem now key max_attempts window buckets = (
  ground arith,
  rw (eq_refl key) (ground (arith, append-nil (expire now window (buckets key)))),
  λ other. rw (eq_refl key) refl,
)

-- The headers of a peer that is no trusted proxy are ignored: its address is the connection's.
pub client_ip_untrusted :
    (trusted : List String) (request : Request)
    → elem (direct_host request.client_host) trusted ≡ false
    → client_ip trusted request ≡ direct_host request.client_host
unfolding client_ip
client_ip_untrusted trusted request h = rw h
