-- ===== src/Web/Register/Race.antt =====
-- Registrations with one invite, and the requests that run between their commits (app/web/routes_auth.py
-- over app/db.py): the claim is committed before the insert, so other requests may come in between.
use career_spyder.Table.Laws.{count-update_where, count-append_one}
use career_spyder.Invites.Laws.{none_left, all_free, count-token-claim}
use career_spyder.Prelude.{
  refl, eq_iff, inl, inr, arith, [], ◌∷◌, none, some, if◌then◌else◌, Bool-cases, List, ◌++◌, ◌∙◌,
  ◌||◌, any, find, Option-cases, ℕ, ◌+◌, ◌≤◌, ◌≡◌, ◌≢◌, String, ◌==◌, Bool, true, false,
}
use career_spyder.Result.{ok, err, Error}
use career_spyder.Database.{Database, UserRow, InviteRow}
use career_spyder.Table.{count_where, update_where}
use career_spyder.Accounts.{create_user, seed_settings, save_settings, upsert_settings}
use career_spyder.Invites.{
  revocable, claimable, claim_invite, release_invite, create_invite, revoke_invite, resend_invite,
}

-- The committed database, the requests that have claimed the token and not yet used or released it, and
-- the accounts made with it.
pub record Race : Type 0 where
  pub db : Database
  pub holding : ℕ
  pub made : ℕ

-- One commit.
pub data Step (is_uuid : String → Bool) (token : String) : Race → Race → Type 0 where
  claims :
      (s : Race) (now : ℕ)
      → (claim_invite now token s.db).1 ≡ true
      → Step is_uuid token s
          (record s { db = (claim_invite now token s.db).0; holding = s.holding + 1 })
  misses :
      (s : Race) (now : ℕ)
      → (claim_invite now token s.db).1 ≡ false
      → Step is_uuid token s (record s { db = (claim_invite now token s.db).0 })
  creates :
      (s : Race) (now : ℕ) (id username email hash : String) (db : Database) (user : UserRow)
      (h : ℕ)
      → s.holding ≡ h + 1
      → create_user now id username email hash "member" s.db ≡ ok (db, user)
      → Step is_uuid token s
          (record { db = seed_settings user.id "" 587 "" "" "" db; holding = h; made = s.made + 1 })
  releases :
      (s : Race) (now : ℕ) (id username email hash : String) (e : Error) (h : ℕ)
      → s.holding ≡ h + 1
      → create_user now id username email hash "member" s.db ≡ err e
      → Step is_uuid token s (record s { db = release_invite token s.db; holding = h })
  claims_other :
      (s : Race) (now : ℕ) (other : String)
      → other ≢ token
      → Step is_uuid token s (record s { db = (claim_invite now other s.db).0 })
  releases_other :
      (s : Race) (other : String)
      → other ≢ token
      → Step is_uuid token s (record s { db = release_invite other s.db })
  invites :
      (s : Race) (now : ℕ) (fresh email created_by : String) (days : ℕ)
      → fresh ≢ token
      → Step is_uuid token s
          (record s { db = (create_invite now fresh email created_by days s.db).0 })
  resends :
      (s : Race) (now : ℕ) (fresh created_by other : String)
      → fresh ≢ token
      → Step is_uuid token s
          (record s { db = (resend_invite is_uuid now fresh created_by other s.db).0 })
  revokes :
      (s : Race) (now : ℕ) (created_by other : String)
      → Step is_uuid token s (record s { db = (revoke_invite is_uuid now created_by other s.db).0 })
  -- A request that leaves the invites alone; an account that it makes is not one of this token's.
  others :
      (s : Race) (db : Database)
      → db.invites ≡ s.db.invites
      → Step is_uuid token s (record s { db = db })

pub data Reach (is_uuid : String → Bool) (token : String) (s : Race) : Race → Type 0 where
  here : Reach is_uuid token s s
  next : {t u : Race} → Reach is_uuid token s t → Step is_uuid token t u → Reach is_uuid token s u

abbrev with_token : String → InviteRow → Bool
with_token token i = i.token == token

-- At most one row has the token, and at most one of: it can be claimed, it is held, it made an account.
abbrev pub IsSingle : String → Race → Type 0
IsSingle token s =
    (count_where (with_token token) s.db.invites ≤ 1)
    × (count_where (claimable token) s.db.invites + s.holding + s.made ≤ 1)

created_invites :
    (now : ℕ) (id username email hash role : String) (db : Database) (made : Database × UserRow)
    → create_user now id username email hash role db ≡ ok made
    → made.0.invites ≡ db.invites
unfolding create_user
created_invites now id username email hash role db made h =
    elim (Bool-cases (any (λ (u : UserRow). u.username == username || u.email == email) db.users)) [
      | inl e ↦ ground (arith, e, h)
      | inr e ↦ ground (arith, e, h)
    ]

seeded_invites :
    (user_id host : String) (port : ℕ) (user from to : String) (db : Database)
    → (seed_settings user_id host port user from to db).invites ≡ db.invites
unfolding seed_settings save_settings upsert_settings
seeded_invites user_id host port user from to db = ground arith

-- A commit that leaves the rows with a token as they are, as far as they are counted.
abbrev IsKept : String → List InviteRow → List InviteRow → Type 0
IsKept token old new =
    (count_where (with_token token) new ≡ count_where (with_token token) old)
    × (count_where (claimable token) new ≡ count_where (claimable token) old)

module _ (token : String) (rows : List InviteRow) where
  IsKept-claim_other :
      (now : ℕ) (other : String)
      → other ≢ token
      → IsKept token rows
          (update_where (claimable other) (λ (i : InviteRow). record i { used_at = some now }) rows)
  IsKept-claim_other now other d = (
    count-update_where (with_token token) (claimable other) _ rows (λ r e. refl),
    count-update_where (claimable token) (claimable other) _ rows
        (λ r e. ground (arith, eq_iff r.token other, eq_iff r.token token)),
  )

  IsKept-release_other :
      (other : String)
      → other ≢ token
      → IsKept token rows (
          update_where
            (λ (i : InviteRow). i.token == other)
            (λ (i : InviteRow). record i { used_at = none })
            rows)
  IsKept-release_other other d = (
    count-update_where (with_token token) _ _ rows (λ r e. refl),
    count-update_where (claimable token) _ _ rows
        (λ r e. ground (arith, eq_iff r.token other, eq_iff r.token token)),
  )

  IsKept-lapse :
      (p : InviteRow → Bool) (now : ℕ)
      → IsKept token rows (update_where p (λ (i : InviteRow). record i { expires_at = now }) rows)
  IsKept-lapse p now = (
    count-update_where (with_token token) p _ rows (λ r e. refl),
    count-update_where (claimable token) p _ rows (λ r e. refl),
  )

  IsKept-append : (i : InviteRow) → i.token ≢ token → IsKept token rows (rows ++ i ∷ [])
  IsKept-append i d = (
    rw (count-append_one (with_token token) rows i) (ground (arith, eq_iff i.token token)),
    rw (count-append_one (claimable token) rows i) (ground (arith, eq_iff i.token token)),
  )

IsKept-resend :
    (is_uuid : String → Bool) (now : ℕ) (fresh created_by other token : String) (db : Database)
    → fresh ≢ token
    → IsKept token db.invites (resend_invite is_uuid now fresh created_by other db).0.invites
unfolding resend_invite create_invite
IsKept-resend is_uuid now fresh created_by other token db d = elim (Bool-cases (is_uuid other)) [
  | inr e ↦ rw e (refl, refl)
  | inl e ↦ rw e (elim (Option-cases (find (revocable created_by other) db.invites)) [
    | inl f ↦ rw f (refl, refl)
    | inr (old, f) ↦ rw f (
        let lapsed = IsKept-lapse token db.invites (λ (i : InviteRow). i.token == other) now in
        let added =
          IsKept-append token
            (update_where (λ (i : InviteRow). i.token == other)
              (λ (i : InviteRow). record i { expires_at = now }) db.invites)
            (create_invite now fresh old.email created_by 7 db).1 d in
        (added.0 ∙ lapsed.0, added.1 ∙ lapsed.1))
  ])
]

IsKept-revoke :
    (is_uuid : String → Bool) (now : ℕ) (created_by other token : String) (db : Database)
    → IsKept token db.invites (revoke_invite is_uuid now created_by other db).0.invites
unfolding revoke_invite
IsKept-revoke is_uuid now created_by other token db = elim (Bool-cases (is_uuid other)) [
  | inl e ↦ rw e (IsKept-lapse token db.invites (revocable created_by other) now)
  | inr e ↦ rw e (refl, refl)
]

kept-IsSingle :
    (token : String) (s : Race) (rows : List InviteRow)
    → IsKept token s.db.invites rows
    → IsSingle token s
    → (count_where (with_token token) rows ≤ 1)
      × (count_where (claimable token) rows + s.holding + s.made ≤ 1)
kept-IsSingle token s rows kept single = (rw (kept.0) (single.0), rw (kept.1) (single.1))

-- A claim leaves nothing to claim; it succeeds only if there was one row to claim.
claimed-IsSingle :
    (now : ℕ) (token : String) (s : Race) (won : Bool)
    → (claim_invite now token s.db).1 ≡ won
    → IsSingle token s
    → IsSingle token (record s {
      db = (claim_invite now token s.db).0;
      holding = s.holding + (if won then 1 else 0);
    })
unfolding claim_invite
claimed-IsSingle now token s won h single = (
  rw (count-token-claim now token s.db.invites) (single.0),
  rw (none_left now token s.db.invites) (ground (arith, h, single.1)),
)

released-IsSingle :
    (token : String) (s : Race) (h : ℕ)
    → s.holding ≡ h + 1
    → IsSingle token s
    → IsSingle token (record s { db = release_invite token s.db; holding = h })
unfolding release_invite
released-IsSingle token s h held single = (
  rw
      (count-update_where (with_token token) (with_token token)
        (λ (i : InviteRow). record i { used_at = none }) s.db.invites (λ r e. refl))
      (single.0),
  rw (all_free token s.db.invites) (ground (arith, single.0, single.1, held)),
)

Step-IsSingle :
    {is_uuid : String → Bool} {token : String} {s t : Race}
    → Step is_uuid token s t
    → IsSingle token s
    → IsSingle token t
unfolding claim_invite release_invite create_invite
Step-IsSingle (claims s now h) single = claimed-IsSingle now _ s true h single
Step-IsSingle (misses s now h) single = ground (arith, claimed-IsSingle now _ s false h single)
Step-IsSingle (creates s now id username email hash db user h held e) single =
    let kept =
      seeded_invites user.id "" 587 "" "" "" db
      ∙ created_invites now id username email hash "member" s.db (db, user) e in
    rw kept (ground (arith, single.0, single.1, held))
Step-IsSingle (releases s now id username email hash er h held e) single =
    released-IsSingle _ s h held single
Step-IsSingle (claims_other s now other d) single =
    kept-IsSingle _ s _ (IsKept-claim_other _ s.db.invites now other d) single
Step-IsSingle (releases_other s other d) single =
    kept-IsSingle _ s _ (IsKept-release_other _ s.db.invites other d) single
Step-IsSingle (invites s now fresh email created_by days d) single =
    kept-IsSingle _ s _
      (IsKept-append _ s.db.invites (create_invite now fresh email created_by days s.db).1 d) single
Step-IsSingle {is_uuid} (resends s now fresh created_by other d) single =
    kept-IsSingle _ s _ (IsKept-resend is_uuid now fresh created_by other _ s.db d) single
Step-IsSingle {is_uuid} (revokes s now created_by other) single =
    kept-IsSingle _ s _ (IsKept-revoke is_uuid now created_by other _ s.db) single
Step-IsSingle (others s db h) single = kept-IsSingle _ s db.invites (rw h (refl, refl)) single

-- However claims, inserts, releases and other requests follow each other, one invite makes at most one
-- account: the number of rows with the token that can be claimed, of requests that hold it and of accounts
-- made with it is at most 1 in all, if it is so at the start and at most one row has the token.
pub Reach-IsSingle :
    (is_uuid : String → Bool) (token : String) (s t : Race)
    → IsSingle token s
    → Reach is_uuid token s t
    → IsSingle token t
Reach-IsSingle is_uuid token s t single here = single
Reach-IsSingle is_uuid token s t single (next {t = u} r step) =
    Step-IsSingle step (Reach-IsSingle is_uuid token s u single r)
