-- ===== src/Web/Register/Steps.antt =====
-- A registration is a sequence of the commits of a race (app/web/routes_auth.py).
use career_spyder.Prelude.{
  ℕ, ◌+◌, ◌-◌, ◌≡◌, refl, ap, String, ◌==◌, Bool, true, false, not, ◌&&◌, ◌||◌, List, [], ◌∷◌, ◌++◌,
  Bool-cases, inl, inr, is_some, any, length, arith,
}
use career_spyder.Result.{Result, ok, err}
use career_spyder.Database.{Database, UserRow}
use career_spyder.Accounts.{
  create_user, get_user_by_username, get_user_by_email, seed_settings, save_settings,
  upsert_settings,
}
use career_spyder.Accounts.Session.{Session}
use career_spyder.Invites.{claim_invite, release_invite}
use career_spyder.Web.{Site, Host}
use career_spyder.Web.Register.{Applicant, enroll, admit_user, welcome}
use career_spyder.Web.Register.Race.{
  Race, claims, misses, creates, releases, Reach, here, next, IsSingle, Reach-IsSingle,
}

Reach-trans :
    {is_uuid : String → Bool} {token : String} {s t u : Race}
    → Reach is_uuid token s t
    → Reach is_uuid token t u
    → Reach is_uuid token s u
Reach-trans r here = r
Reach-trans r (next q step) = next (Reach-trans r q) step

-- Whether a registration claims the invite and goes on to the insert.
abbrev pub inserts : ℕ → Applicant → (email : String) → Database → Bool
inserts now a email db =
    not (is_some (get_user_by_username a.username db) || is_some (get_user_by_email email db))
    && (claim_invite now a.token db).1

length-append_one : (u : UserRow) (us : List UserRow) → length (us ++ u ∷ []) ≡ length us + 1
length-append_one u [] = refl
length-append_one u (v ∷ us) = ground (arith, length-append_one u us)

seeded_users :
    (user_id host : String) (port : ℕ) (user from to : String) (db : Database)
    → (seed_settings user_id host port user from to db).users ≡ db.users
unfolding seed_settings save_settings upsert_settings
seeded_users user_id host port user from to db = ground arith

created_users :
    (now : ℕ) (id username email hash role : String) (db new : Database) (user : UserRow)
    → create_user now id username email hash role db ≡ ok (new, user)
    → length new.users ≡ length db.users + 1
unfolding create_user
created_users now id username email hash role db new user e =
    elim (Bool-cases (any (λ (u : UserRow). u.username == username || u.email == email) db.users)) [
      | inl f ↦ ground (arith, e, f)
      | inr f ↦ ground (arith, e, f, length-append_one user db.users)
    ]

-- The state of the race after the insert, the accounts counted by the rows that it adds.
abbrev after : Race → (h : ℕ) → Database → Race
after u h db = record {
  db = db;
  holding = h;
  made = u.made + (length db.users - length u.db.users);
}

none_added : (m : ℕ) (us : List UserRow) → m + (length us - length us) ≡ m
none_added m us = omega arith

admitted_Reach :
    (host : Host) (now : ℕ) (a : Applicant) (email : String) (site : Site) (session : Session)
    (s u : Race) (h : ℕ) (created : Result (Database × UserRow))
    → u.holding ≡ h + 1
    → create_user now a.id a.username email (host.hash_password a.password) "member" u.db ≡ created
    → Reach host.is_uuid a.token s u
    → Reach host.is_uuid a.token s (after u h (admit_user host a created u.db site session).site.db)
unfolding admit_user welcome release_invite
admitted_Reach host now a email site session s u h (ok (db, user)) held e r =
    let one : length (seed_settings user.id "" 587 "" "" "" db).users - length u.db.users ≡ 1 =
      ground (
        arith,
        ap length (seeded_users user.id "" 587 "" "" "" db),
        created_users now a.id a.username email _ "member" u.db db user e,
      ) in
    rw one (next r (creates u now a.id a.username email _ db user h held e))
admitted_Reach host now a email site session s u h (err error) held e r =
    rw (none_added u.made u.db.users)
      (next r (releases u now a.id a.username email _ error h held e))

-- The state of the race that a registration leaves: `h` and `n` are counted once it holds its claim, `k`
-- and `m` before; the accounts made are counted by the rows that are added.
abbrev pub left : (inserted : Bool) (site racing : Database) (k m h n : ℕ) → Database → Race
left true site racing k m h n db = after (record { db = racing; holding = h + 1; made = n }) h db
left false site racing k m h n db = after (record { db = site; holding = k; made = m }) k db

enroll-Reach :
    (host : Host) (now : ℕ) (racing : Database → Database) (a : Applicant) (email : String)
    (site : Site) (session : Session) (k m h n : ℕ)
    → Reach host.is_uuid a.token
        (record { db = (claim_invite now a.token site.db).0; holding = k + 1; made = m })
        (record { db = racing (claim_invite now a.token site.db).0; holding = h + 1; made = n })
    → Reach host.is_uuid a.token
        (record { db = site.db; holding = k; made = m })
        (left
          (inserts now a email site.db)
          site.db
          (racing (claim_invite now a.token site.db).0)
          k
          m
          h
          n
          (enroll host now racing a email site session).site.db)
unfolding enroll
enroll-Reach host now racing a email site session k m h n others =
    let s : Race = record { db = site.db; holding = k; made = m } in
    elim (Bool-cases (is_some (get_user_by_username a.username site.db))) [
      | inl e ↦ rw e (rw (none_added m site.db.users) here)
      | inr e ↦ rw e (elim (Bool-cases (is_some (get_user_by_email email site.db))) [
        | inl f ↦ rw f (rw (none_added m site.db.users) here)
        | inr f ↦ rw f (elim (Bool-cases (claim_invite now a.token site.db).1) [
          | inr g ↦
              rw g (
                unfold claim_invite in rw (none_added m site.db.users) (next here (misses s now g)))
          | inl g ↦ rw g (
              admitted_Reach host now a email site session s _ h _ refl refl
                (Reach-trans (next here (claims s now g)) others))
        ])
      ])
    ]

-- A registration, with whatever `racing` commits between its claim and its insert, keeps the one invite for
-- one account: if at most one of a claimable row, a held claim and an account made with the token was there
-- before, the same holds after it, where it holds no claim any more and the rows that it adds to the users
-- are counted as accounts made with the token.
pub enroll-IsSingle :
    (host : Host) (now : ℕ) (racing : Database → Database) (a : Applicant) (email : String)
    (site : Site) (session : Session) (k m h n : ℕ)
    → IsSingle a.token (record { db = site.db; holding = k; made = m })
    → Reach host.is_uuid a.token
        (record { db = (claim_invite now a.token site.db).0; holding = k + 1; made = m })
        (record { db = racing (claim_invite now a.token site.db).0; holding = h + 1; made = n })
    → IsSingle a.token (
        left
          (inserts now a email site.db)
          site.db
          (racing (claim_invite now a.token site.db).0)
          k
          m
          h
          n
          (enroll host now racing a email site session).site.db)
enroll-IsSingle host now racing a email site session k m h n single others =
    Reach-IsSingle host.is_uuid a.token _ _ single
      (enroll-Reach host now racing a email site session k m h n others)
