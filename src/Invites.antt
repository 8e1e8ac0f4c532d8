-- ===== src/Invites.antt =====
-- app/db.py, the `invite_tokens` table. `is_uuid` stands for `uuid.UUID(token)` not raising, and the
-- token of a new row, which the database generates, is an argument.
pub mod Laws
use career_spyder.Prelude.{
  ℕ, zero, suc, ◌+◌, ◌*◌, String, ◌==◌, Bool, true, false, not, ◌&&◌, Option, none, some, List, [],
  ◌∷◌, ◌++◌, map, filter, find, is_none, if◌then◌else◌, nat_eq, ltb, leb,
}
use career_spyder.Database.{Database, InviteRow}
use career_spyder.Table.{update_where, count_where}
use career_spyder.Sort.{sort}

abbrev pub microseconds_per_day : ℕ
microseconds_per_day = 86_400_000_000

unfoldable pub create_invite :
    (now : ℕ) (token email created_by : String) (expires_in_days : ℕ)
    → Database
    → Database × InviteRow
create_invite now token email created_by expires_in_days db =
    let invite : InviteRow = record {
      token = token;
      email = email;
      created_by = created_by;
      created_at = now;
      expires_at = now + expires_in_days * microseconds_per_day;
      used_at = none;
    } in
    (record db { invites = db.invites ++ invite ∷ [] }, invite)

abbrev pub revocable : String → String → InviteRow → Bool
revocable created_by token i = i.token == token && (i.created_by == created_by && is_none i.used_at)

module _ (is_uuid : String → Bool) where
  unfoldable pub get_invite : String → Database → Option InviteRow
  get_invite token db =
      if is_uuid token then find (λ (i : InviteRow). i.token == token) db.invites else none

  unfoldable pub revoke_invite : ℕ → String → String → Database → Database × Bool
  revoke_invite now created_by token db =
      if is_uuid token
      then (
        record db {
          invites =
              update_where (revocable created_by token)
                (λ (i : InviteRow). record i { expires_at = now }) db.invites;
        },
        nat_eq (count_where (revocable created_by token) db.invites) 1,
      )
      else (db, false)

  unfoldable pub resend_invite :
      ℕ → (new_token created_by token : String) → Database → Database × Option InviteRow
  resend_invite now new_token created_by token db =
      if is_uuid token
      then (elim (find (revocable created_by token) db.invites) [
        | none ↦ (db, none)
        | some old ↦
            let lapsed = record db {
              invites =
                  update_where (λ (i : InviteRow). i.token == token)
                    (λ (i : InviteRow). record i { expires_at = now }) db.invites;
            } in
            let made = create_invite now new_token old.email created_by 7 lapsed in
            (made.0, some made.1)
      ])
      else (db, none)

abbrev pub claimable : String → InviteRow → Bool
claimable token i = i.token == token && is_none i.used_at

unfoldable pub claim_invite : ℕ → String → Database → Database × Bool
claim_invite now token db = (
  record db {
    invites =
        update_where (claimable token) (λ (i : InviteRow). record i { used_at = some now })
          db.invites;
  },
  nat_eq (count_where (claimable token) db.invites) 1,
)

-- The rollback first undoes what the failed request had not committed: `db` is the committed state.
unfoldable pub release_invite : String → Database → Database
release_invite token db = record db {
  invites =
      update_where (λ (i : InviteRow). i.token == token)
        (λ (i : InviteRow). record i { used_at = none }) db.invites;
}

pub data InviteStatus : Type 0 where
  accepted : InviteStatus
  expired : InviteStatus
  pending : InviteStatus

unfoldable pub invite_status : ℕ → InviteRow → InviteStatus
invite_status now i = elim i.used_at [
  | some t ↦ accepted
  | none ↦ if ltb i.expires_at now then expired else pending
]

-- Newest first.
unfoldable pub list_invites : ℕ → String → Database → List (InviteRow × InviteStatus)
unfolding invite_status
list_invites now created_by db =
    map (λ (i : InviteRow). (i, invite_status now i))
      (sort (λ (a b : InviteRow). leb b.created_at a.created_at)
        (filter (λ (i : InviteRow). i.created_by == created_by) db.invites))
