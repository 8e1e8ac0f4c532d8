-- ===== src/Invites/Laws.antt =====
-- One registration for one invite, and what revoking does.
use career_spyder.Prelude.{
  ℕ, ◌<◌, ◌≡◌, refl, ap, String, ◌==◌, Bool, false, none, some, List, [], ◌∷◌, arith, Bool-cases,
  inl, inr, if◌then◌else◌, nat_eq, map,
}
use career_spyder.Database.{Database, InviteRow}
use career_spyder.Table.{update_where, count_where}
use career_spyder.Invites.{
  claimable, claim_invite, release_invite, revocable, revoke_invite, expired, invite_status,
}

pub none_left :
    (now : ℕ) (token : String) (rs : List InviteRow)
    → count_where
        (claimable token)
        (update_where (claimable token) (λ (i : InviteRow). record i { used_at = some now }) rs)
      ≡ 0
unfolding count_where update_where
none_left now token [] = refl
none_left now token (r ∷ rs) = ground (arith, none_left now token rs)

-- Once a token has been claimed no later claim of it succeeds, whether or not the first one did.
pub claim_invite_once :
    (now later : ℕ) (token : String) (db : Database)
    → (claim_invite later token (claim_invite now token db).0).1 ≡ false
unfolding claim_invite
claim_invite_once now later token db = rw (none_left now token db.invites)

pub all_free :
    (token : String) (rs : List InviteRow)
    → count_where (claimable token) (
        update_where
          (λ (i : InviteRow). i.token == token)
          (λ (i : InviteRow). record i { used_at = none })
          rs)
      ≡ count_where (λ (i : InviteRow). i.token == token) rs
unfolding count_where update_where
all_free token [] = refl
all_free token (r ∷ rs) = ground (arith, all_free token rs)

pub count-token-claim :
    (now : ℕ) (token : String) (rs : List InviteRow)
    → count_where
        (λ (i : InviteRow). i.token == token)
        (update_where (claimable token) (λ (i : InviteRow). record i { used_at = some now }) rs)
      ≡ count_where (λ (i : InviteRow). i.token == token) rs
unfolding count_where update_where
count-token-claim now token [] = refl
count-token-claim now token (r ∷ rs) = ground (arith, count-token-claim now token rs)

-- After a claim is released the token can be claimed again, exactly if one row has it.
pub claim-release-claim :
    (now later : ℕ) (token : String) (db : Database)
    → (claim_invite later token (release_invite token (claim_invite now token db).0)).1
      ≡ nat_eq (count_where (λ (i : InviteRow). i.token == token) db.invites) 1
unfolding claim_invite release_invite
claim-release-claim now later token db =
    rw (all_free token _) (rw (count-token-claim now token db.invites))

-- What revoking does to one row.
abbrev pub revoked_row : ℕ → String → String → InviteRow → InviteRow
revoked_row now created_by token i =
    if revocable created_by token i then record i { expires_at = now } else i

update_where-eq-map :
    {R : Type 0} (p : R → Bool) (f : R → R) (rs : List R)
    → update_where p f rs ≡ map (λ r. if p r then f r else r) rs
unfolding update_where
update_where-eq-map p f [] = refl
update_where-eq-map p f (r ∷ rs) =
    ap (λ t. (if p r then f r else r) ∷ t) (update_where-eq-map p f rs)

-- Revoking a well-formed token changes just its owner's rows with it that were never used, and at
-- any later time no such row is pending; a malformed token changes nothing.
pub revoke_invite_lem :
    (is_uuid : String → Bool) (now later : ℕ) (created_by token : String) (db : Database)
    (i : InviteRow)
    → now < later
    → ((revoke_invite is_uuid now created_by token db).0.invites
        ≡ (if is_uuid token then map (revoked_row now created_by token) db.invites else db.invites))
      × (invite_status later (revoked_row now created_by token i)
          ≡ (if revocable created_by token i then expired else invite_status later i))
unfolding revoke_invite invite_status
revoke_invite_lem is_uuid now later created_by token db i h = (
  elim (Bool-cases (is_uuid token)) [
    | inl e ↦ rw e (update_where-eq-map _ _ db.invites)
    | inr e ↦ rw e
  ],
  ground arith,
)
