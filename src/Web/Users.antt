-- ===== src/Web/Users.antt =====
-- app/web/routes_users.py: the admin's page of users and invites.
pub mod Laws
use career_spyder.Prelude.{
  ℕ, String, ◌==◌, not, ◌||◌, Option, none, some, List, [], ◌∷◌, map, if◌then◌else◌, nonempty,
  is_some,
}
use career_spyder.Text.{strip, contains}
use career_spyder.Html.{cat}
use career_spyder.Database.{Database, UserRow, InviteRow}
use career_spyder.Accounts.{get_user_by_email, get_user_by_id, deactivate_user, list_users}
use career_spyder.Accounts.Session.{Session}
use career_spyder.Invites.{
  create_invite, resend_invite, revoke_invite, list_invites, InviteStatus, pending, accepted,
  expired,
}
use career_spyder.Web.{
  InviteItem, Value, label, user_items, invite_items, page, flashed, failure, Site, Reply, answer,
  Host,
}
use career_spyder.Web.Guard.{as_admin}

-- `request_base` is `str(request.base_url).rstrip("/")`.
unfoldable pub invite_base_url : Host → (request_base : String) → String
invite_base_url host request_base = elim host.public_base_url [
  | none ↦ request_base
  | some base ↦ base
]

unfoldable pub invite_url : (base token : String) → String
invite_url base token = cat (base ∷ "/register?token=" ∷ token ∷ [])

unfoldable pub link_of : (base token : String) → InviteStatus → Option String
unfolding invite_url
link_of base token pending = some (invite_url base token)
link_of base token accepted = none
link_of base token expired = none

unfoldable pub invites_for_template : ℕ → UserRow → (base : String) → Database → List InviteItem
unfolding link_of
invites_for_template now current base db =
    map
      (λ (i : InviteRow × InviteStatus). record {
        invite = i.0;
        status = i.1;
        url = link_of base i.0.token i.1;
      })
      (list_invites now current.id db)

-- The page, with what a handler adds to its context.
unfoldable pub users_page :
    ℕ → UserRow → (base : String) → (status : ℕ) → List (String × Value) → Site → Session → Reply
unfolding invites_for_template
users_page now current base status context site session = answer site session (
    page "users.html" status (
      ("users", user_items (list_users site.db))
      ∷ ("invites", invite_items (invites_for_template now current base site.db))
      ∷ context))

-- The form's `email`, whose absence the framework answers. `fresh` is the token that the database draws,
-- `lower` stands for `str.lower`.
unfoldable pub send_invite :
    (String → String)
    → (now : ℕ) → (fresh base raw_email : String) → UserRow
    → Site
    → Session
    → Reply
unfolding users_page invite_url
send_invite lower now fresh base raw_email current site session =
    let email = lower (strip raw_email) in
    if not (nonempty email) || not (contains email "@")
    then users_page now current base 400
        (("invite_error", label "A valid email address is required.") ∷ []) site session
    else if is_some (get_user_by_email email site.db)
    then users_page now current base 400
        (("invite_error", label (cat ("An account with " ∷ email ∷ " already exists." ∷ []))) ∷ [])
        site session
    else (let made = create_invite now fresh email current.id 7 site.db in
        users_page now current base 200
          (("invite_url", label (invite_url base made.1.token))
            ∷ ("invite_email", label email)
            ∷ [])
          (record site { db = made.0 }) session)

unfoldable pub resent :
    ℕ → UserRow → (base : String) → Database × Option InviteRow → Site → Session → Reply
unfolding users_page invite_url
resent now current base (db, none) site session = answer site session (failure 404 "")
resent now current base (db, some fresh) site session =
    users_page now current base 200
      (("invite_url", label (invite_url base fresh.token))
        ∷ ("invite_email", label fresh.email)
        ∷ [])
      (record site { db = db }) session

unfoldable pub send_again :
    Host → (now : ℕ) → (fresh base token : String) → UserRow → Site → Session → Reply
unfolding resent
send_again host now fresh base token current site session =
    resent now current base (resend_invite host.is_uuid now fresh current.id (strip token) site.db)
      site session

unfoldable pub revoke : Host → (now : ℕ) → (token : String) → UserRow → Site → Session → Reply
revoke host now token current site session =
    let done = revoke_invite host.is_uuid now current.id token site.db in
    answer (record site { db = done.0 }) session
      (if done.1 then flashed "/users" "Invite revoked." else failure 404 "")

unfoldable pub deactivate_found : (user_id : String) → Option UserRow → Site → Session → Reply
deactivate_found user_id none site session = answer site session (failure 404 "")
deactivate_found user_id (some user) site session =
    answer (record site { db = deactivate_user user_id site.db }) session
      (flashed "/users" (cat ("User " ∷ user.username ∷ " deactivated." ∷ [])))

-- The user whose id the database read; a text that is no UUID makes the query raise.
unfoldable pub deactivate_read : Option String → Site → Session → Reply
unfolding deactivate_found
deactivate_read none site session = answer site session (failure 500 "Internal Server Error")
deactivate_read (some id) site session =
    deactivate_found id (get_user_by_id id site.db) site session

-- `uuid` stands for the database's reading of a text as a UUID, given as the text that ids are printed as.
-- The comparison with the own id is one of texts.
unfoldable pub deactivate :
    (uuid : String → Option String)
    → (now : ℕ) → (base user_id : String) → UserRow
    → Site
    → Session
    → Reply
unfolding users_page deactivate_read
deactivate uuid now base user_id current site session =
    if user_id == current.id
    then users_page now current base 400
        (("deactivate_error", label "You cannot deactivate your own account.") ∷ []) site session
    else deactivate_read (uuid user_id) site session

-- The routes.
pub data UsersRequest : Type 0 where
  users_list : UsersRequest
  invite_user : (fresh email : String) → UsersRequest
  resend_invite_for : (fresh token : String) → UsersRequest
  revoke_invite_of : (token : String) → UsersRequest
  deactivate_user_of : (user_id : String) → UsersRequest

unfoldable pub serve_users :
    Host
    → (lower : String → String) → (uuid : String → Option String) → (now : ℕ) → (base : String)
    → UsersRequest
    → UserRow
    → Site
    → Session
    → Reply
unfolding users_page send_invite send_again revoke deactivate
serve_users host lower uuid now base users_list current = users_page now current base 200 []
serve_users host lower uuid now base (invite_user fresh email) current =
    send_invite lower now fresh base email current
serve_users host lower uuid now base (resend_invite_for fresh token) current =
    send_again host now fresh base token current
serve_users host lower uuid now base (revoke_invite_of token) current =
    revoke host now token current
serve_users host lower uuid now base (deactivate_user_of user_id) current =
    deactivate uuid now base user_id current

unfoldable pub users_route :
    Host
    → (lower : String → String) → (uuid : String → Option String) → (now : ℕ)
    → (request_base : String) → UsersRequest
    → Site
    → Session
    → Reply
unfolding as_admin serve_users invite_base_url
users_route host lower uuid now request_base request =
    as_admin host (serve_users host lower uuid now (invite_base_url host request_base) request)
