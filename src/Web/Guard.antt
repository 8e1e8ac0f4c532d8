-- ===== src/Web/Guard.antt =====
-- app/web/auth.py: the dependencies of a route.
use career_spyder.Database.{UserRow}
use career_spyder.Accounts.Session.{
  Session, Crypto, Guarded, admitted, status, load_session_user, require_user, require_admin,
}
use career_spyder.Web.{Site, Reply, Host, answer, failure}

-- What a route does once its guard has decided. The guard has read the session, and cleared one that is
-- no longer good.
unfoldable pub guarded :
    {crypto : Crypto} → (UserRow → Site → Session → Reply) → Guarded crypto → Site → Session → Reply
guarded handler (admitted user) site session = handler user site session
guarded handler (status code) site session = answer site session (failure code "")

-- `Depends(require_user)`
unfoldable pub as_user : Host → (UserRow → Site → Session → Reply) → Site → Session → Reply
unfolding guarded
as_user host handler site session =
    let loaded = load_session_user host.crypto session site.db in
    guarded handler (require_user host.crypto loaded.0) site loaded.1

-- `Depends(require_admin)`
unfoldable pub as_admin : Host → (UserRow → Site → Session → Reply) → Site → Session → Reply
unfolding guarded
as_admin host handler site session =
    let loaded = load_session_user host.crypto session site.db in
    guarded handler (require_admin host.crypto loaded.0) site loaded.1
