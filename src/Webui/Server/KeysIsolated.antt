-- ===== src/Webui/Server/KeysIsolated.antt =====
-- What a request of one tenant about keys leaves to the others.
use ngxborg.Base.{
  ◌≡◌, refl, ap, ◌∙◌, Bool, true, false, List, ◌∷◌, Option, none, some, All, arith, Bool-cases, inl,
  inr,
}
use ngxborg.Text.{Text}
use ngxborg.Text.FilePath.Laws.{IsSegment}
use ngxborg.Text.FilePath.Standard.{path_of}
use ngxborg.Machine.Accounts
use ngxborg.Machine.Fs.{is_above, stat}
use ngxborg.Machine.World.{World, User}
use ngxborg.System.Exec.{Host}
use ngxborg.Borgrepo.Place
use ngxborg.Sshaccess.Keys.Others.{add_key_same, remove_key_same, list_keys_same}
use ngxborg.Webui.Http.{Form, Request}
use ngxborg.Webui.Session.{Session}
use ngxborg.Webui.Handlers.{handle_keys_list, handle_keys_add, handle_keys_remove}
use ngxborg.Webui.Server.{
  Server, Route, keys_list, keys_add, keys_remove, admin_only, handler, with_auth,
}
use ngxborg.Webui.Server.Access.{session_of}
use ngxborg.Webui.Server.Isolated.{scoped_same, with_auth-world}

unfoldable pub on_keys : Route → Bool
on_keys keys_list = true
on_keys keys_add = true
on_keys keys_remove = true
on_keys _ = false

-- Two paths below the root, none above the other.
pub record AreApart (p q : List Text) : Type 0 where
  pub not_above : is_above p q ≡ false
  pub not_below : is_above q p ≡ false

-- The account's home directory is the path with these components.
pub record IsHome (w : World) (name : Text) (usr : User) (home : List Text) : Type 0 where
  pub found : Accounts.lookup_user w name ≡ some usr
  pub at : usr.home ≡ path_of home
  pub plain : All IsSegment home

for_tenants : (route : Route) → on_keys route ≡ true → admin_only route ≡ false
unfolding on_keys admin_only
for_tenants route h = ground arith

module _ (host : Host) (usr : User) (c x : Text) (hs xs : List Text)
    (apart : AreApart (c ∷ hs) (x ∷ xs)) where
  add_same :
      (sess : Session) (r : Request) (body : Option Form) (w : World)
      → r.body ≡ body
      → sess.admin ≡ false
      → IsHome w sess.username usr (c ∷ hs)
      → stat (x ∷ xs) (handle_keys_add sess r w).0.fs ≡ stat (x ∷ xs) w.fs
  unfolding handle_keys_add
  add_same sess r none w e a h = rw e refl
  add_same sess r (some req) w e a h = rw e (
      scoped_same (x ∷ xs) sess req.tenant _ w a
        (elim (Bool-cases (Place.exists w sess.username req.repo)) [
          | inl k ↦ rw k (
              add_key_same c x hs xs h.plain apart.not_above apart.not_below sess.username w usr
                h.found h.at (Place.path sess.username req.repo) req.public_key req.append_only)
          | inr k ↦ rw k refl
        ]))

  handler_same :
      (route : Route) (r : Request) (sess : Session) (w : World)
      → sess.admin ≡ false
      → on_keys route ≡ true
      → IsHome w sess.username usr (c ∷ hs)
      → stat (x ∷ xs) (handler host route sess r w).0.fs ≡ stat (x ∷ xs) w.fs
  unfolding handler on_keys handle_keys_list handle_keys_remove
  handler_same keys_list r sess w a o h = scoped_same (x ∷ xs) sess r.query_tenant _ w a (
      list_keys_same c x hs xs h.plain apart.not_above apart.not_below sess.username w usr h.found
        h.at)
  handler_same keys_add r sess w a o h = add_same sess r r.body w refl a h
  handler_same keys_remove r sess w a o h = scoped_same (x ∷ xs) sess r.path_tenant _ w a (
      remove_key_same c x hs xs h.plain apart.not_above apart.not_below sess.username w usr h.found
        h.at r.path_material)
  handler_same _ r sess w a o h = absurd (ground (arith, o))

  -- A request of a session that is not an admin's that lists, adds or removes keys leaves everything
  -- as it is that stands neither in the home directory of the session's account nor above it,
  -- whatever else it names and however it ends, where the account is there and its home directory is
  -- the root followed by plain components.
  pub with_auth_home_only :
      (route : Route) (r : Request) (s : Server) (sess : Session)
      → session_of r s ≡ some sess
      → sess.admin ≡ false
      → on_keys route ≡ true
      → IsHome s.world sess.username usr (c ∷ hs)
      → stat (x ∷ xs) (with_auth host route r s).0.world.fs ≡ stat (x ∷ xs) s.world.fs
  with_auth_home_only route r s sess e a o h =
      ap (λ w. stat (x ∷ xs) w.fs) (with_auth-world host route r s sess e (for_tenants route o))
      ∙ handler_same route r sess s.world a o h
