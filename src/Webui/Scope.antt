-- ===== src/Webui/Scope.antt =====
-- internal/webui/auth.go: scopeTenant.
use ngxborg.Base.{not, ◌&&◌, if◌then◌else◌, is_nil}
use ngxborg.Text.{Text, text_eq}
use ngxborg.Machine.Error.{forbidden_tenant, tenant_required, Result, ok, err}
use ngxborg.Webui.Session.{Session}

unfoldable pub scope_tenant : Session → Text → Result Text
scope_tenant sess requested =
    if not sess.admin
    then if not (is_nil requested) && not (text_eq requested sess.username)
      then err forbidden_tenant
      else ok sess.username
    else if is_nil requested
    then err tenant_required
    else ok requested
