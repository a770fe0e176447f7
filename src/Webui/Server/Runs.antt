-- ===== src/Webui/Server/Runs.antt =====
-- What may happen to the running web server: a request at a time, the reaper, and whatever other
-- processes and the clock do to the machine.
use ngxborg.Base.{◌≡◌, true}
use ngxborg.Machine.World.{World}
use ngxborg.System.Exec.{Host}
use ngxborg.Posix.Groups.{is_tenant, is_admin}
use ngxborg.Authpam.{Pam, authenticate}
use ngxborg.Mcpserver.Tool.{Tool}
use ngxborg.Webui.Http.{Form, Request}
use ngxborg.Webui.Session.{Session, new_session, reap}
use ngxborg.Webui.Server.{Server, Route, with_auth, handle_login, handle_logout, handle_mcp}

module _ (host : Host) (pam : Pam) where
  pub data Step : Server → Server → Type 0 where
    login : (r : Request) (s : Server) → Step s (handle_login pam r s).0
    logout : (r : Request) (s : Server) → Step s (handle_logout r s).0
    ask : (route : Route) (r : Request) (s : Server) → Step s (with_auth host route r s).0
    call : (tool : Tool) (s : Server) → Step s (handle_mcp tool s).0
    reaped : (s : Server) → Step s (record s { sessions = reap s.world.now s.sessions })
    elsewhere : (w : World) (s : Server) → Step s (record s { world = w })

  pub data Reach (s : Server) : Server → Type 0 where
    here : Reach s s
    next : {t u : Server} → Reach s t → Step t u → Reach s u

  -- What a login asks of the account and the password that its form names.
  abbrev pub IsAccepted : Server → Form → Type 0
  IsAccepted s f =
      (is_tenant s.world f.username ≡ true)
      × (authenticate pam s.world f.username f.password ≡ true)

  -- The session that a login with the form starts.
  abbrev pub session_from : Server → Form → Session
  session_from s f = new_session s.world.now f.username (is_admin s.world f.username)

  -- On the way to `t` there was a login that was accepted and started the session.
  pub record IsGranted (start t : Server) (sess : Session) : Type 0 where
    pub at : Server
    pub form : Form
    pub before : Reach start at
    pub since : Reach at t
    pub accepted : IsAccepted at form
    pub begun : sess ≡ session_from at form
