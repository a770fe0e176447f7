-- ===== src/Webui/Http.antt =====
-- Requests as the handlers of internal/webui read them, and responses as they write them. Package
-- net/http and the JSON decoder have done their work: a body is the decoded struct, or `none`
-- where decoding fails; fields that a request leaves out are empty.
use ngxborg.Base.{ℕ, Bool, List, Option, none, some}
use ngxborg.Text.{Text, codes}
use ngxborg.Text.Decimal.{ℤ}
use ngxborg.Machine.Error.{Error, Result, ok, err}
use ngxborg.Machine.World.{World, M}
use ngxborg.Sshaccess.KeyLine.{KeyEntry}
use ngxborg.Borgrepo.Repo.{Repo}
use ngxborg.Provision.Doctor.{Check}

-- The fields of all request structs.
pub record Form : Type 0 where
  pub tenant : Text
  pub name : Text
  pub repo : Text
  pub public_key : Text
  pub append_only : Bool
  pub username : Text
  pub password : Text
  pub admin : Bool

pub record Request : Type 0 where
  -- the session cookie
  pub cookie : Option Text
  pub host : Text
  pub query_tenant : Text
  pub path_tenant : Text
  pub path_name : Text
  pub path_material : Text
  pub path_username : Text
  pub body : Option Form

pub record ClientInfo : Type 0 where
  pub tenant : Text
  pub name : Text
  pub path : Text
  pub host : Text
  pub borg_port : ℤ
  pub ssh_url : Text
  pub generate_key_command : Text
  pub show_public_key_command : Text
  pub init_command : Text
  pub backup_command : Text
  pub ngxsetup_repo : Text

pub record UserInfo : Type 0 where
  pub username : Text
  pub admin : Bool
  pub keys : ℕ
  pub disabled : Bool

pub data Payload : Type 0 where
  empty : Payload
  -- {"error": …}: a fixed message, or the text of an error
  message : Text → Payload
  failure : Error → Payload
  identity : Text → Bool → Payload
  repos : List Repo → Payload
  repo : Repo → Payload
  client_info : ClientInfo → Payload
  keys : List KeyEntry → Payload
  users : List UserInfo → Payload
  generated_password : Text → Payload
  checks : List Check → Payload

-- What becomes of the session cookie.
pub data Cookie : Type 0 where
  keep clear : Cookie
  set_to : Text → Cookie

pub record Response : Type 0 where
  pub status : ℕ
  pub payload : Payload
  pub cookie : Cookie

abbrev pub respond : ℕ → Payload → Response
respond status payload = record { status = status; payload = payload; cookie = keep }

-- writeError(w, status, msg) and writeError(w, status, err.Error())
abbrev pub refuse : ℕ → Text → Response
refuse status msg = respond status (message msg)

abbrev pub fail_with : ℕ → Error → Response
fail_with status e = respond status (failure e)

-- A handler on the machine alone.
abbrev pub Handler : Type 0
Handler = World → World × Response

abbrev pub always : Response → Handler
always r w = (w, r)

abbrev pub conclude {ℓ} : {A : Type ℓ} → ℕ → (A → Response) → Result A → Response
conclude status f (ok a) = f a
conclude status f (err e) = fail_with status e

-- Runs a step; its error is answered with `status`.
abbrev pub answer {ℓ} : {A : Type ℓ} → ℕ → M A → (A → Response) → Handler
answer status m f w = ((m w).0, conclude status f (m w).1)

-- Goes on with a value that may be an error, answered with `status`.
abbrev pub with_ok {ℓ} : {A : Type ℓ} → ℕ → Result A → (A → Handler) → Handler
with_ok status (ok a) f = f a
with_ok status (err e) f = always (fail_with status e)

abbrev pub with_body : Option Form → (Form → Handler) → Handler
with_body none f = always (refuse 400 (codes "invalid request body"))
with_body (some form) f = f form
