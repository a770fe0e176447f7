-- ===== src/Authpam.antt =====
-- internal/authpam/authpam.go: a login is checked by PAM. The PAM library is not the program's
-- code: its three calls are the parameter `Pam`, and 0 is PAM_SUCCESS.
pub mod Accepts
use ngxborg.Base.{ℕ, Bool, true, false, if◌then◌else◌, ◌==◌}
use ngxborg.Text.{Text, codes}
use ngxborg.Machine.World.{World}

pub record Pam : Type 0 where
  pub pam_start : World → Text → Text → ℕ
  -- the conversation answers every prompt with the password
  pub pam_authenticate : World → Text → Text → Text → ℕ
  pub pam_acct_mgmt : World → Text → Text → ℕ

abbrev pub service_name : Text
service_name = codes "ngxborg"

-- The C function: the code of the first call that fails, or 0.
abbrev failed_code : ℕ → Bool
failed_code rc = if rc == 0 then false else true

-- The C function: the code of the first call that fails, or 0.
unfoldable pub authenticate_code : Pam → World → Text → Text → Text → ℕ
authenticate_code pam w service username password =
    let started = pam.pam_start w service username in
    let checked = pam.pam_authenticate w service username password in
    if failed_code started
    then started
    else if failed_code checked
    then checked
    else pam.pam_acct_mgmt w service username

-- Authenticate(username, password) returns nil.
unfoldable pub authenticate : Pam → World → Text → Text → Bool
authenticate pam w username password = authenticate_code pam w service_name username password == 0
