-- ===== src/Authpam/Accepts.antt =====
-- When PAM lets an account in.
use ngxborg.Base.{◌≡◌, ◌↔◌, true, arith}
use ngxborg.Text.{Text}
use ngxborg.Machine.World.{World}
use ngxborg.Authpam.{Pam, service_name, authenticate_code, authenticate}

-- A login is accepted exactly if the PAM transaction starts, the password is accepted, and the
-- account is valid besides.
pub authenticate_lem :
    (pam : Pam) (w : World) (username password : Text)
    → (authenticate pam w username password ≡ true) ↔ (
        (pam.pam_start w service_name username ≡ 0)
        × (pam.pam_authenticate w service_name username password ≡ 0)
        × (pam.pam_acct_mgmt w service_name username ≡ 0))
unfolding authenticate authenticate_code
authenticate_lem pam w username password = ground arith
