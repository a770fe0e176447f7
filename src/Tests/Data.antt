-- ===== src/Tests/Data.antt =====
-- A machine with a tenant, an admin and two repositories, on which the tests run.
use ngxborg.Base.{ℕ, true, some, List, [], ◌∷◌, if◌then◌else◌}
use ngxborg.Text.{Text, codes, text_eq}
use ngxborg.Machine.Fs.{Node, Fs}
use ngxborg.Machine.World.{User, Group, World}
use ngxborg.System.Exec.{Host}
use ngxborg.Authpam.{Pam}
use ngxborg.Machine.Error.{ok}
use ngxborg.Webui.Cert.{Crypto}
use ngxborg.Webui.Listen.{Net}

abbrev pub folder : ℕ → Node
folder mode = record { is_dir = true; mode = mode; uid = 0; gid = 0; mtime = 5; content = [] }

abbrev repos_path : List Text
repos_path = codes "var" ∷ codes "lib" ∷ codes "ngxborg" ∷ codes "repos" ∷ []

abbrev pub tree : Fs
tree =
    (
      codes "var"
          ∷ codes "lib"
          ∷ codes "ngxborg"
          ∷ codes "repos"
          ∷ codes "alice"
          ∷ codes "mail"
          ∷ [],
      folder 0o700,
    )
    ∷ (
      codes "var" ∷ codes "lib" ∷ codes "ngxborg" ∷ codes "repos" ∷ codes "bob" ∷ codes "db" ∷ [],
      folder 0o700,
    )
    ∷ []

abbrev pub two_users : List User
two_users =
    record {
      name = codes "alice";
      uid = codes "1001";
      gid = codes "1001";
      home = codes "/home/alice";
    }
    ∷ record {
      name = codes "bob";
      uid = codes "1002";
      gid = codes "1002";
      home = codes "/home/bob";
    }
    ∷ []

abbrev pub two_groups : List Group
two_groups =
    record { name = codes "ngxborg"; gid = codes "990"; members = codes "alice" ∷ codes "bob" ∷ [] }
    ∷ record { name = codes "ngxborg-admin"; gid = codes "991"; members = codes "bob" ∷ [] }
    ∷ []

abbrev pub thirty_two : List ℕ
thirty_two =
    0 ∷ 0 ∷ 0 ∷ 0 ∷ 0 ∷ 0 ∷ 0 ∷ 0 ∷ 0 ∷ 0 ∷ 0 ∷ 0 ∷ 0 ∷ 0 ∷ 0 ∷ 0 ∷ 0 ∷ 0 ∷ 0 ∷ 0 ∷ 0 ∷ 0 ∷ 0 ∷ 0
    ∷ 0 ∷ 0 ∷ 0 ∷ 0 ∷ 0 ∷ 0 ∷ 0 ∷ 0 ∷ []

abbrev pub machine : World
machine = record {
  fs = tree;
  users = two_users;
  groups = two_groups;
  history = [];
  now = 100;
  euid = 0;
  random = thirty_two;
}

abbrev pub drawn_out : World
drawn_out = record machine { random = [] }

-- Every command succeeds, says nothing and changes nothing.
abbrev pub quiet_host : Host
quiet_host = record {
  exec = λ w inv. (w, record { success = true; stdout = [] });
  look_path = λ w name. true;
  executable = λ w. some (codes "/tmp/ngxborg");
}

-- Accepts the password "secret".
abbrev pub one_password : Pam
one_password = record {
  pam_start = λ w service username. 0;
  pam_authenticate =
      λ w service username password. if text_eq password (codes "secret") then 0 else 7;
  pam_acct_mgmt = λ w service username. 0;
}

-- Keys and certificates that are texts.
abbrev pub certifier : Crypto
certifier = record {
  generate_key = λ w. some (codes "k");
  create_certificate = λ template priv. some (codes "c");
  marshal_key = λ priv. some priv;
  pem_encode = λ kind der. der;
  is_pair = λ cert key. text_eq cert (codes "c");
}

abbrev pub listener : Net
listener = record { listen = λ l w. (w, ok tt) }
