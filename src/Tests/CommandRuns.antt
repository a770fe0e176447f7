-- ===== src/Tests/CommandRuns.antt =====
-- Commands run by setup, and lines of files that it reads.
use ngxborg.Base.{
  ◌≡◌, ◌≤◌, ◌⊎◌, ◌+◌, refl, Bool, true, false, List, [], ◌∷◌, ◌++◌, if◌then◌else◌, none, All,
}
use ngxborg.Text.{
  join, Text, codes, text_eq, trim_space, trim_left, trim_right, is_space, has_prefix,
  contains_char, byte_len,
}
use ngxborg.Text.Decimal.{pos}
use ngxborg.Machine.World.{World}
use ngxborg.System.Exec.{Host, capture, runner}
use ngxborg.System.Exec.Traces.{Extends}
use ngxborg.System.Apt.{apt_install}
use ngxborg.System.Apt.Commands.{
  IsDatabase, says_installed, install_of, queries, apt_install_commands,
}
use ngxborg.Posix.Members.{GroupEntry, parse_group_lines}
use ngxborg.Posix.Members.RoundTrip.{IsGroup, parse_group_lines-map}
use ngxborg.Sshaccess.Sshd.{ensure_dual_port}
use ngxborg.Sshaccess.Sshd.Emitted.{IsNoService}
use ngxborg.Sshaccess.Sshd.Checked.{IsTested, ensure_dual_port-IsTested}
use ngxborg.Borgrepo.Name.{valid_name, is_name_char, is_alnum}
use ngxborg.Borgrepo.Stamp.{date_of_days}
use ngxborg.Base.{arith}
use ngxborg.Borgrepo.Trash.{trash_name}
use ngxborg.Borgrepo.Trash.Bounded.{trash_name_bounded}
use ngxborg.Provision.Setup.{setup}
use ngxborg.Provision.Setup.DryCommands.{IsQuery, setup_dry_commands}
use ngxborg.Tests.Data.{machine, quiet_host}
use ngxborg.Tests.SetupRuns.{dry, options}

abbrev set_ports : World
set_ports = (ensure_dual_port quiet_host runner (pos 22) (pos 2222) machine).0

ensure_dual_port-IsTested_example :
    Extends IsNoService machine set_ports ⊎ IsTested quiet_host machine set_ports
ensure_dual_port-IsTested_example =
    ensure_dual_port-IsTested quiet_host runner (pos 22) (pos 2222) machine

trash_name_bounded_example :
    (byte_len (trash_name (codes "bob") (codes "db") 100)
      ≡ byte_len (codes "bob") + byte_len (codes "db") + 19)
    × (byte_len (trash_name (codes "bob") (codes "db") 100) ≤ 147)
unfolding valid_name is_name_char is_alnum date_of_days
trash_name_bounded_example =
    trash_name_bounded (codes "bob") (codes "db") 100 refl refl (omega arith)

setup_dry_commands_example : Extends IsQuery machine (setup quiet_host dry options machine).0
setup_dry_commands_example = setup_dry_commands quiet_host dry refl options machine

is_borg : Text → Bool
is_borg p = text_eq p (codes "borgbackup")

last : List Text → Text
last [] = []
last (t ∷ []) = t
last (_ ∷ ts) = last ts

-- A host on which borgbackup is the only package.
abbrev borg_host : Host
borg_host = record {
  exec = λ w inv. (
    w,
    record { success = true; stdout = if is_borg (last inv.args) then codes "installed" else [] },
  );
  look_path = λ w name. true;
  executable = λ w. none;
}

answered_for :
    (b : Bool)
    → says_installed (record { success = true; stdout = if b then codes "installed" else [] }) ≡ b
unfolding text_eq trim_space trim_left trim_right is_space
answered_for true = refl
answered_for false = refl

borg-IsDatabase : IsDatabase borg_host (λ v. is_borg)
unfolding last capture
borg-IsDatabase = record { answered = λ v p. answered_for (is_borg p); asked = λ v p q. refl }

abbrev two_packages : List Text
two_packages = codes "borgbackup" ∷ codes "openssh-server" ∷ []

apt_install_commands_example :
    (apt_install borg_host runner two_packages machine).0.history
    ≡ install_of (codes "openssh-server" ∷ []) ++ (queries two_packages ++ [])
unfolding is_borg text_eq
apt_install_commands_example =
    apt_install_commands borg_host (λ v. is_borg) borg-IsDatabase runner two_packages machine refl

abbrev known_groups : List GroupEntry
known_groups =
    record { name = codes "ngxborg"; gid = codes "990"; members = codes "alice" ∷ codes "bob" ∷ [] }
    ∷ record { name = codes "empty"; gid = codes "991"; members = [] }
    ∷ []

known-IsGroup : All IsGroup known_groups
unfolding contains_char has_prefix
known-IsGroup = (
  record {
    named = λ e. cc;
    no_comment = refl;
    plain_name = refl;
    plain_gid = refl;
    plain_members = (((λ e. cc), refl, refl), (((λ e. cc), refl, refl), tt));
  },
  (
    record {
      named = λ e. cc;
      no_comment = refl;
      plain_name = refl;
      plain_gid = refl;
      plain_members = tt;
    },
    tt,
  ),
)

parse_group_lines-map_example :
    parse_group_lines (codes "ngxborg:x:990:alice,bob" ∷ codes "empty:x:991:" ∷ []) ≡ known_groups
unfolding join
parse_group_lines-map_example = parse_group_lines-map known_groups known-IsGroup
