-- ===== src/Posix/Members.antt =====
-- internal/posix/group.go and the listing of tenants in posix.go.
pub mod RoundTrip
use ngxborg.Base.{
  not, ◌||◌, List, [], ◌∷◌, ◌++◌, Option, none, some, if◌then◌else◌, is_nil, find_if,
}
use ngxborg.Text.{Text, codes, text_eq, has_prefix, split}
use ngxborg.Text.Lines.{scan, max_scan_token_size}
use ngxborg.Machine.Error.{lookup_group, io, too_long_line}
use ngxborg.Machine.World.{M, pure, gets, guard, or_fail, ◌>>=◌, ◌>>◌}
use ngxborg.Machine.Accounts
use ngxborg.Machine.Os.{os_read_file}
use ngxborg.Posix.Groups.{tenant_group}

pub record GroupEntry : Type 0 where
  pub name : Text
  pub gid : Text
  pub members : List Text

abbrev pub member_list : Text → List Text
member_list [] = []
member_list (c ∷ s) = split b',' (c ∷ s)

abbrev pub group_entry : List Text → List GroupEntry
group_entry (name ∷ _ ∷ gid ∷ members ∷ _) =
    record { name = name; gid = gid; members = member_list members } ∷ []
group_entry _ = []

-- One line of /etc/group.
unfoldable pub parse_group_line : Text → List GroupEntry
unfolding split has_prefix
parse_group_line line =
    if is_nil line || has_prefix line (codes "#") then [] else group_entry (split b':' line)

unfoldable pub parse_group_lines : List Text → List GroupEntry
unfolding parse_group_line
parse_group_lines [] = []
parse_group_lines (l ∷ ls) = parse_group_line l ++ parse_group_lines ls

unfoldable pub read_group_file : Text → M (List GroupEntry)
unfolding parse_group_lines os_read_file scan
read_group_file path = do
  body ← os_read_file path
  let tokens = scan max_scan_token_size body
  guard (not tokens.too_long) (io too_long_line)
  pure (parse_group_lines tokens.lines)

abbrev members_of : Option GroupEntry → List Text
members_of none = []
members_of (some g) = g.members

unfoldable pub group_members : Text → M (List Text)
unfolding read_group_file text_eq
group_members gid = do
  groups ← read_group_file (codes "/etc/group")
  pure (members_of (find_if (λ g. text_eq g.gid gid) groups))

unfoldable pub list_tenants : M (List Text)
unfolding group_members Accounts.lookup_group
list_tenants = do
  found ← gets (λ w. Accounts.lookup_group w tenant_group)
  g ← or_fail lookup_group found
  group_members g.gid
