-- ===== src/Tests/KeyRuns.antt =====
-- Keys registered and removed in a file.
use ngxborg.Base.{◌≡◌, ◌≢◌, refl, true, false, List, [], ◌∷◌, All, arith}
use ngxborg.Text.{
  index, fields, Text, codes, text_eq, join, trim_space, trim_left, trim_right, is_space,
  contains_char, byte_len, has_prefix, split, split_from,
}
use ngxborg.Text.Lines.{scan, drop_cr}
use ngxborg.Text.FilePath.{dir_of, components, clean, clean_from, clean_step, pops, join_path}
use ngxborg.Machine.Fs.{Node, stat, lookup, path_eq, is_above, put, move, below, prune, children}
use ngxborg.Machine.Error.{ok}
use ngxborg.Machine.World.{World}
use ngxborg.Machine.Os.{
  os_mkdir_all, mkdir_from, mkdir_step, os_chown, os_read_file, os_write_file, os_rename,
}
use ngxborg.Machine.Os.Renames.{temporary, AreApart}
use ngxborg.Machine.Accounts.{lookup_user}
use ngxborg.Sshaccess.PublicKey.{public_key_of, is_key_type, decodes, validate_public_key_line}
use ngxborg.Posix.Account.{home_dir, uid_gid, scan_uint}
use ngxborg.Sshaccess.Files.{file_lines, body_of, read_lines, write_lines, atomic_write}
use ngxborg.Sshaccess.Files.ReadBack.{IsStored}
use ngxborg.Sshaccess.KeyLine.{
  key_line_prefix, parse_rest, parse_command, parse_key_part, build_line, parse_line,
  line_key_material,
}
use ngxborg.Sshaccess.Keys.{
  Located, authorized_keys_path, with_key, without_key, retarget, line_for, add_key, remove_key,
  parse_lines,
}
use ngxborg.Sshaccess.Keys.Registered.{IsRegistered, entry_for}
use ngxborg.Sshaccess.Keys.Written.{IsRemoved, add_key-IsRegistered, remove_key-IsRemoved}
use ngxborg.Sshaccess.Keys.Laws.{foreign}
use ngxborg.Sshaccess.Keys.Saved.{saved}
use ngxborg.Sshaccess.Keys.Emptied.{remove_key_empty}
use ngxborg.Tests.Data.{machine, folder}
use ngxborg.Tests.SshRuns.{repo_path, public_line, accepted, accepts, plain}

abbrev stored_lines : List Text
stored_lines = codes "# by hand" ∷ line_for repo_path false accepted ∷ []

abbrev keys_path : Text
keys_path = codes "/home/alice/.ssh/authorized_keys"

abbrev keys_file : Node
keys_file = record {
  is_dir = false;
  mode = 0o600;
  uid = 1001;
  gid = 1001;
  mtime = 5;
  content = body_of stored_lines;
}

abbrev with_home : World
with_home = record machine {
  fs =
      (codes "home" ∷ [], folder 0o755)
      ∷ (codes "home" ∷ codes "alice" ∷ [], folder 0o755)
      ∷ (codes "home" ∷ codes "alice" ∷ codes ".ssh" ∷ [], folder 0o700)
      ∷ (codes "home" ∷ codes "alice" ∷ codes ".ssh" ∷ codes "authorized_keys" ∷ [], keys_file)
      ∷ [];
}

abbrev located : Located
located = record { path = keys_path; uid = 1001; gid = 1001 }

located_file : (authorized_keys_path (codes "alice") with_home).1 ≡ ok located
unfolding components clean clean_from clean_step pops split split_from has_prefix text_eq join
    join_path stat lookup path_eq is_above put move below prune children os_mkdir_all mkdir_from
    mkdir_step os_chown os_read_file os_write_file os_rename authorized_keys_path home_dir uid_gid
    scan_uint lookup_user
located_file = refl

read_before :
    (read_lines keys_path (authorized_keys_path (codes "alice") with_home).0).1 ≡ ok stored_lines
unfolding components clean clean_from clean_step pops split split_from has_prefix text_eq join
    join_path stat lookup path_eq is_above put move below prune children os_mkdir_all mkdir_from
    mkdir_step os_chown os_read_file os_write_file os_rename authorized_keys_path home_dir uid_gid
    scan_uint lookup_user read_lines file_lines scan body_of trim_space trim_left trim_right
    is_space drop_cr byte_len build_line contains_char
read_before = refl

keys_apart : AreApart (components (temporary keys_path)) (components keys_path)
unfolding components clean clean_from clean_step pops split split_from has_prefix text_eq join
    join_path is_above
keys_apart = record {
  left_named = λ e. cc;
  right_named = λ e. cc;
  not_above = refl;
  not_below = refl;
}

old-IsStored : All IsStored stored_lines
unfolding read_lines file_lines scan body_of trim_space trim_left trim_right is_space drop_cr
    byte_len build_line contains_char text_eq has_prefix
old-IsStored = (
  record { one_line = refl; not_blank = refl; no_return = refl; fits = refl },
  (record { one_line = refl; not_blank = refl; no_return = refl; fits = refl }, tt),
)

new-IsStored : IsStored (line_for repo_path true accepted)
unfolding read_lines file_lines scan body_of trim_space trim_left trim_right is_space drop_cr
    byte_len build_line contains_char
new-IsStored = record { one_line = refl; not_blank = refl; no_return = refl; fits = refl }

adds : (add_key (codes "alice") repo_path public_line true with_home).1 ≡ ok tt
unfolding add_key write_lines atomic_write dir_of with_key retarget line_key_material parse_line
    validate_public_key_line index public_key_of fields is_key_type decodes components clean
    clean_from clean_step pops split split_from has_prefix text_eq join join_path stat lookup
    path_eq is_above put move below prune children os_mkdir_all mkdir_from mkdir_step os_chown
    os_read_file os_write_file os_rename authorized_keys_path home_dir uid_gid scan_uint lookup_user
    read_lines file_lines scan body_of trim_space trim_left trim_right is_space drop_cr byte_len
    build_line contains_char
adds = refl

removes : (remove_key (codes "alice") (codes "AAAAC3Nz") with_home).1 ≡ ok tt
unfolding remove_key key_line_prefix parse_rest index parse_command parse_key_part fields
    write_lines atomic_write dir_of without_key line_key_material parse_line components clean
    clean_from clean_step pops split split_from has_prefix text_eq join join_path stat lookup
    path_eq is_above put move below prune children os_mkdir_all mkdir_from mkdir_step os_chown
    os_read_file os_write_file os_rename authorized_keys_path home_dir uid_gid scan_uint lookup_user
    read_lines file_lines scan body_of trim_space trim_left trim_right is_space drop_cr byte_len
    build_line contains_char
removes = refl

abbrev added : World
added = (add_key (codes "alice") repo_path public_line true with_home).0

add_key-IsRegistered_example :
    (lines : List Text) × (read_lines keys_path added ≡ (added, ok lines))
    × IsRegistered (entry_for repo_path true accepted) stored_lines lines
add_key-IsRegistered_example =
    add_key-IsRegistered (codes "alice") repo_path public_line true accepted located stored_lines
      with_home plain accepts located_file read_before keys_apart new-IsStored old-IsStored adds

abbrev removed : World
removed = (remove_key (codes "alice") (codes "AAAAC3Nz") with_home).0

remove_key-IsRemoved_example :
    (lines : List Text) × (read_lines keys_path removed ≡ (removed, ok lines))
    × IsRemoved (codes "AAAAC3Nz") stored_lines lines
remove_key-IsRemoved_example =
    remove_key-IsRemoved (codes "alice") (codes "AAAAC3Nz") located stored_lines with_home
      (λ e. ground arith) located_file read_before keys_apart old-IsStored removes

by_hand : foreign stored_lines ≢ []
unfolding parse_line key_line_prefix has_prefix
by_hand e = cc

remove_key_empty_example :
    (kept : List Text) × (remove_key (codes "alice") [] with_home
      ≡ saved located kept (authorized_keys_path (codes "alice") with_home).0)
    × (foreign kept ≡ [])
    × (parse_lines kept ≡ parse_lines stored_lines)
remove_key_empty_example =
    remove_key_empty (codes "alice") located stored_lines with_home located_file read_before by_hand
