-- ===== src/Sshaccess/Keys.antt =====
-- internal/sshaccess/keys.go: the keys of one account's authorized_keys.
pub mod Laws
pub mod Counted
pub mod Registered
pub mod Saved
pub mod Written
pub mod Emptied
pub mod Others
use ngxborg.Base.{
  ℕ, Bool, true, false, not, List, [], ◌∷◌, ◌++◌, Option, none, some, if◌then◌else◌, ◌==◌,
}
use ngxborg.Text.{Text, codes, text_eq}
use ngxborg.Text.FilePath.{join_path}
use ngxborg.Text.Decimal.{ℤ, pos, itoa}
use ngxborg.Machine.Error.{Error, no_such_key, Result, ok, err}
use ngxborg.Machine.World.{lift, World, M, pure, fail, guard, continue, ◌>>=◌, ◌>>◌}
use ngxborg.Machine.Os.{os_mkdir_all, os_chown}
use ngxborg.Posix.Account.{home_dir, uid_gid}
use ngxborg.Sshaccess.Files.{read_lines, write_lines}
use ngxborg.Sshaccess.KeyLine.{KeyEntry, build_line, parse_line, line_key_material}
use ngxborg.Sshaccess.PublicKey.{PublicKey, validate_public_key_line}

-- The file, and the owner that it gets.
pub record Located : Type 0 where
  pub path : Text
  pub uid : ℕ
  pub gid : ℕ

unfoldable pub authorized_keys_path : Text → M Located
authorized_keys_path username = do
  home ← home_dir username
  ids ← uid_gid username
  let dir = join_path (home ∷ codes ".ssh" ∷ [])
  os_mkdir_all dir 0o700
  os_chown dir ids.0 ids.1
  pure (record { path = join_path (dir ∷ codes "authorized_keys" ∷ []); uid = ids.0; gid = ids.1 })

-- The lines that a loop over the file keeps, and whether it met the key.
pub record Pass : Type 0 where
  pub out : List Text
  pub met : Bool

-- The loop of AddKey: lines with the key become the new line.
unfoldable pub retarget : Text → Text → List Text → Pass
retarget material new_line [] = record { out = []; met = false }
retarget material new_line (line ∷ lines) =
    let rest = retarget material new_line lines in
    if text_eq (line_key_material line) material
    then record { out = new_line ∷ rest.out; met = true }
    else record { out = line ∷ rest.out; met = rest.met }

-- What AddKey writes: the key gets a line at the end if it had none.
unfoldable pub with_key : Text → Text → List Text → List Text
with_key material new_line existing =
    let pass = retarget material new_line existing in
    if pass.met then pass.out else pass.out ++ new_line ∷ []

-- The loop of RemoveKey: lines with the key are left out.
unfoldable pub without_key : Text → List Text → Pass
without_key material [] = record { out = []; met = false }
without_key material (line ∷ lines) =
    let rest = without_key material lines in
    if text_eq (line_key_material line) material
    then record { out = rest.out; met = true }
    else record { out = line ∷ rest.out; met = rest.met }

abbrev entry_list : Option KeyEntry → List KeyEntry
entry_list none = []
entry_list (some e) = e ∷ []

-- The loop of ListKeys.
unfoldable pub parse_lines : List Text → List KeyEntry
parse_lines [] = []
parse_lines (line ∷ lines) = entry_list (parse_line line) ++ parse_lines lines

abbrev pub line_for : Text → Bool → PublicKey → Text
line_for repo_path append_only k =
    build_line repo_path append_only k.key_type k.key_material k.comment

unfoldable pub add_key : Text → Text → Text → Bool → M (Unit {0})
add_key username repo_path pub_key_line append_only = do
  k ← lift (validate_public_key_line pub_key_line)
  file ← authorized_keys_path username
  existing ← read_lines file.path
  write_lines file.path (with_key k.key_material (line_for repo_path append_only k) existing)
  os_chown file.path file.uid file.gid

unfoldable pub remove_key : Text → Text → M (Unit {0})
remove_key username key_material = do
  file ← authorized_keys_path username
  existing ← read_lines file.path
  let pass = without_key key_material existing
  guard pass.met no_such_key
  write_lines file.path pass.out
  os_chown file.path file.uid file.gid

unfoldable pub list_keys : Text → M (List KeyEntry)
list_keys username = do
  file ← authorized_keys_path username
  lines ← read_lines file.path
  pure (parse_lines lines)

unfoldable pub format_count : ℕ → Text
format_count n = if n == 1 then codes "1 key" else itoa (pos n) ++ codes " keys"
