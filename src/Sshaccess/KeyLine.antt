-- ===== src/Sshaccess/KeyLine.antt =====
-- internal/sshaccess/keys.go: one line of authorized_keys, printed and read back.
pub mod RoundTrip
use ngxborg.Base.{
  ℕ, ◌+◌, Bool, true, false, not, List, [], ◌∷◌, ◌++◌, Option, none, some, if◌then◌else◌, is_nil,
  take, drop, length,
}
use ngxborg.Text.{Text, codes, has_prefix, index, trim_space, fields, join}

pub record KeyEntry : Type 0 where
  pub repo_path : Text
  pub append_only : Bool
  pub key_type : Text
  pub key_material : Text
  pub comment : Text

unfoldable pub borg_binary : Text
borg_binary = codes "/usr/bin/borg"

unfoldable pub serve_options : Text
serve_options = codes " serve --restrict-to-path "

unfoldable pub command_option : Text
command_option = codes "command=\""

unfoldable pub key_line_prefix : Text
unfolding command_option borg_binary serve_options
key_line_prefix = command_option ++ (borg_binary ++ serve_options)

abbrev pub append_only_flag : Text
append_only_flag = codes " --append-only"

abbrev pub restrict_marker : Text
restrict_marker = codes ",restrict "

unfoldable pub build_line : Text → Bool → Text → Text → Text → Text
unfolding borg_binary serve_options command_option
build_line repo_path append_only key_type key_material comment =
    let flag = if append_only then append_only_flag else [] in
    let cmd = borg_binary ++ (serve_options ++ (repo_path ++ flag)) in
    let tail = if is_nil comment then [] else b' ' ∷ comment in
    command_option
    ++ (cmd ++ (b'"' ∷ (restrict_marker ++ (key_type ++ (b' ' ∷ (key_material ++ tail))))))

abbrev pub entry_of : Text → Bool → List Text → Option KeyEntry
entry_of path append_only (t ∷ k ∷ cs) = some (record {
  repo_path = path;
  append_only = append_only;
  key_type = t;
  key_material = k;
  comment = join (b' ' ∷ []) cs;
})
entry_of path append_only _ = none

-- Behind the closing quote.
unfoldable pub parse_key_part : Text → Bool → Text → Option KeyEntry
parse_key_part path append_only after = elim (index after restrict_marker) [
  | none ↦ none
  | some mi ↦
      entry_of path append_only (fields (trim_space (drop (mi + length restrict_marker) after)))
]

-- Between the prefix and the closing quote: the path, and the flag if it is there.
unfoldable pub parse_command : Text → Text → Option KeyEntry
parse_command path_and_flags after = elim (index path_and_flags append_only_flag) [
  | none ↦ parse_key_part path_and_flags false after
  | some idx ↦ parse_key_part (take idx path_and_flags) true after
]

unfoldable pub parse_rest : Text → Option KeyEntry
parse_rest rest = elim (index rest (b'"' ∷ [])) [
  | none ↦ none
  | some path_end ↦ parse_command (take path_end rest) (drop (path_end + 1) rest)
]

unfoldable pub parse_line : Text → Option KeyEntry
parse_line line =
    if not (has_prefix line key_line_prefix)
    then none
    else parse_rest (drop (length key_line_prefix) line)

abbrev material_of : Option KeyEntry → Text
material_of none = []
material_of (some e) = e.key_material

unfoldable pub line_key_material : Text → Text
line_key_material line = material_of (parse_line line)
