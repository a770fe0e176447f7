-- ===== src/Machine/Os.antt =====
-- What the program uses of the package `os`, over the file tree. The umask is the usual 022, which
-- takes no bit from the modes that the program asks for.
pub mod Laws
pub mod Writes
pub mod Renames
pub mod Quiet
pub mod Frames
use ngxborg.Base.{
  ℕ, Bool, true, false, not, ◌&&◌, ◌||◌, List, [], ◌∷◌, ◌++◌, Option, none, some, if◌then◌else◌,
  is_nil, is_some, ◌≡◌,
}
use ngxborg.Text.{Text, text_eq}
use ngxborg.Text.FilePath.{components}
use ngxborg.Machine.Fs.{
  Node, Fs, Entry, path_eq, is_above, lookup, put, prune, below, move, children, sort_entries, stat,
  parent_of,
}
use ngxborg.Machine.Error.{
  Error, io, IoError, not_exist, not_dir, is_a_dir, already_exists, not_empty, invalid, busy,
  Result, ok, err,
}
use ngxborg.Machine.World.{World, M}

abbrev set_fs : World → Fs → World × Result (Unit {0})
set_fs w fs = (record w { fs = fs }, ok tt)

abbrev found_node : World → Option Node → World × Result Node
found_node w none = (w, err (io not_exist))
found_node w (some n) = (w, ok n)

-- os.Stat(path)
unfoldable pub os_stat : Text → M Node
os_stat path w = found_node w (stat (components path) w.fs)

-- os.Stat(path); err == nil
unfoldable pub os_exists : World → Text → Bool
os_exists w path = is_some (stat (components path) w.fs)

abbrev new_dir : World → ℕ → Node
new_dir w mode = record {
  is_dir = true;
  mode = mode;
  uid = 0;
  gid = 0;
  mtime = w.now;
  content = [];
}

-- One directory on the way down; `none` where a file is in the way.
unfoldable pub mkdir_step : World → ℕ → List Text → Option Fs → Option Fs
mkdir_step w mode p none = none
mkdir_step w mode p (some fs) = elim (stat p fs) [
  | none ↦ some (put p (new_dir w mode) fs)
  | some n ↦ if n.is_dir then some fs else none
]

unfoldable pub mkdir_from : World → ℕ → List Text → List Text → Option Fs → Option Fs
mkdir_from w mode done [] fs = fs
mkdir_from w mode done (c ∷ cs) fs =
    mkdir_from w mode (done ++ c ∷ []) cs (mkdir_step w mode (done ++ c ∷ []) fs)

abbrev made : World → Option Fs → World × Result (Unit {0})
made w none = (w, err (io not_dir))
made w (some fs) = set_fs w fs

-- os.MkdirAll(path, mode)
unfoldable pub os_mkdir_all : Text → ℕ → M (Unit {0})
os_mkdir_all path mode w = made w (mkdir_from w mode [] (components path) (some w.fs))

abbrev change : World → List Text → Option Node → (Node → Node) → World × Result (Unit {0})
change w p none f = (w, err (io not_exist))
change w p (some n) f = set_fs w (put p (f n) w.fs)

-- os.Chown(path, uid, gid)
unfoldable pub os_chown : Text → ℕ → ℕ → M (Unit {0})
os_chown path uid gid w =
    change w (components path) (stat (components path) w.fs) λ n. record n { uid = uid; gid = gid }

-- os.Chmod(path, mode)
unfoldable pub os_chmod : Text → ℕ → M (Unit {0})
os_chmod path mode w =
    change w (components path) (stat (components path) w.fs) λ n. record n { mode = mode }

abbrev entries : World → List Text → Option Node → World × Result (List Entry)
entries w p none = (w, err (io not_exist))
entries w p (some n) =
    if n.is_dir then (w, ok (sort_entries (children p w.fs))) else (w, err (io not_dir))

-- os.ReadDir(path)
unfoldable pub os_read_dir : Text → M (List Entry)
os_read_dir path w = entries w (components path) (stat (components path) w.fs)

abbrev file_content : World → Option Node → World × Result Text
file_content w none = (w, err (io not_exist))
file_content w (some n) = if n.is_dir then (w, err (io is_a_dir)) else (w, ok n.content)

-- os.ReadFile(path)
unfoldable pub os_read_file : Text → M Text
os_read_file path w = file_content w (stat (components path) w.fs)

abbrev is_directory : Option Node → Bool
is_directory none = false
is_directory (some n) = n.is_dir

abbrev written : World → Text → ℕ → Option Node → Option Node
written w body mode none =
    some (record { is_dir = false; mode = mode; uid = 0; gid = 0; mtime = w.now; content = body })
written w body mode (some n) =
    if n.is_dir then none else some (record n { content = body; mtime = w.now })

abbrev store : World → List Text → Option Node → World × Result (Unit {0})
store w p none = (w, err (io is_a_dir))
store w p (some n) = set_fs w (put p n w.fs)

-- os.WriteFile(path, body, mode): a file that is there keeps its mode and its owner.
unfoldable pub os_write_file : Text → Text → ℕ → M (Unit {0})
os_write_file path body mode w =
    let p = components path in
    if is_directory (stat (parent_of p) w.fs)
    then store w p (written w body mode (stat p w.fs))
    else (w, err (io not_exist))

abbrev rename_dir : World → List Text → List Text → Option Node → World × Result (Unit {0})
rename_dir w p q none = set_fs w (move p q w.fs)
rename_dir w p q (some m) = (w, err (io not_dir))

abbrev rename_file : World → List Text → List Text → Option Node → World × Result (Unit {0})
rename_file w p q none = set_fs w (move p q w.fs)
rename_file w p q (some m) =
    if m.is_dir then (w, err (io is_a_dir)) else set_fs w (move p q (prune q w.fs))

abbrev rename_node : World → List Text → List Text → Option Node → World × Result (Unit {0})
rename_node w p q none = (w, err (io not_exist))
rename_node w p q (some n) =
    if n.is_dir then rename_dir w p q (stat q w.fs) else rename_file w p q (stat q w.fs)

-- rename(2), where there is no directory at `q`.
abbrev rename_path : World → List Text → List Text → World × Result (Unit {0})
rename_path w p q =
    if is_nil p || is_nil q
    then (w, err (io busy))
    else if path_eq p q
    then (w, if is_some (stat p w.fs) then ok tt else err (io not_exist))
    else if is_above p q
    then (w, err (io invalid))
    else if not (is_directory (stat (parent_of q) w.fs))
    then (w, err (io not_exist))
    else rename_node w p q (stat p w.fs)

-- os.Rename(from, to): onto a directory that is there, os.Rename does not rename, unless the two
-- texts differ and lead to the same directory.
unfoldable pub os_rename : Text → Text → M (Unit {0})
os_rename from to w =
    let p = components from in
    let q = components to in
    if is_directory (stat q w.fs) && (text_eq from to || not (path_eq p q))
    then (w, err (io (if is_some (stat p w.fs) then already_exists else not_exist)))
    else rename_path w p q

-- os.RemoveAll(path): no error if there is nothing.
unfoldable pub os_remove_all : Text → M (Unit {0})
os_remove_all path w =
    let p = components path in
    if is_nil p then (record w { fs = [] }, err (io busy)) else set_fs w (prune p w.fs)
