-- ===== src/Sshaccess/Files.antt =====
-- internal/sshaccess: atomicWrite of sshd.go, readLines and writeLines of keys.go.
pub mod ReadBack
use ngxborg.Base.{ℕ, ◌^◌, not, List, [], ◌∷◌, ◌++◌, if◌then◌else◌, is_nil, keep_if}
use ngxborg.Text.{Text, codes, trim_space, join}
use ngxborg.Text.Lines.{scan}
use ngxborg.Text.FilePath.{dir_of}
use ngxborg.Machine.Error.{io, not_exist, too_long_line, Result, ok, err}
use ngxborg.Machine.World.{M, attempt, ◌>>=◌, ◌>>◌}
use ngxborg.Machine.Os.{os_mkdir_all, os_write_file, os_rename, os_read_file}

unfoldable pub atomic_write : Text → Text → ℕ → M (Unit {0})
unfolding os_mkdir_all os_write_file os_rename dir_of
atomic_write path body mode = do
  os_mkdir_all (dir_of path) 0o755
  os_write_file (path ++ codes ".tmp") body mode
  os_rename (path ++ codes ".tmp") path

-- scanner.Buffer(make([]byte, 0, 64*1024), 1<<20)
abbrev pub line_limit : ℕ
line_limit = 2 ^ 20

-- The lines of a file that are not blank, and whether the scanner stopped at a line too long.
unfoldable pub file_lines : Text → List Text
unfolding scan trim_space
file_lines body = keep_if (λ l. not (is_nil (trim_space l))) (scan line_limit body).lines

abbrev parsed : Text → M (List Text)
parsed body w =
    if (scan line_limit body).too_long
    then (w, err (io too_long_line))
    else (w, ok (file_lines body))

-- A file that is not there has no lines.
abbrev lines_of : Result Text → M (List Text)
lines_of (ok body) w = parsed body w
lines_of (err (io not_exist)) w = (w, ok [])
lines_of (err e) w = (w, err e)

unfoldable pub read_lines : Text → M (List Text)
unfolding os_read_file file_lines scan
read_lines path = do raw ← attempt (os_read_file path); lines_of raw

-- The lines joined by line feeds, with one at the end.
unfoldable pub body_of : List Text → Text
unfolding join
body_of lines =
    let body = join (b'\n' ∷ []) lines in if is_nil body then body else body ++ b'\n' ∷ []

unfoldable pub write_lines : Text → List Text → M (Unit {0})
unfolding body_of atomic_write
write_lines path lines = atomic_write path (body_of lines) 0o600
