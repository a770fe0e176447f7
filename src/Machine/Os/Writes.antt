-- ===== src/Machine/Os/Writes.antt =====
-- A file that was written is read back.
use ngxborg.Base.{ℕ, ◌≡◌, refl, false, some, arith, Option-cases, inl, inr}
use ngxborg.Text.{Text}
use ngxborg.Text.FilePath.{components}
use ngxborg.Machine.Fs.{Node, put, stat}
use ngxborg.Machine.Error.{ok}
use ngxborg.Machine.World.{World}
use ngxborg.Machine.Os.{os_write_file, os_read_file}

-- A file with this content.
pub record IsFile (body : Text) (n : Node) : Type 0 where
  pub plain : n.is_dir ≡ false
  pub holds : n.content ≡ body

pub os_write_file-ok :
    (path body : Text) (mode : ℕ) (w : World)
    → (os_write_file path body mode w).1 ≡ ok tt
    → (n : Node) × IsFile body n
      × ((os_write_file path body mode w).0 ≡ record w { fs = put (components path) n w.fs })
unfolding os_write_file
os_write_file-ok path body mode w h = elim (Option-cases (stat (components path) w.fs)) [
  | inl e ↦ (
    record { is_dir = false; mode = mode; uid = 0; gid = 0; mtime = w.now; content = body },
    record { plain = refl; holds = refl },
    ground (arith, e, h),
  )
  | inr (n, e) ↦ (
    record n { content = body; mtime = w.now },
    record { plain = ground (arith, e, h); holds = refl },
    ground (arith, e, h),
  )
]

pub os_read_file-file :
    (path body : Text) (w : World) (n : Node)
    → stat (components path) w.fs ≡ some n
    → IsFile body n
    → os_read_file path w ≡ (w, ok body)
unfolding os_read_file
os_read_file-file path body w n e f = ground (arith, e, f.plain, f.holds)
