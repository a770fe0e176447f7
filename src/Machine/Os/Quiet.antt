-- ===== src/Machine/Os/Quiet.antt =====
-- The package `os` runs no command.
use ngxborg.Base.{ℕ, ◌≡◌, arith}
use ngxborg.Text.{Text}
use ngxborg.Machine.World.{World}
use ngxborg.Machine.Os.{os_mkdir_all, os_chmod, os_read_file, os_write_file, os_rename}

pub os_mkdir_all-quiet :
    (path : Text) (mode : ℕ) (w : World) → (os_mkdir_all path mode w).0.history ≡ w.history
unfolding os_mkdir_all
os_mkdir_all-quiet path mode w = ground arith

pub os_chmod-quiet :
    (path : Text) (mode : ℕ) (w : World) → (os_chmod path mode w).0.history ≡ w.history
unfolding os_chmod
os_chmod-quiet path mode w = ground arith

pub os_read_file-quiet : (path : Text) (w : World) → (os_read_file path w).0.history ≡ w.history
unfolding os_read_file
os_read_file-quiet path w = ground arith

pub os_write_file-quiet :
    (path body : Text) (mode : ℕ) (w : World)
    → (os_write_file path body mode w).0.history ≡ w.history
unfolding os_write_file
os_write_file-quiet path body mode w = ground arith

pub os_rename-quiet : (from to : Text) (w : World) → (os_rename from to w).0.history ≡ w.history
unfolding os_rename
os_rename-quiet from to w = ground arith
