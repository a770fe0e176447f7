-- ===== src/Borgrepo/Place.antt =====
-- internal/borgrepo/borgrepo.go: where a repository lives.
pub mod Confined
pub mod Others
use ngxborg.Base.{Bool, List, [], ◌∷◌, ◌++◌}
use ngxborg.Text.{Text, codes}
use ngxborg.Text.FilePath.{join_path}
use ngxborg.Machine.World.{World}
use ngxborg.Machine.Os.{os_exists}

unfoldable pub base : Text
base = codes "/var/lib/ngxborg/repos"

unfoldable pub trash_base : Text
trash_base = codes "/var/lib/ngxborg/.trash"

unfoldable pub repo_dir : Text → Text → Text
repo_dir tenant name = join_path (base ∷ tenant ∷ name ∷ [])

-- borgrepo.Path(tenant, name)
unfoldable pub path : Text → Text → Text
path tenant name = repo_dir tenant name

-- borgrepo.Exists(tenant, name)
unfoldable pub exists : World → Text → Text → Bool
exists w tenant name = os_exists w (repo_dir tenant name)
