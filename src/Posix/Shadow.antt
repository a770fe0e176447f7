-- ===== src/Posix/Shadow.antt =====
-- internal/posix/shadow.go, and IsDisabled of posix.go.
use ngxborg.Base.{
  ℕ, ◌/◌, Bool, true, false, List, [], ◌∷◌, Option, none, some, if◌then◌else◌, is_nil, leb,
  get_elem?,
}
use ngxborg.Text.{Text, codes, text_eq, split}
use ngxborg.Text.Decimal.{ℤ, pos, negsuc, atoi}
use ngxborg.Text.Lines.{scan, max_scan_token_size}
use ngxborg.Machine.Error.{no_shadow_entry, io, too_long_line, ok, err}
use ngxborg.Machine.World.{M, pure, gets, ◌>>=◌}
use ngxborg.Machine.Os.{os_read_file}

abbrev pub shadow_path : Text
shadow_path = codes "/etc/shadow"

abbrev is_user : Text → List Text → Bool
is_user username [] = false
is_user username (name ∷ _) = text_eq name username

abbrev field_of : Text → ℕ → List Text → Option Text
field_of username field fields = if is_user username fields then get_elem? fields field else none

abbrev first {ℓ} : {A : Type ℓ} → Option A → Option A → Option A
first none rest = rest
first (some a) rest = some a

-- The field of the first line that is the user's and has it.
unfoldable pub find_field : Text → ℕ → List Text → Option Text
unfolding split text_eq
find_field username field [] = none
find_field username field (l ∷ ls) =
    first (field_of username field (split b':' l)) (find_field username field ls)

abbrev field_result : Bool → Option Text → M Text
field_result too_long (some f) w = (w, ok f)
field_result true none w = (w, err (io too_long_line))
field_result false none w = (w, err no_shadow_entry)

unfoldable pub read_shadow_field : Text → ℕ → M Text
unfolding find_field scan os_read_file
read_shadow_field username field = do
  body ← os_read_file shadow_path
  let tokens = scan max_scan_token_size body
  field_result tokens.too_long (find_field username field tokens.lines)

-- int64(days) <= time.Now().Unix()/86400
abbrev pub expired_by : ℕ → Option ℤ → Bool
expired_by today none = false
expired_by today (some (pos days)) = leb days today
expired_by today (some (negsuc n)) = true

unfoldable pub is_disabled : Text → M Bool
unfolding read_shadow_field atoi
is_disabled username = do
  out ← read_shadow_field username 7
  today ← gets (λ w. w.now / 86400)
  pure (if is_nil out then false else expired_by today (atoi out))
