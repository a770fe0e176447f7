-- ===== src/Borgrepo/Name.antt =====
-- internal/borgrepo/borgrepo.go: ValidateName.
use ngxborg.Base.{ℕ, Bool, true, false, ◌&&◌, ◌||◌, [], ◌∷◌, leb, ◌==◌, length}
use ngxborg.Text.{Text}

-- [a-zA-Z0-9]
unfoldable pub is_alnum : ℕ → Bool
is_alnum c = (leb b'a' c && leb c b'z') || (leb b'A' c && leb c b'Z') || (leb b'0' c && leb c b'9')

-- [a-zA-Z0-9_-]
unfoldable pub is_name_char : ℕ → Bool
unfolding is_alnum
is_name_char c = is_alnum c || (c == b'_') || (c == b'-')

abbrev pub all_chars : (ℕ → Bool) → Text → Bool
all_chars p [] = true
all_chars p (c ∷ s) = p c && all_chars p s

-- ^[a-zA-Z0-9][a-zA-Z0-9_-]{0,63}$
unfoldable pub valid_name : Text → Bool
unfolding is_name_char
valid_name [] = false
valid_name (c ∷ s) = is_alnum c && all_chars is_name_char s && leb (length s) 63
