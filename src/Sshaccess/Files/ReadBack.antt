-- ===== src/Sshaccess/Files/ReadBack.antt =====
-- readLines of what writeLines wrote.
use ngxborg.Base.{
  ◌≡◌, refl, ap, ◌∙◌, false, not, List, [], ◌∷◌, ◌++◌, arith, All, is_nil, keep_if, leb, append-nil,
  append_assoc,
}
use ngxborg.Text.{Text, trim_space, trim_left, trim_right, join, contains_char, byte_len}
use ngxborg.Text.Lines.{scan, scan_raw, raw_lines, drop_cr}
use ngxborg.Sshaccess.Files.{line_limit, file_lines, body_of}

-- A line that a file of lines gives back as it is.
pub record IsStored (l : Text) : Type 0 where
  pub one_line : contains_char b'\n' l ≡ false
  pub not_blank : is_nil (trim_space l) ≡ false
  pub no_return : drop_cr l ≡ l
  pub fits : leb line_limit (byte_len l) ≡ false

-- Each line with its line feed.
ended : List Text → Text
ended [] = []
ended (l ∷ ls) = l ++ b'\n' ∷ ended ls

join-ended : (l : Text) (ls : List Text) → join (b'\n' ∷ []) (l ∷ ls) ++ b'\n' ∷ [] ≡ ended (l ∷ ls)
unfolding join ended
join-ended l [] = refl
join-ended l (m ∷ ls) = rw append_assoc (ap (λ r. l ++ b'\n' ∷ r) (join-ended m ls))

raw_lines-append :
    (acc l rest : Text)
    → contains_char b'\n' l ≡ false
    → raw_lines acc (l ++ b'\n' ∷ rest) ≡ (acc ++ l) ∷ raw_lines [] rest
unfolding raw_lines contains_char
raw_lines-append acc [] rest h = rw append-nil refl
raw_lines-append acc (c ∷ l) rest h =
    ground (arith, raw_lines-append (acc ++ c ∷ []) l rest, append_assoc acc (c ∷ []) l)

raw_lines-ended : (ls : List Text) → All IsStored ls → raw_lines [] (ended ls) ≡ ls
unfolding ended
raw_lines-ended [] h = unfold raw_lines in refl
raw_lines-ended (l ∷ ls) h =
    raw_lines-append [] l (ended ls) h.0.one_line ∙ ap (◌∷◌ l) (raw_lines-ended ls h.1)

scan_raw_lem :
    (ls : List Text)
    → All IsStored ls
    → scan_raw line_limit ls ≡ record { lines = ls; too_long = false }
unfolding scan_raw
scan_raw_lem [] h = refl
scan_raw_lem (l ∷ ls) h = rw (h.0.fits, scan_raw_lem ls h.1, h.0.no_return) refl

keep_stored :
    (ls : List Text) → All IsStored ls → keep_if (λ l. not (is_nil (trim_space l))) ls ≡ ls
keep_stored [] h = refl
keep_stored (l ∷ ls) h = rw (h.0.not_blank, keep_stored ls h.1) refl

join-ne-nil : (l : Text) (ls : List Text) → IsStored l → is_nil (join (b'\n' ∷ []) (l ∷ ls)) ≡ false
unfolding join trim_space trim_left trim_right
join-ne-nil [] ls h = absurd (ground (arith, h.not_blank))
join-ne-nil (c ∷ l) [] h = refl
join-ne-nil (c ∷ l) (m ∷ ls) h = refl

body_of_lem : (ls : List Text) → All IsStored ls → body_of ls ≡ ended ls
unfolding body_of
body_of_lem [] h = unfold ended join in refl
body_of_lem (l ∷ ls) h = rw (join-ne-nil l ls h.0) (join-ended l ls)

-- For lines that are not blank, hold no line feed, end in no carriage return and are below the
-- reader's limit, readLines gives back exactly the lines that writeLines wrote, in their order,
-- and does not stop at a line too long.
pub file_lines-body_of :
    (ls : List Text)
    → All IsStored ls
    → (file_lines (body_of ls) ≡ ls) × ((scan line_limit (body_of ls)).too_long ≡ false)
unfolding file_lines scan
file_lines-body_of ls h =
    rw (body_of_lem ls h, raw_lines-ended ls h, scan_raw_lem ls h) (keep_stored ls h, refl)
