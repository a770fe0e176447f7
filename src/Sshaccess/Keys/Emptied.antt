-- ===== src/Sshaccess/Keys/Emptied.antt =====
-- RemoveKey with empty key material.
use ngxborg.Base.{
  ◌≡◌, ◌≢◌, refl, ◌∙◌, true, not, List, [], ◌∷◌, arith, is_nil, Option-cases, inl, inr,
}
use ngxborg.Text.{Text}
use ngxborg.Text.Search.{text_eq_iff, text_eq_ne}
use ngxborg.Machine.Error.{ok}
use ngxborg.Machine.World.{World}
use ngxborg.Sshaccess.Files.{read_lines}
use ngxborg.Sshaccess.KeyLine.{parse_line, line_key_material}
use ngxborg.Sshaccess.KeyLine.RoundTrip.{parse_line_material}
use ngxborg.Sshaccess.Keys.{without_key, parse_lines, remove_key, Located, authorized_keys_path}
use ngxborg.Sshaccess.Keys.Laws.{foreign}
use ngxborg.Sshaccess.Keys.Registered.{without_key_empty}
use ngxborg.Sshaccess.Keys.Saved.{saved, read_as}

-- Empty key material is found exactly if there is a line that is not ngxborg's.
without_key_empty_met :
    (lines : List Text) → (without_key [] lines).met ≡ not (is_nil (foreign lines))
unfolding without_key line_key_material
without_key_empty_met [] = refl
without_key_empty_met (l ∷ ls) = elim (Option-cases (parse_line l)) [
  | inl n ↦ ground (arith, text_eq_iff [] [])
  | inr (f, n) ↦
      ground (
        arith,
        without_key_empty_met ls,
        text_eq_ne f.key_material [] (parse_line_material l f n).0,
      )
]

not_nil {ℓ} : {A : Type ℓ} (xs : List A) → xs ≢ [] → not (is_nil xs) ≡ true
not_nil [] h = absurd (h refl)
not_nil (x ∷ xs) h = refl

-- Where the account's file is found and read, and has a line that is not ngxborg's: RemoveKey with
-- empty key material writes a file without any such line and with all entries that are ngxborg's,
-- and sets its owner.
pub remove_key_empty :
    (username : Text) (file : Located) (existing : List Text) (w : World)
    → (authorized_keys_path username w).1 ≡ ok file
    → (read_lines file.path (authorized_keys_path username w).0).1 ≡ ok existing
    → foreign existing ≢ []
    → (kept : List Text) × (remove_key username [] w
        ≡ saved file kept (authorized_keys_path username w).0)
      × (foreign kept ≡ [])
      × (parse_lines kept ≡ parse_lines existing)
unfolding remove_key
remove_key_empty username file existing w f r some_foreign =
    let v = (authorized_keys_path username w).0 in
    let met = without_key_empty_met existing ∙ not_nil (foreign existing) some_foreign in
    let laws = without_key_empty existing in
    (
      (without_key [] existing).out,
      rw (f, read_as file.path v existing r, met) refl,
      laws.0,
      laws.1,
    )
