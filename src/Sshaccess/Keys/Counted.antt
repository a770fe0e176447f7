-- ===== src/Sshaccess/Keys/Counted.antt =====
-- How many entries of a key AddKey leaves.
use ngxborg.Base.{
  ◌≡◌, ◌≢◌, refl, ap, ◌∙◌, true, false, not, List, [], ◌∷◌, ◌++◌, some, arith, map, keep_if, is_nil,
  Bool-cases, Option-cases, inl, inr,
}
use ngxborg.Text.{Text, text_eq}
use ngxborg.Text.Search.{text_eq_iff}
use ngxborg.Sshaccess.KeyLine.{KeyEntry, parse_line, line_key_material}
use ngxborg.Sshaccess.Keys.{retarget, with_key, parse_lines}
use ngxborg.Sshaccess.Keys.Laws.{keep_if-append, parse_lines_new}

-- The entries of a key.
abbrev pub of_key : Text → List KeyEntry → List KeyEntry
of_key material = keep_if λ e. text_eq e.key_material material

-- One entry in the place of none, and as many as there were in the place of others.
abbrev pub in_place : KeyEntry → List KeyEntry → List KeyEntry
in_place e [] = e ∷ []
in_place e (f ∷ fs) = e ∷ map (λ _. e) fs

module _ (material new_line : Text) (e : KeyEntry) (reads : parse_line new_line ≡ some e)
    (same : e.key_material ≡ material) (named : material ≢ []) where
  of_key-retarget :
      (lines : List Text)
      → of_key material (parse_lines (retarget material new_line lines).out)
        ≡ map (λ _. e) (of_key material (parse_lines lines))
  unfolding retarget parse_lines line_key_material
  of_key-retarget [] = refl
  of_key-retarget (l ∷ ls) = elim (Option-cases (parse_line l)) [
    | inl n ↦
        ground
          (arith, of_key-retarget ls, text_eq_iff [] material, text_eq_iff e.key_material material)
    | inr (f, n) ↦ ground (
      arith,
      of_key-retarget ls,
      text_eq_iff f.key_material material,
      text_eq_iff e.key_material material,
    )
  ]

  retarget_met :
      (lines : List Text)
      → is_nil (of_key material (parse_lines lines)) ≡ not (retarget material new_line lines).met
  unfolding retarget parse_lines line_key_material
  retarget_met [] = refl
  retarget_met (l ∷ ls) = elim (Option-cases (parse_line l)) [
    | inl n ↦ ground (arith, retarget_met ls, text_eq_iff [] material)
    | inr (f, n) ↦ ground (arith, retarget_met ls, text_eq_iff f.key_material material)
  ]

  all_replaced : (es : List KeyEntry) → is_nil es ≡ false → map (λ _. e) es ≡ in_place e es
  all_replaced [] h = absurd (ground (arith, h))
  all_replaced (f ∷ fs) h = refl

  one_added : (es : List KeyEntry) → is_nil es ≡ true → map (λ _. e) es ++ e ∷ [] ≡ in_place e es
  one_added [] h = refl
  one_added (f ∷ fs) h = absurd (ground (arith, h))

  pub of_key-with_key :
      (lines : List Text)
      → of_key material (parse_lines (with_key material new_line lines))
        ≡ in_place e (of_key material (parse_lines lines))
  unfolding with_key
  of_key-with_key lines =
      let was = retarget_met lines in
      elim (Bool-cases (retarget material new_line lines).met) [
        | inl m ↦ rw m (
            of_key-retarget lines
            ∙ all_replaced (of_key material (parse_lines lines)) (was ∙ ap not m))
        | inr m ↦ rw m (
            rw
              (
                parse_lines_new material new_line e reads same named
                    (retarget material new_line lines).out,
                keep_if-append,
                of_key-retarget lines,
              )
              (rw ((text_eq_iff e.key_material material).1 same)
                (one_added (of_key material (parse_lines lines)) (was ∙ ap not m))))
      ]
