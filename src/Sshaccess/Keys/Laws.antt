-- ===== src/Sshaccess/Keys/Laws.antt =====
-- What AddKey and RemoveKey leave in the file.
use ngxborg.Base.{
  ◌≡◌, ◌≢◌, refl, ◌∙◌, Bool, true, not, List, [], ◌∷◌, ◌++◌, some, arith, All, All-append, any,
  keep_if, append-nil, is_some, append_assoc, ◌||◌, Bool-cases, Option-cases, inl, inr,
}
use ngxborg.Text.{Text, text_eq}
use ngxborg.Text.Search.{text_eq_iff}
use ngxborg.Sshaccess.KeyLine.{KeyEntry, parse_line, line_key_material}
use ngxborg.Sshaccess.Keys.{retarget, with_key, without_key, parse_lines}

-- The entries of other keys.
abbrev pub others : Text → List KeyEntry → List KeyEntry
others material = keep_if λ e. not (text_eq e.key_material material)

-- The lines that ngxborg did not write.
abbrev pub foreign : List Text → List Text
foreign = keep_if λ l. not (is_some (parse_line l))

-- Whether a key is among the entries.
abbrev pub holds_key : Text → List KeyEntry → Bool
holds_key material = any λ e. text_eq e.key_material material

-- Every entry of the key is `e`, and there is one.
pub record OnlyAs (material : Text) (e : KeyEntry) (es : List KeyEntry) : Type 0 where
  pub only : All (λ f. f.key_material ≡ material → f ≡ e) es
  pub held : holds_key material es ≡ true

parse_lines-append : (ls ms : List Text) → parse_lines (ls ++ ms) ≡ parse_lines ls ++ parse_lines ms
unfolding parse_lines
parse_lines-append [] ms = refl
parse_lines-append (l ∷ ls) ms = rw (parse_lines-append ls ms) (rw append_assoc)

pub keep_if-append {ℓ} :
    {A : Type ℓ} (p : A → Bool) (xs ys : List A)
    → keep_if p (xs ++ ys) ≡ keep_if p xs ++ keep_if p ys
keep_if-append p [] ys = refl
keep_if-append p (x ∷ xs) ys = ground (arith, keep_if-append p xs ys)

any-append {ℓ} :
    {A : Type ℓ} (p : A → Bool) (xs ys : List A) → any p (xs ++ ys) ≡ (any p xs || any p ys)
any-append p [] ys = refl
any-append p (x ∷ xs) ys = ground (arith, any-append p xs ys)

module _ (material new_line : Text) (e : KeyEntry) (reads : parse_line new_line ≡ some e)
    (same : e.key_material ≡ material) (named : material ≢ []) where
  retarget_only :
      (lines : List Text)
      → All
          (λ f. f.key_material ≡ material → f ≡ e)
          (parse_lines (retarget material new_line lines).out)
  unfolding retarget parse_lines line_key_material
  retarget_only [] = tt
  retarget_only (l ∷ ls) = elim (Option-cases (parse_line l)) [
    | inl n ↦ ground (arith, retarget_only ls, text_eq_iff [] material)
    | inr (f, n) ↦ ground (arith, retarget_only ls, text_eq_iff f.key_material material)
  ]

  retarget_met :
      (lines : List Text)
      → holds_key material (parse_lines (retarget material new_line lines).out)
        ≡ (retarget material new_line lines).met
  unfolding retarget parse_lines line_key_material
  retarget_met [] = refl
  retarget_met (l ∷ ls) = elim (Option-cases (parse_line l)) [
    | inl n ↦
        ground
          (arith, retarget_met ls, text_eq_iff [] material, text_eq_iff e.key_material material)
    | inr (f, n) ↦ ground (
      arith,
      retarget_met ls,
      text_eq_iff f.key_material material,
      text_eq_iff e.key_material material,
    )
  ]

  others-retarget :
      (lines : List Text)
      → others material (parse_lines (retarget material new_line lines).out)
        ≡ others material (parse_lines lines)
  unfolding retarget parse_lines line_key_material
  others-retarget [] = refl
  others-retarget (l ∷ ls) = elim (Option-cases (parse_line l)) [
    | inl n ↦
        ground
          (arith, others-retarget ls, text_eq_iff [] material, text_eq_iff e.key_material material)
    | inr (f, n) ↦ ground (
      arith,
      others-retarget ls,
      text_eq_iff f.key_material material,
      text_eq_iff e.key_material material,
    )
  ]

  foreign-retarget :
      (lines : List Text) → foreign (retarget material new_line lines).out ≡ foreign lines
  unfolding retarget line_key_material
  foreign-retarget [] = refl
  foreign-retarget (l ∷ ls) = elim (Option-cases (parse_line l)) [
    | inl n ↦ ground (arith, foreign-retarget ls, text_eq_iff [] material)
    | inr (f, n) ↦ ground (arith, foreign-retarget ls, text_eq_iff f.key_material material)
  ]

  pub parse_lines_new :
      (ls : List Text) → parse_lines (ls ++ new_line ∷ []) ≡ parse_lines ls ++ e ∷ []
  unfolding parse_lines
  parse_lines_new ls = rw (parse_lines-append ls (new_line ∷ []), parse_lines, reads)

  pub with_key-OnlyAs :
      (lines : List Text) → OnlyAs material e (parse_lines (with_key material new_line lines))
  unfolding with_key
  with_key-OnlyAs lines = elim (Bool-cases (retarget material new_line lines).met) [
    | inl m ↦ rw m (record { only = retarget_only lines; held = retarget_met lines ∙ m })
    | inr m ↦ rw m (
        rw (parse_lines_new (retarget material new_line lines).out) (record {
          only =
              All-append (λ f. f.key_material ≡ material → f ≡ e) _ (e ∷ []) (retarget_only lines)
                ((λ _. refl), tt);
          held = rw any-append (ground (arith, text_eq_iff e.key_material material));
        }))
  ]

  pub others-with_key :
      (lines : List Text)
      → others material (parse_lines (with_key material new_line lines))
        ≡ others material (parse_lines lines)
  unfolding with_key
  others-with_key lines = elim (Bool-cases (retarget material new_line lines).met) [
    | inl m ↦ rw m (others-retarget lines)
    | inr m ↦ rw m (
        rw (parse_lines_new (retarget material new_line lines).out) (
          rw keep_if-append (
            ground (
              arith,
              text_eq_iff e.key_material material,
              others-retarget lines,
              append-nil (others material (parse_lines (retarget material new_line lines).out)),
            ))))
  ]

  pub foreign-with_key :
      (lines : List Text) → foreign (with_key material new_line lines) ≡ foreign lines
  unfolding with_key
  foreign-with_key lines = elim (Bool-cases (retarget material new_line lines).met) [
    | inl m ↦ rw m (foreign-retarget lines)
    | inr m ↦ rw m (
        rw keep_if-append (
          ground (
            arith,
            reads,
            foreign-retarget lines,
            append-nil (foreign (retarget material new_line lines).out),
          )))
  ]

pub without_key_entries :
    (material : Text) (lines : List Text)
    → material ≢ []
    → parse_lines (without_key material lines).out ≡ others material (parse_lines lines)
unfolding without_key parse_lines line_key_material
without_key_entries material [] h = refl
without_key_entries material (l ∷ ls) h = elim (Option-cases (parse_line l)) [
  | inl n ↦ ground (arith, without_key_entries material ls h, text_eq_iff [] material)
  | inr (f, n) ↦
      ground (arith, without_key_entries material ls h, text_eq_iff f.key_material material)
]

pub foreign-without_key :
    (material : Text) (lines : List Text)
    → material ≢ []
    → foreign (without_key material lines).out ≡ foreign lines
unfolding without_key line_key_material
foreign-without_key material [] h = refl
foreign-without_key material (l ∷ ls) h = elim (Option-cases (parse_line l)) [
  | inl n ↦ ground (arith, foreign-without_key material ls h, text_eq_iff [] material)
  | inr (f, n) ↦
      ground (arith, foreign-without_key material ls h, text_eq_iff f.key_material material)
]

pub without_key_met :
    (material : Text) (lines : List Text)
    → material ≢ []
    → (without_key material lines).met ≡ holds_key material (parse_lines lines)
unfolding without_key parse_lines line_key_material
without_key_met material [] h = refl
without_key_met material (l ∷ ls) h = elim (Option-cases (parse_line l)) [
  | inl n ↦ ground (arith, without_key_met material ls h, text_eq_iff [] material)
  | inr (f, n) ↦ ground (arith, without_key_met material ls h, text_eq_iff f.key_material material)
]
