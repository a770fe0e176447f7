-- ===== src/Borgrepo/Trash/Latest.antt =====
-- Which trash entry findInTrash chooses.
use ngxborg.Base.{
  ◌≡◌, sym, subst, ◌∙◌, ◌⊎◌, inl, inr, refl, Bool, true, false, ◌&&◌, ◌||◌, List, [], ◌∷◌, arith,
  All, if◌then◌else◌, any, Bool-cases,
}
use ngxborg.Text.{Text, has_prefix, text_lt, text_eq}
use ngxborg.Text.Search.{text_eq_refl}
use ngxborg.Machine.Fs.{Entry}
use ngxborg.Borgrepo.Trash.{latest_in}

text_lt_trans : (a b c : Text) → text_lt a b ≡ true → text_lt b c ≡ true → text_lt a c ≡ true
unfolding text_lt
text_lt_trans [] [] c h k = absurd (ground arith)
text_lt_trans [] (y ∷ b) [] h k = absurd (ground arith)
text_lt_trans [] (y ∷ b) (z ∷ c) h k = refl
text_lt_trans (x ∷ a) [] c h k = absurd (ground arith)
text_lt_trans (x ∷ a) (y ∷ b) [] h k = absurd (ground arith)
text_lt_trans (x ∷ a) (y ∷ b) (z ∷ c) h k = ground (arith, text_lt_trans a b c)

-- Between two texts that are in order there is no third that is neither above the first nor
-- below the second.
text_lt_between : (a b c : Text) → text_lt a c ≡ true → (text_lt a b || text_lt b c) ≡ true
unfolding text_lt
text_lt_between [] [] [] h = absurd (ground arith)
text_lt_between [] (y ∷ b) [] h = absurd (ground arith)
text_lt_between [] [] (z ∷ c) h = refl
text_lt_between [] (y ∷ b) (z ∷ c) h = refl
text_lt_between (x ∷ a) b [] h = absurd (ground arith)
text_lt_between (x ∷ a) [] (z ∷ c) h = refl
text_lt_between (x ∷ a) (y ∷ b) (z ∷ c) h = ground (arith, text_lt_between a b c)

text_lt_irrefl : (a : Text) → text_lt a a ≡ false
unfolding text_lt
text_lt_irrefl [] = refl
text_lt_irrefl (x ∷ a) = ground (arith, text_lt_irrefl a)

module _ (prefix : Text) where
  -- No entry with the prefix has a greater name than `found`.
  abbrev pub IsLatest : Text → List Entry → Type 0
  IsLatest found = All λ e. has_prefix e.name prefix ≡ true → text_lt found e.name ≡ false

  abbrev better : Text → Entry → Bool
  better l e = has_prefix e.name prefix && text_lt l e.name

  latest_in_step :
      (l : Text) (e : Entry) (es : List Entry)
      → latest_in prefix l (e ∷ es) ≡ latest_in prefix (if better l e then e.name else l) es
  unfolding latest_in
  latest_in_step l e es = refl

  -- Either the entry is the best so far, or the old one stays.
  pub latest_in_cases :
      (P : Text → Type 0) (l : Text) (e : Entry) (es : List Entry)
      → (better l e ≡ true → P (latest_in prefix e.name es))
      → (better l e ≡ false → P (latest_in prefix l es))
      → P (latest_in prefix l (e ∷ es))
  latest_in_cases P l e es taken kept = elim (Bool-cases (better l e)) [
    | inl h ↦ subst P (sym (latest_in_step l e es ∙ rw h refl)) (taken h)
    | inr h ↦ subst P (sym (latest_in_step l e es ∙ rw h refl)) (kept h)
  ]

  latest_in_ge : (l : Text) (es : List Entry) → text_lt (latest_in prefix l es) l ≡ false
  latest_in_ge l [] = unfold latest_in in text_lt_irrefl l
  latest_in_ge l (e ∷ es) =
      latest_in_cases (λ r. text_lt r l ≡ false) l e es
        (λ h.
          ground
            (arith, latest_in_ge e.name es, text_lt_trans (latest_in prefix e.name es) l e.name))
        (λ h. latest_in_ge l es)

  latest_in-IsLatest : (l : Text) (es : List Entry) → IsLatest (latest_in prefix l es) es
  latest_in-IsLatest l [] = tt
  latest_in-IsLatest l (e ∷ es) =
      latest_in_cases (λ r. IsLatest r (e ∷ es)) l e es
        (λ h. ((λ p. latest_in_ge e.name es), latest_in-IsLatest e.name es))
        (λ h. (
          (λ p.
              ground (arith, latest_in_ge l es, text_lt_between (latest_in prefix l es) l e.name)),
          latest_in-IsLatest l es,
        ))

  -- Whether `found` is the name of an entry with the prefix.
  abbrev pub is_found : Text → List Entry → Bool
  is_found found = any λ e. has_prefix e.name prefix && text_eq e.name found

  IsOldOrFound : Text → List Entry → Text → Type 0
  IsOldOrFound l es r = (r ≡ l) ⊎ (is_found r es ≡ true)

  latest_in_found : (l : Text) (es : List Entry) → IsOldOrFound l es (latest_in prefix l es)
  unfolding IsOldOrFound
  latest_in_found l [] = inl (unfold latest_in in refl)
  latest_in_found l (e ∷ es) =
      latest_in_cases (IsOldOrFound l (e ∷ es)) l e es
        (λ h. ground (arith, latest_in_found e.name es, text_eq_refl e.name))
        (λ h. ground (arith, latest_in_found l es))

  -- The loop of findInTrash ends with "" or with the name of an entry that has the prefix, and no
  -- entry with the prefix has a greater name.
  pub latest_in_lem :
      (es : List Entry)
      → ((latest_in prefix [] es ≡ []) ⊎ (is_found (latest_in prefix [] es) es ≡ true))
        × IsLatest (latest_in prefix [] es) es
  unfolding IsOldOrFound
  latest_in_lem es = (latest_in_found [] es, latest_in-IsLatest [] es)
