-- ===== src/Sshaccess/KeyLine/RoundTrip.antt =====
-- What `build_line` prints, `parse_line` reads back.
use ngxborg.Base.{
  ℕ, ◌+◌, ◌≡◌, refl, ap, ◌∙◌, Bool, true, false, List, [], ◌∷◌, ◌++◌, some, arith, if◌then◌else◌,
  is_nil, take, drop, length, All, Option-cases, inl, inr, subst, append-nil, take-length_append,
  drop-length_append,
}
use ngxborg.Text.{Text, codes, index, contains_char, trim_space, fields, join, is_space}
use ngxborg.Text.Search.{index-append, index-none, has_prefix-append, contains_char-append}
use ngxborg.Text.Words.{
  IsWord, fields-word, fields-word_end, fields-join, fields-trim_space, fields-IsWord,
}
use ngxborg.Sshaccess.KeyLine.{
  KeyEntry, key_line_prefix, append_only_flag, restrict_marker, build_line, parse_key_part,
  parse_command, parse_rest, parse_line, entry_of,
}

-- A path that stands in the forced command as it is: no blank, no quote.
pub record IsPlain (path : Text) : Type 0 where
  pub no_blank : contains_char b' ' path ≡ false
  pub no_quote : contains_char b'"' path ≡ false

abbrev key_fields : Text → Text → Text → Text
key_fields t k comment = t ++ (b' ' ∷ (k ++ (if is_nil comment then [] else b' ' ∷ comment)))

join-word : (w : Text) (ws : List Text) → IsWord w → is_nil (join (b' ' ∷ []) (w ∷ ws)) ≡ false
unfolding join
join-word [] ws h = absurd (h.0 refl)
join-word (c ∷ w) [] h = refl
join-word (c ∷ w) (v ∷ ws) h = refl

blank : is_space b' ' ≡ true
unfolding is_space
blank = refl

fields-key_fields :
    (t k : Text) (ws : List Text)
    → IsWord t
    → IsWord k
    → All IsWord ws
    → fields (key_fields t k (join (b' ' ∷ []) ws)) ≡ t ∷ k ∷ ws
unfolding join
fields-key_fields t k [] ht hk hs =
    fields-word t (k ++ []) b' ' ht blank ∙ ap (◌∷◌ t) (rw append-nil (fields-word_end k hk))
fields-key_fields t k (w ∷ ws) ht hk hs = rw (join-word w ws hs.0) (
    fields-word t _ b' ' ht blank
    ∙ ap (◌∷◌ t) (fields-word k _ b' ' hk blank ∙ ap (◌∷◌ k) (fields-join (w ∷ ws) hs)))

index-prefix : (c : ℕ) (p s : Text) → index ((c ∷ p) ++ s) (c ∷ p) ≡ some 0
unfolding index
index-prefix c p s = ground (arith, has_prefix-append (c ∷ p) s)

drop-behind : (a s : Text) (c : ℕ) → drop (length a + 1) (a ++ c ∷ s) ≡ s
drop-behind [] s c = refl
drop-behind (d ∷ a) s c = ground (arith, drop-behind a s c)

abbrev entry : Text → Bool → Text → Text → List Text → KeyEntry
entry path append_only t k ws = record {
  repo_path = path;
  append_only = append_only;
  key_type = t;
  key_material = k;
  comment = join (b' ' ∷ []) ws;
}

module _ (t k : Text) (ws : List Text) (ht : IsWord t) (hk : IsWord k) (hs : All IsWord ws) where
  abbrev key_part : Text
  key_part = restrict_marker ++ key_fields t k (join (b' ' ∷ []) ws)

  parse_key_part_lem :
      (path : Text) (append_only : Bool)
      → parse_key_part path append_only key_part ≡ some (entry path append_only t k ws)
  unfolding parse_key_part
  parse_key_part_lem path append_only =
      rw
        (
          index-prefix b',' (codes "restrict ") (key_fields t k (join (b' ' ∷ []) ws)),
          parse_key_part,
        )
        (rw (fields-trim_space, fields-key_fields t k ws ht hk hs))

  parse_command_lem :
      (path : Text) (append_only : Bool)
      → IsPlain path
      → parse_command (path ++ (if append_only then append_only_flag else [])) key_part
        ≡ some (entry path append_only t k ws)
  unfolding parse_command
  parse_command_lem path true h =
      rw (index-append path (codes "--append-only") [] b' ' h.no_blank, parse_command)
        (rw take-length_append (parse_key_part_lem path true))
  parse_command_lem path false h = rw append-nil (
      rw (index-none path (codes "--append-only") b' ' h.no_blank, parse_command)
        (parse_key_part_lem path false))

  parse_rest_lem :
      (path : Text) (append_only : Bool)
      → IsPlain path
      → parse_rest ((path ++ (if append_only then append_only_flag else [])) ++ (b'"' ∷ key_part))
        ≡ some (entry path append_only t k ws)
  unfolding parse_rest
  parse_rest_lem path append_only h =
      let cmd : Text = path ++ (if append_only then append_only_flag else []) in
      rw (index-append cmd [] key_part b'"' (no_quote append_only), parse_rest)
        (rw (take-length_append cmd (b'"' ∷ key_part), drop-behind cmd key_part b'"')
          (parse_command_lem path append_only h))
    where
      no_quote :
          (a : Bool) → contains_char b'"' (path ++ (if a then append_only_flag else [])) ≡ false
      no_quote true =
          contains_char-append b'"' path append_only_flag h.no_quote (unfold contains_char in refl)
      no_quote false = rw append-nil h.no_quote

  build_line-splits :
      (path : Text) (append_only : Bool)
      → build_line path append_only t k (join (b' ' ∷ []) ws)
        ≡ key_line_prefix
          ++ ((path ++ (if append_only then append_only_flag else [])) ++ (b'"' ∷ key_part))
  unfolding build_line key_line_prefix
  build_line-splits path append_only = refl

  -- A line that is printed for a plain path, two words and a comment of words is read back whole.
  pub parse_line-build_line :
      (path : Text) (append_only : Bool)
      → IsPlain path
      → parse_line (build_line path append_only t k (join (b' ' ∷ []) ws))
        ≡ some (entry path append_only t k ws)
  unfolding parse_line
  parse_line-build_line path append_only h = rw (build_line-splits path append_only) (
      rw (has_prefix-append key_line_prefix _, parse_line)
        (rw (drop-length_append key_line_prefix _) (parse_rest_lem path append_only h)))

parse_key_part_material :
    (path after : Text) (append_only : Bool) (e : KeyEntry)
    → parse_key_part path append_only after ≡ some e
    → IsWord e.key_material
unfolding parse_key_part
parse_key_part_material path after append_only e h =
    elim (Option-cases (index after restrict_marker)) [
      | inl n ↦ absurd (ground arith)
      | inr (mi, n) ↦
          words_material (fields (trim_space (drop (mi + length restrict_marker) after)))
            (fields-IsWord _) (ground arith)
    ]
  where
    words_material :
        (fs : List Text)
        → All IsWord fs
        → entry_of path append_only fs ≡ some e
        → IsWord e.key_material
    words_material [] w h = absurd (ground arith)
    words_material (t ∷ []) w h = absurd (ground arith)
    words_material (t ∷ k ∷ cs) w h = subst IsWord (ground arith) w.1.0

parse_command_material :
    (cmd after : Text) (e : KeyEntry) → parse_command cmd after ≡ some e → IsWord e.key_material
unfolding parse_command
parse_command_material cmd after e h = elim (Option-cases (index cmd append_only_flag)) [
  | inl n ↦ parse_key_part_material cmd after false e (rw (← h, n, parse_command))
  | inr (i, n) ↦ parse_key_part_material (take i cmd) after true e (rw (← h, n, parse_command))
]

parse_rest_material :
    (rest : Text) (e : KeyEntry) → parse_rest rest ≡ some e → IsWord e.key_material
unfolding parse_rest
parse_rest_material rest e h = elim (Option-cases (index rest (b'"' ∷ []))) [
  | inl n ↦ absurd (ground arith)
  | inr (i, n) ↦
      parse_command_material (take i rest) (drop (i + 1) rest) e (rw (← h, n, parse_rest))
]

-- The key material of a line that is read is a word.
pub parse_line_material :
    (line : Text) (e : KeyEntry) → parse_line line ≡ some e → IsWord e.key_material
unfolding parse_line
parse_line_material line e h =
    parse_rest_material (drop (length key_line_prefix) line) e (ground arith)
