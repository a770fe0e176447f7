-- ===== src/Posix/Members/RoundTrip.antt =====
-- What readGroupFile makes of lines in the format of group(5).
use ngxborg.Base.{
  ◌≡◌, ◌≢◌, refl, sym, ap, ◌∙◌, false, List, [], ◌∷◌, ◌++◌, append-nil, All, map, arith, is_nil,
  ◌||◌,
}
use ngxborg.Text.{Text, codes, split, join, has_prefix, contains_char}
use ngxborg.Text.Search.{split-join, split_one, contains_char-append}
use ngxborg.Posix.Members.{GroupEntry, member_list, parse_group_line, parse_group_lines}

-- name:x:gid:member,member
abbrev pub group_line : GroupEntry → Text
group_line g =
    g.name ++ (b':' ∷ (codes "x" ++ (b':' ∷ (g.gid ++ (b':' ∷ join (b',' ∷ []) g.members)))))

-- A member's name.
abbrev pub IsMember : Text → Type 0
IsMember s = (s ≢ []) × (contains_char b':' s ≡ false) × (contains_char b',' s ≡ false)

pub record IsGroup (g : GroupEntry) : Type 0 where
  pub named : g.name ≢ []
  pub no_comment : has_prefix g.name (codes "#") ≡ false
  pub plain_name : contains_char b':' g.name ≡ false
  pub plain_gid : contains_char b':' g.gid ≡ false
  pub plain_members : All IsMember g.members

members_plain :
    (ms : List Text) → All IsMember ms → contains_char b':' (join (b',' ∷ []) ms) ≡ false
unfolding join contains_char
members_plain [] h = refl
members_plain (m ∷ []) h = h.0.1
members_plain (m ∷ n ∷ ms) h =
    contains_char-append b':' m (b',' ∷ join (b',' ∷ []) (n ∷ ms)) h.0.1
      (members_plain (n ∷ ms) h.1)

no_commas : (ms : List Text) → All IsMember ms → All (λ s. contains_char b',' s ≡ false) ms
no_commas [] h = tt
no_commas (m ∷ ms) h = (h.0.2, no_commas ms h.1)

member_list-named :
    (m : Text) (rest : Text) → m ≢ [] → member_list (m ++ rest) ≡ split b',' (m ++ rest)
member_list-named [] rest h = absurd (h refl)
member_list-named (c ∷ m) rest h = refl

member_list-join : (ms : List Text) → All IsMember ms → member_list (join (b',' ∷ []) ms) ≡ ms
unfolding join
member_list-join [] h = refl
member_list-join (m ∷ []) h =
    ap member_list (sym (append-nil m))
    ∙ member_list-named m [] h.0.0
    ∙ ap (split b',') (append-nil m)
    ∙ split_one b',' m h.0.2
member_list-join (m ∷ n ∷ ms) h =
    member_list-named m (b',' ∷ join (b',' ∷ []) (n ∷ ms)) h.0.0
    ∙ split-join b',' m (n ∷ ms) (no_commas (m ∷ n ∷ ms) h)

group_fields : GroupEntry → List Text
group_fields g = g.name ∷ codes "x" ∷ g.gid ∷ join (b',' ∷ []) g.members ∷ []

split-group_line : (g : GroupEntry) → IsGroup g → split b':' (group_line g) ≡ group_fields g
unfolding group_fields join contains_char
split-group_line g h =
    split-join b':' g.name (codes "x" ∷ g.gid ∷ join (b',' ∷ []) g.members ∷ [])
      (h.plain_name, (refl, (h.plain_gid, (members_plain g.members h.plain_members, tt))))

-- A line that begins with a name is neither empty nor a comment.
no_comment_line :
    (name rest : Text)
    → name ≢ []
    → has_prefix name (codes "#") ≡ false
    → (is_nil (name ++ rest) || has_prefix (name ++ rest) (codes "#")) ≡ false
unfolding has_prefix
no_comment_line [] rest h k = absurd (h refl)
no_comment_line (c ∷ name) rest h k = ground (arith, k)

-- A line of group(5), with a name that is not empty and begins no comment, without colons in its
-- fields, and with members that are not empty and hold no comma, is read back whole.
pub parse_group_line-group_line :
    (g : GroupEntry) → IsGroup g → parse_group_line (group_line g) ≡ g ∷ []
unfolding parse_group_line group_fields
parse_group_line-group_line g h =
    rw
      (
        no_comment_line g.name _ h.named h.no_comment,
        split-group_line g h,
        member_list-join g.members h.plain_members,
      )
      refl

-- Lines name:x:gid:member,member of groups whose names are not empty and begin no comment, whose
-- fields have no colon, and whose members are not empty and hold no comma, are read back as these
-- groups, in their order.
pub parse_group_lines-map :
    (gs : List GroupEntry) → All IsGroup gs → parse_group_lines (map group_line gs) ≡ gs
unfolding parse_group_lines
parse_group_lines-map [] h = refl
parse_group_lines-map (g ∷ gs) h =
    ap (λ l. l ++ parse_group_lines (map group_line gs)) (parse_group_line-group_line g h.0)
    ∙ ap (◌∷◌ g) (parse_group_lines-map gs h.1)
