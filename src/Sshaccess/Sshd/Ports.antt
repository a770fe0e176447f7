-- ===== src/Sshaccess/Sshd/Ports.antt =====
-- What BorgPort reads from the drop-in that EnsureDualPort writes.
use ngxborg.Base.{◌≡◌, ◌≢◌, refl, ap, false, List, [], ◌∷◌, ◌++◌, arith, append_assoc}
use mathlib.Core.Path.{ap₂}
use ngxborg.Text.{
  Text, codes, has_prefix, is_space, contains_char, split, trim_space, trim_left, trim_right,
}
use ngxborg.Text.Words.{trim_space-word, trim_space-blank}
use ngxborg.Text.Search.{split-append, split_one, contains_char-append, contains_char_none}
use ngxborg.Text.Decimal.{ℤ, itoa}
use ngxborg.Text.Decimal.Laws.{IsInt, atoi-itoa, All-itoa, itoa-IsWord}
use ngxborg.Sshaccess.Sshd.{
  template_head, template_tail, port_line, match_line, drop_in, port_in, ports_of,
}

ports_of-append : (ls ms : List Text) → ports_of (ls ++ ms) ≡ ports_of ls ++ ports_of ms
unfolding ports_of
ports_of-append [] ms = refl
ports_of-append (l ∷ ls) ms = rw (ports_of-append ls ms) (rw append_assoc)

no_line_feed : (z : ℤ) → contains_char b'\n' (itoa z) ≡ false
no_line_feed z =
    contains_char_none b'\n' (itoa z)
      (All-itoa (λ c. b'\n' ≢ c) (λ d h e. omega arith) (λ e. omega arith) z)

port_in-port_line : (z : ℤ) → IsInt z → port_in (port_line z) ≡ z ∷ []
unfolding port_in
port_in-port_line z h =
    rw (trim_space-word b'P' (codes "ort ") (itoa z) (unfold is_space in refl) (itoa-IsWord z))
      (unfold has_prefix in rw (trim_space-blank (itoa z) (itoa-IsWord z)) (rw (atoi-itoa z h)))

port_in-match_line : (z : ℤ) → port_in (match_line z) ≡ []
unfolding port_in
port_in-match_line z =
    rw
      (trim_space-word b'M' (codes "atch LocalPort ") (itoa z) (unfold is_space in refl)
        (itoa-IsWord z))
      (unfold has_prefix in refl)

line_of :
    (a : Text) (z : ℤ)
    → contains_char b'\n' a ≡ false
    → split b'\n' (a ++ itoa z) ≡ (a ++ itoa z) ∷ []
line_of a z h =
    split_one b'\n' (a ++ itoa z) (contains_char-append b'\n' a (itoa z) h (no_line_feed z))

head_ports : ports_of (split b'\n' template_head) ≡ []
unfolding template_head split ports_of port_in trim_space trim_left trim_right is_space has_prefix
head_ports = refl

tail_ports : ports_of (split b'\n' template_tail) ≡ []
unfolding template_tail split ports_of port_in trim_space trim_left trim_right is_space has_prefix
tail_ports = refl

-- A line that ends, and the lines behind it.
module _ {ps qs : List ℤ} where
  ports_of-line :
      (a b : Text)
      → ports_of (split b'\n' a) ≡ ps
      → ports_of (split b'\n' b) ≡ qs
      → ports_of (split b'\n' (a ++ b'\n' ∷ b)) ≡ ps ++ qs
  ports_of-line a b p q = rw (split-append b'\n' a b, ports_of-append) (ap₂ (λ x y. x ++ y) p q)

ports_of-port_line : (z : ℤ) → IsInt z → ports_of (split b'\n' (port_line z)) ≡ z ∷ []
unfolding ports_of
ports_of-port_line z h =
    rw (line_of (codes "Port ") z (unfold contains_char in refl))
      (ap (λ ps. ps ++ []) (port_in-port_line z h))

ports_of-match_line : (z : ℤ) → ports_of (split b'\n' (match_line z)) ≡ []
unfolding ports_of
ports_of-match_line z =
    rw (line_of (codes "Match LocalPort ") z (unfold contains_char in refl))
      (ap (λ ps. ps ++ []) (port_in-match_line z))

blank_ports : ports_of (split b'\n' []) ≡ []
unfolding split ports_of port_in trim_space trim_left trim_right has_prefix
blank_ports = refl

-- For any two 64-bit port numbers, the lines of the drop-in declare exactly the admin port and
-- then the borg port.
pub ports_of-drop_in :
    (admin_port borg_port : ℤ)
    → IsInt admin_port
    → IsInt borg_port
    → ports_of (split b'\n' (drop_in admin_port borg_port)) ≡ admin_port ∷ borg_port ∷ []
unfolding drop_in
ports_of-drop_in a b ha hb =
    let match = ports_of-line (match_line b) template_tail (ports_of-match_line b) tail_ports in
    let gap = ports_of-line [] (match_line b ++ (b'\n' ∷ template_tail)) blank_ports match in
    let borg = ports_of-line (port_line b) _ (ports_of-port_line b hb) gap in
    let admin = ports_of-line (port_line a) _ (ports_of-port_line a ha) borg in
    ports_of-line template_head _ head_ports admin
