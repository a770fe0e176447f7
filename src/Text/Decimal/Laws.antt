-- ===== src/Text/Decimal/Laws.antt =====
-- `Atoi` reads back what `Itoa` prints.
use ngxborg.Base.{
  ℕ, zero, suc, ◌+◌, ◌/◌, ◌%◌, ◌^◌, ◌<◌, ◌≡◌, ◌≢◌, refl, ◌∙◌, false, [], ◌∷◌, some, ltb, arith,
  Bool-cases, inl, inr, All,
}
use ngxborg.Text.{Text, is_space}
use ngxborg.Text.Words.{IsWord}
use ngxborg.Text.Decimal.{
  ℤ, pos, negsuc, digits_onto, print_nat, itoa, read_digits, parse_nat, in_range, atoi,
}

-- The integers of 64 bits.
abbrev pub IsInt : ℤ → Type 0
IsInt (pos n) = n < 2 ^ 63
IsInt (negsuc n) = n < 2 ^ 63

read_digits-digits_onto :
    (fuel n : ℕ) (out : Text)
    → n < fuel
    → read_digits 0 (digits_onto fuel n out) ≡ read_digits n out
unfolding digits_onto
read_digits-digits_onto zero n out h = elim h [ ]
read_digits-digits_onto (suc fuel) n out h = elim (Bool-cases (ltb n 10)) [
  | inl small ↦ rw small (unfold read_digits in ground arith)
  | inr large ↦ rw large (
      read_digits-digits_onto fuel (n / 10) _ (ground arith) ∙ (unfold read_digits in ground arith))
]

digits_onto-ne-nil : (fuel n : ℕ) (out : Text) → n < fuel → digits_onto fuel n out ≢ []
unfolding digits_onto
digits_onto-ne-nil zero n out h e = elim h [ ]
digits_onto-ne-nil (suc fuel) n out h e =
    ground (arith, digits_onto-ne-nil fuel (n / 10) ((b'0' + n % 10) ∷ out))

print_nat-ne-nil : (n : ℕ) → print_nat n ≢ []
unfolding print_nat
print_nat-ne-nil n = digits_onto-ne-nil (n + 1) n [] (omega arith)

read_digits-print_nat : (n : ℕ) → read_digits 0 (print_nat n) ≡ some n
unfolding print_nat
read_digits-print_nat n =
    read_digits-digits_onto (n + 1) n [] (omega arith) ∙ (unfold read_digits in refl)

parse_nat_ne : (s : Text) → s ≢ [] → parse_nat s ≡ read_digits 0 s
unfolding parse_nat
parse_nat_ne [] h = absurd (h refl)
parse_nat_ne (c ∷ s) h = refl

parse_nat-print_nat : (n : ℕ) → parse_nat (print_nat n) ≡ some n
parse_nat-print_nat n = parse_nat_ne (print_nat n) (print_nat-ne-nil n) ∙ read_digits-print_nat n

atoi_pos : (s : Text) (n : ℕ) → parse_nat s ≡ some n → n < 2 ^ 63 → atoi s ≡ some (pos n)
unfolding atoi parse_nat in_range read_digits
atoi_pos [] n e h = absurd (ground arith)
atoi_pos (c ∷ s) n e h = ground arith

-- `Atoi` gives back every 64-bit integer from its decimal text.
pub atoi-itoa : (z : ℤ) → IsInt z → atoi (itoa z) ≡ some z
atoi-itoa (pos n) h = unfold itoa in atoi_pos (print_nat n) n (parse_nat-print_nat n) h
atoi-itoa (negsuc n) h =
    unfold itoa atoi in rw (parse_nat-print_nat (n + 1)) (unfold in_range in ground arith)

All-digits_onto :
    (P : ℕ → Type 0)
    → ((d : ℕ) → d < 10 → P (b'0' + d))
    → (fuel n : ℕ) (out : Text) → All P out
    → All P (digits_onto fuel n out)
unfolding digits_onto
All-digits_onto P digit zero n out h = h
All-digits_onto P digit (suc fuel) n out h = elim (Bool-cases (ltb n 10)) [
  | inl small ↦ rw small (digit n (ground arith), h)
  | inr large ↦ rw large (All-digits_onto P digit fuel (n / 10) _ (digit (n % 10) (omega arith), h))
]

pub All-itoa :
    (P : ℕ → Type 0) → ((d : ℕ) → d < 10 → P (b'0' + d)) → P b'-' → (z : ℤ) → All P (itoa z)
unfolding itoa print_nat
All-itoa P digit minus (pos n) = All-digits_onto P digit (n + 1) n [] tt
All-itoa P digit minus (negsuc n) = (minus, All-digits_onto P digit (n + 1 + 1) (n + 1) [] tt)

itoa-ne-nil : (z : ℤ) → itoa z ≢ []
unfolding itoa
itoa-ne-nil (pos n) e = print_nat-ne-nil n e
itoa-ne-nil (negsuc n) e = cc

-- A printed number is one word.
pub itoa-IsWord : (z : ℤ) → IsWord (itoa z)
unfolding is_space
itoa-IsWord z = (itoa-ne-nil z, All-itoa (λ c. is_space c ≡ false) (λ d h. ground arith) refl z)
