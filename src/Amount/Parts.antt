-- ===== src/Amount/Parts.antt =====
-- internal/stablecoin/abi.go: parsing on digits, and what trimming zeros takes off.
use vaultkey.Prelude.{
  ℕ, suc, ◌+◌, ◌≡◌, refl, ap, ◌∙◌, true, false, some, [], ◌∷◌, ◌++◌, inl, inr, Bool-cases, Bytes,
  ◌==◌, length, replicate, All, All-append, arith,
}
use vaultkey.Amount.Decimal.{IsDigit, value_from}
use vaultkey.Amount.{
  is_space, trim_left, trim_right, keep_or_drop, trim_space, before_point, after_point, all_digits,
  fit, is_zero_digit, or_zero, set_string, positive, parse_parts,
}

all_digits-true : (s : Bytes) → All IsDigit s → all_digits s ≡ true
unfolding all_digits
all_digits-true [] h = refl
all_digits-true (c ∷ s) h = ground (arith, all_digits-true s h.1)

pub before_point-digits : (s t : Bytes) → All IsDigit s → before_point (s ++ (b'.' ∷ t)) ≡ s
unfolding before_point
before_point-digits [] t h = refl
before_point-digits (c ∷ s) t h = ground (arith, before_point-digits s t h.1)

pub after_point-digits : (s t : Bytes) → All IsDigit s → after_point (s ++ (b'.' ∷ t)) ≡ t
unfolding after_point
after_point-digits [] t h = refl
after_point-digits (c ∷ s) t h = ground (arith, after_point-digits s t h.1)

pub before_point-whole : (s : Bytes) → All IsDigit s → before_point s ≡ s
unfolding before_point
before_point-whole [] h = refl
before_point-whole (c ∷ s) h = ground (arith, before_point-whole s h.1)

pub after_point-whole : (s : Bytes) → All IsDigit s → after_point s ≡ []
unfolding after_point
after_point-whole [] h = refl
after_point-whole (c ∷ s) h = ground (arith, after_point-whole s h.1)

abbrev pub IsInk : ℕ → Type 0
IsInk c = is_space c ≡ false

digit-IsInk : (c : ℕ) → IsDigit c → IsInk c
unfolding is_space
digit-IsInk c h = ground arith

pub digits-IsInk : (s : Bytes) → All IsDigit s → All IsInk s
digits-IsInk [] h = tt
digits-IsInk (c ∷ s) h = (digit-IsInk c h.0, digits-IsInk s h.1)

trim_left-IsInk : (s : Bytes) → All IsInk s → trim_left is_space s ≡ s
unfolding trim_left
trim_left-IsInk [] h = refl
trim_left-IsInk (c ∷ s) h = rw h.0

trim_right-IsInk : (s : Bytes) → All IsInk s → trim_right is_space s ≡ s
unfolding trim_right
trim_right-IsInk [] h = refl
trim_right-IsInk (c ∷ []) h = rw h.0
trim_right-IsInk (c ∷ x ∷ s) h = rw (trim_right-IsInk (x ∷ s) h.1)

pub trim_space-IsInk : (s : Bytes) → All IsInk s → trim_space s ≡ s
unfolding trim_space
trim_space-IsInk s h = ap (trim_right is_space) (trim_left-IsInk s h) ∙ trim_right-IsInk s h

value_from-trim_left : (s : Bytes) → value_from 0 (trim_left is_zero_digit s) ≡ value_from 0 s
unfolding trim_left is_zero_digit
value_from-trim_left [] = refl
value_from-trim_left (c ∷ s) = ground (arith, value_from-trim_left s)

trim_left-IsDigit : (s : Bytes) → All IsDigit s → All IsDigit (trim_left is_zero_digit s)
unfolding trim_left
trim_left-IsDigit [] h = tt
trim_left-IsDigit (c ∷ s) h = ground (arith, trim_left-IsDigit s h.1)

set_string-or_zero : (s : Bytes) → All IsDigit s → set_string (or_zero s) ≡ some (value_from 0 s)
unfolding set_string or_zero
set_string-or_zero [] h = refl
set_string-or_zero (c ∷ s) h = rw (all_digits-true (c ∷ s) h)

-- On digits, parsing is the value of the whole part followed by the fitted fraction.
pub parse_parts-digits :
    (int frac : Bytes) (d : ℕ)
    → All IsDigit int
    → All IsDigit frac
    → All IsDigit (fit d frac)
    → parse_parts int frac d ≡ positive (some (value_from 0 (int ++ fit d frac)))
unfolding parse_parts
parse_parts-digits int frac d hi hf hfit =
    let whole = All-append IsDigit int (fit d frac) hi hfit in
    rw (all_digits-true int hi, all_digits-true frac hf)
      (ap positive (
        set_string-or_zero _ (trim_left-IsDigit _ whole)
        ∙ ap some (value_from-trim_left (int ++ fit d frac))))

-- What is trimmed off is a number of zeros.
abbrev Trimmed : Bytes → Bytes → Type 0
Trimmed t s = (k : ℕ) × (length t + k ≡ length s) × (t ++ replicate k b'0' ≡ s)

keep_or_drop-Trimmed :
    (c : ℕ) (t s : Bytes) → Trimmed t s → Trimmed (keep_or_drop is_zero_digit c t) (c ∷ s)
unfolding keep_or_drop is_zero_digit
keep_or_drop-Trimmed c [] s (k, n, e) = elim (Bool-cases (c == b'0')) [
  | inl z ↦ rw z (suc k, omega arith, let c0 : c ≡ b'0' = ground arith in cc)
  | inr nz ↦ rw nz (k, omega arith, ap (λ y. c ∷ y) e)
]
keep_or_drop-Trimmed c (x ∷ t) s (k, n, e) = (k, omega arith, ap (λ y. c ∷ y) e)

pub trim_right-Trimmed : (s : Bytes) → Trimmed (trim_right is_zero_digit s) s
unfolding trim_right
trim_right-Trimmed [] = (0, refl, refl)
trim_right-Trimmed (c ∷ s) =
    keep_or_drop-Trimmed c (trim_right is_zero_digit s) s (trim_right-Trimmed s)

prefix-IsDigit : (s t : Bytes) → All IsDigit (s ++ t) → All IsDigit s
prefix-IsDigit [] t h = tt
prefix-IsDigit (c ∷ s) t h = (h.0, prefix-IsDigit s t h.1)

pub trim_right-IsDigit : (s : Bytes) → All IsDigit s → All IsDigit (trim_right is_zero_digit s)
trim_right-IsDigit s h =
    let (k, n, e) = trim_right-Trimmed s in prefix-IsDigit _ (replicate k b'0') (rw e h)
