-- ===== src/Amount/RoundTrip.antt =====
-- internal/stablecoin/abi.go: `ParseAmount` on what `FormatAmount` writes.
use vaultkey.Prelude.{
  ℕ, zero, suc, ◌+◌, ◌-◌, ◌*◌, ◌/◌, ◌%◌, ◌^◌, ◌≤◌, ◌<◌, ◌≡◌, ◌≢◌, refl, sym, ap, ◌∙◌, false, some,
  [], ◌∷◌, ◌++◌, inl, inr, Bool-cases, Bytes, ltb, ◌==◌, length, replicate, length-append,
  length-replicate, All, All-append, arith,
}
use native.Mathlib.Nat.{div-add-mod', mod-lt, pow-suc}
use vaultkey.Amount.Decimal.{
  IsDigit, to_decimal, value_from, value_from-to_decimal, to_decimal-IsDigit, length-to_decimal,
  value_from_shift, value_from-append, value_from-replicate,
}
use vaultkey.Amount.{
  ok, is_space, trim_right, before_point, after_point, fit, is_zero_digit, positive, parse_parts,
  parse_trimmed, parse_amount, pad_left, format_amount,
}
use vaultkey.Amount.Parts.{
  before_point-digits, after_point-digits, before_point-whole, after_point-whole, IsInk,
  digits-IsInk, trim_space-IsInk, parse_parts-digits, trim_right-Trimmed, trim_right-IsDigit,
}

-- Zeros that are trimmed off a fraction are filled up again.
fit-trim_right : (d : ℕ) (s : Bytes) → length s ≡ d → fit d (trim_right is_zero_digit s) ≡ s
unfolding fit
fit-trim_right d s hd =
    let (k, n, e) = trim_right-Trimmed s in
    let long : ltb d (length (trim_right is_zero_digit s)) ≡ false = ground arith in
    let count : d - length (trim_right is_zero_digit s) ≡ k = omega arith in rw (long, count) e

length-pad_left : (d : ℕ) (s : Bytes) → length s ≤ d → length (pad_left d s) ≡ d
unfolding pad_left
length-pad_left d s h =
    let n : length (replicate (d - length s) b'0') ≡ d - length s =
      length-replicate {A = ℕ} (d - length s) b'0' in
    rw (length-append (replicate (d - length s) b'0') s, n) (omega arith)

replicate-IsDigit : (n : ℕ) → All IsDigit (replicate n b'0')
replicate-IsDigit zero = tt
replicate-IsDigit (suc n) = (omega arith, replicate-IsDigit n)

pad_left-IsDigit : (d : ℕ) (s : Bytes) → All IsDigit s → All IsDigit (pad_left d s)
unfolding pad_left
pad_left-IsDigit d s h = All-append IsDigit _ s (replicate-IsDigit (d - length s)) h

value_from-pad_left : (d : ℕ) (s : Bytes) → value_from 0 (pad_left d s) ≡ value_from 0 s
unfolding pad_left
value_from-pad_left d s = value_from-replicate (d - length s) s

-- The digits of a whole part and of a padded fraction spell the base units.
value_of_parts :
    (q r d : ℕ)
    → r < 10 ^ d
    → length (pad_left d (to_decimal r)) ≡ d
    → value_from 0 (to_decimal q ++ pad_left d (to_decimal r)) ≡ q * 10 ^ d + r
value_of_parts q r d h hd =
    let s = pad_left d (to_decimal r) in
    value_from-append 0 (to_decimal q) s
    ∙ (rw (value_from-to_decimal q) (
        value_from_shift q s
        ∙ rw (hd, value_from-pad_left d (to_decimal r), value_from-to_decimal r) refl))

ten_pos : (d : ℕ) → 0 < 10 ^ d
ten_pos zero = omega arith
ten_pos (suc d) = let h = ten_pos d in rw (pow-suc 10 d) (omega arith)

parse_trimmed-parts :
    (s : Bytes) (d : ℕ)
    → s ≢ []
    → parse_trimmed s d ≡ parse_parts (before_point s) (after_point s) d
unfolding parse_trimmed
parse_trimmed-parts [] d h = absurd (h refl)
parse_trimmed-parts (c ∷ s) d h = refl

parse_amount-parts :
    (s : Bytes) (d : ℕ)
    → All IsInk s
    → s ≢ []
    → parse_amount s d ≡ parse_parts (before_point s) (after_point s) d
unfolding parse_amount
parse_amount-parts s d h ne =
    ap (λ t. parse_trimmed t d) (trim_space-IsInk s h) ∙ parse_trimmed-parts s d ne

positive_ok : (n : ℕ) → 0 < n → positive (some n) ≡ ok n
unfolding positive
positive_ok n h = ground arith

fit-nil : (d : ℕ) → fit d [] ≡ replicate d b'0'
unfolding fit
fit-nil d = let e : d - 0 ≡ d = omega arith in rw e (ground arith)

point-IsInk : IsInk b'.'
unfolding is_space
point-IsInk = refl

append-ne-nil : (s t : Bytes) → s ++ (b'.' ∷ t) ≢ []
append-ne-nil [] t e = cc
append-ne-nil (c ∷ s) t e = cc

value_from_zeros : (a d : ℕ) → value_from a (replicate d b'0') ≡ a * 10 ^ d
value_from_zeros a zero = omega arith
value_from_zeros a (suc d) = value_from_zeros (a * 10 + 0) d ∙ rw (pow-suc 10 d) (omega arith)

to_decimal-ne-nil : (q d : ℕ) → 0 < q * 10 ^ d → to_decimal q ≢ []
to_decimal-ne-nil q d h e =
    let z : q ≡ 0 = sym (value_from-to_decimal q) ∙ ap (value_from 0) e in
    let h' = rw z at h in omega arith

-- A text without a point.
parse-whole : (q d : ℕ) → 0 < q * 10 ^ d → parse_amount (to_decimal q) d ≡ ok (q * 10 ^ d)
parse-whole q d h =
    let s = to_decimal q in
    let digits = to_decimal-IsDigit q in
    let zeros : Bytes = replicate d b'0' in
    let ne : s ≢ [] = λ e. to_decimal-ne-nil q d h e in
    let filled : fit d [] ≡ zeros = fit-nil d in
    let value : value_from 0 (s ++ zeros) ≡ q * 10 ^ d =
      value_from-append 0 s zeros ∙ rw (value_from-to_decimal q) (value_from_zeros q d) in
    parse_amount-parts s d (digits-IsInk s digits) ne
    ∙ rw (before_point-whole s digits, after_point-whole s digits)
        (parse_parts-digits s [] d digits tt (rw filled (replicate-IsDigit d))
          ∙ rw (filled, value) (positive_ok _ h))

-- A text with a point in front of a trimmed fraction.
parse-fraction :
    (q r d : ℕ)
    → 0 < r
    → r < 10 ^ d
    → parse_amount (to_decimal q ++ (b'.' ∷ trim_right is_zero_digit (pad_left d (to_decimal r)))) d
      ≡ ok (q * 10 ^ d + r)
parse-fraction q r d p h =
    let s = to_decimal q in
    let digits = to_decimal-IsDigit q in
    let full = pad_left d (to_decimal r) in
    let full_digits = pad_left-IsDigit d (to_decimal r) (to_decimal-IsDigit r) in
    let width = length-pad_left d (to_decimal r) (length-to_decimal d r h p) in
    let frac = trim_right is_zero_digit full in
    let frac_digits = trim_right-IsDigit full full_digits in
    let filled = fit-trim_right d full width in
    let ink =
      All-append IsInk s (b'.' ∷ frac) (digits-IsInk s digits)
        (point-IsInk, digits-IsInk frac frac_digits) in
    parse_amount-parts (s ++ (b'.' ∷ frac)) d ink (append-ne-nil s frac)
    ∙ rw (before_point-digits s frac digits, after_point-digits s frac digits)
        (parse_parts-digits s frac d digits frac_digits (rw filled full_digits)
          ∙ rw (filled, value_of_parts q r d h width) (positive_ok _ (omega arith)))

-- Every positive amount of base units is read back from its formatted text, for every number of
-- decimals.
pub parse_amount-format_amount :
    (raw d : ℕ) → 0 < raw → parse_amount (format_amount raw d) d ≡ ok raw
unfolding format_amount
parse_amount-format_amount raw d h =
    let whole = div-add-mod' raw (10 ^ d) in
    let below = mod-lt raw (ten_pos d) in
    let nonzero : (raw == 0) ≡ false = ground arith in
    elim (Bool-cases (raw % 10 ^ d == 0)) [
      | inl none_left ↦
          let e : raw % 10 ^ d ≡ 0 = ground arith in
          let exact : raw / 10 ^ d * 10 ^ d ≡ raw = omega arith in
          rw (nonzero, none_left) (parse-whole (raw / 10 ^ d) d (rw exact h) ∙ ap ok exact)
      | inr some_left ↦
          let p : 0 < raw % 10 ^ d = ground arith in
          rw (nonzero, some_left)
            (parse-fraction (raw / 10 ^ d) (raw % 10 ^ d) d p below ∙ ap ok whole)
    ]
