-- ===== src/Amount/Decimal.antt =====
-- `big.Int.String` and the value that decimal digits spell.
use vaultkey.Prelude.{
  ℕ, zero, suc, ◌+◌, ◌-◌, ◌*◌, ◌/◌, ◌%◌, ◌^◌, ◌≤◌, ◌<◌, ◌≡◌, refl, Bool, ◌&&◌, [], ◌∷◌, ◌++◌, Bytes,
  leb, ◌==◌, length, replicate, All, if◌then◌else◌, arith,
}
use native.Mathlib.Nat.{pow-suc}

unfoldable pub is_digit : ℕ → Bool
is_digit c = leb b'0' c && leb c b'9'

abbrev pub IsDigit : ℕ → Type 0
IsDigit c = (b'0' ≤ c) × (c ≤ b'9')

-- The digits are prepended, the last one first; the fuel is a bound on the number of rounds.
unfoldable pub digits : ℕ → ℕ → Bytes → Bytes
digits zero n out = out
digits (suc f) n out =
    let rest = digits f (n / 10) ((b'0' + n % 10) ∷ out) in if n == 0 then out else rest

-- `big.Int.String()`
unfoldable pub to_decimal : ℕ → Bytes
unfolding digits
to_decimal n = if n == 0 then b'0' ∷ [] else digits n n []

-- The number that digits spell behind `n`.
abbrev pub value_from : ℕ → Bytes → ℕ
value_from n [] = n
value_from n (c ∷ s) = value_from (n * 10 + (c - b'0')) s

value_from-digits :
    (f n : ℕ) (out : Bytes) → n ≤ f → value_from 0 (digits f n out) ≡ value_from n out
unfolding digits
value_from-digits zero n out h = let e : n ≡ 0 = omega arith in rw e
value_from-digits (suc f) n out h =
    let ih = value_from-digits f (n / 10) ((b'0' + n % 10) ∷ out) in
    let back : n / 10 * 10 + (b'0' + n % 10 - b'0') ≡ n = omega arith in
    ground (arith, value_from-digits f (n / 10) ((b'0' + n % 10) ∷ out))

pub value_from-to_decimal : (n : ℕ) → value_from 0 (to_decimal n) ≡ n
unfolding to_decimal
value_from-to_decimal n = ground (arith, value_from-digits n n [])

digits-IsDigit : (f n : ℕ) (out : Bytes) → All IsDigit out → All IsDigit (digits f n out)
unfolding digits
digits-IsDigit zero n out h = h
digits-IsDigit (suc f) n out h =
    let ih = digits-IsDigit f (n / 10) ((b'0' + n % 10) ∷ out) ((omega arith, omega arith), h) in
    ground arith

pub to_decimal-IsDigit : (n : ℕ) → All IsDigit (to_decimal n)
unfolding to_decimal
to_decimal-IsDigit n = ground (arith, digits-IsDigit n n [] tt)

tenth_lt : (d n : ℕ) → n < 10 ^ suc d → n / 10 < 10 ^ d
tenth_lt d n h = let h' = rw (pow-suc 10 d) at h in omega arith

length-digits : (f d n : ℕ) (out : Bytes) → n < 10 ^ d → length (digits f n out) ≤ d + length out
unfolding digits
length-digits zero d n out h = omega arith
length-digits (suc f) zero n out h = let e : n ≡ 0 = omega arith in rw e (omega arith)
length-digits (suc f) (suc d) n out h =
    let ih = length-digits f d (n / 10) ((b'0' + n % 10) ∷ out) (tenth_lt d n h) in ground arith

pub length-to_decimal : (d n : ℕ) → n < 10 ^ d → 0 < n → length (to_decimal n) ≤ d
unfolding to_decimal
length-to_decimal d n h p = ground (arith, length-digits n d n [] h)

-- Digits behind a number shift it by a power of ten.
pub value_from_shift : (a : ℕ) (s : Bytes) → value_from a s ≡ a * 10 ^ length s + value_from 0 s
value_from_shift a [] = omega arith
value_from_shift a (c ∷ s) =
    let x = c - b'0' in
    let left = value_from_shift (a * 10 + x) s in
    let right = value_from_shift (0 * 10 + x) s in rw (pow-suc 10 (length s)) (omega arith)

pub value_from-append :
    (a : ℕ) (s t : Bytes) → value_from a (s ++ t) ≡ value_from (value_from a s) t
value_from-append a [] t = refl
value_from-append a (c ∷ s) t = value_from-append (a * 10 + (c - b'0')) s t

pub value_from-replicate :
    (n : ℕ) (s : Bytes) → value_from 0 (replicate n b'0' ++ s) ≡ value_from 0 s
value_from-replicate zero s = refl
value_from-replicate (suc n) s = value_from-replicate n s
