-- ===== src/Amount.antt =====
-- internal/stablecoin/abi.go, `ParseAmount` and `FormatAmount`. A text is the list of its code points;
-- `decimals` is a column of the token registry and not negative.
pub mod Decimal
pub mod Parts
pub mod RoundTrip
mod Tests
use vaultkey.Prelude.{
  ℕ, zero, suc, ◌+◌, ◌-◌, ◌*◌, ◌/◌, ◌%◌, ◌^◌, Bool, true, false, not, ◌&&◌, ◌||◌, Option, none,
  some, List, [], ◌∷◌, ◌++◌, Bytes, codes, ltb, leb, ◌==◌, length, take, replicate, if◌then◌else◌,
}
use Decimal.{is_digit, to_decimal, value_from}

pub data Error : Type 0 where
  required non_numeric non_numeric_fraction unparsable not_positive : Error

pub data Result : Type 0 where
  ok : ℕ → Result
  err : Error → Result

-- `unicode.IsSpace`
unfoldable pub is_space : ℕ → Bool
is_space c =
    leb 9 c && leb c 13
    || c == 32
    || c == 0x85
    || c == 0xa0
    || c == 0x1680
    || leb 0x2000 c && leb c 0x200a
    || c == 0x2028
    || c == 0x2029
    || c == 0x202f
    || c == 0x205f
    || c == 0x3000

unfoldable pub trim_left : (ℕ → Bool) → Bytes → Bytes
trim_left drop [] = []
trim_left drop (c ∷ s) = let rest = trim_left drop s in if drop c then rest else c ∷ s

-- A tail that is dropped whole takes the character before it along, if that is to be dropped.
unfoldable pub keep_or_drop : (ℕ → Bool) → ℕ → Bytes → Bytes
keep_or_drop drop c [] = if drop c then [] else c ∷ []
keep_or_drop drop c (x ∷ s) = c ∷ x ∷ s

unfoldable pub trim_right : (ℕ → Bool) → Bytes → Bytes
unfolding keep_or_drop
trim_right drop [] = []
trim_right drop (c ∷ s) = keep_or_drop drop c (trim_right drop s)

-- `strings.TrimSpace`
unfoldable pub trim_space : Bytes → Bytes
unfolding trim_left trim_right is_space
trim_space s = trim_right is_space (trim_left is_space s)

-- `strings.SplitN(amount, ".", 2)`, with an empty second part where there is no point.
unfoldable pub before_point : Bytes → Bytes
before_point [] = []
before_point (c ∷ s) = let rest = c ∷ before_point s in if c == b'.' then [] else rest

unfoldable pub after_point : Bytes → Bytes
after_point [] = []
after_point (c ∷ s) = let rest = after_point s in if c == b'.' then s else rest

unfoldable pub all_digits : Bytes → Bool
unfolding is_digit
all_digits [] = true
all_digits (c ∷ s) = is_digit c && all_digits s

-- Exactly `decimals` digits: cut off, never rounded, or filled up with zeros.
unfoldable pub fit : ℕ → Bytes → Bytes
fit decimals frac =
    if ltb decimals (length frac)
    then take decimals frac
    else frac ++ replicate (decimals - length frac) b'0'

unfoldable pub is_zero_digit : ℕ → Bool
is_zero_digit c = c == b'0'

unfoldable pub or_zero : Bytes → Bytes
or_zero [] = b'0' ∷ []
or_zero (c ∷ s) = c ∷ s

-- `new(big.Int).SetString(s, 10)` on a text without sign.
unfoldable pub set_string : Bytes → Option ℕ
unfolding all_digits
set_string [] = none
set_string (c ∷ s) = if all_digits (c ∷ s) then some (value_from 0 (c ∷ s)) else none

-- `if result.Sign() <= 0`
unfoldable pub positive : Option ℕ → Result
positive none = err unparsable
positive (some n) = if n == 0 then err not_positive else ok n

unfoldable pub parse_parts : Bytes → Bytes → ℕ → Result
unfolding all_digits fit is_zero_digit or_zero set_string positive trim_left
parse_parts int frac decimals =
    if not (all_digits int)
    then err non_numeric
    else if not (all_digits frac)
    then err non_numeric_fraction
    else positive (set_string (or_zero (trim_left is_zero_digit (int ++ fit decimals frac))))

unfoldable pub parse_trimmed : Bytes → ℕ → Result
unfolding before_point after_point parse_parts
parse_trimmed [] decimals = err required
parse_trimmed (c ∷ s) decimals = parse_parts (before_point (c ∷ s)) (after_point (c ∷ s)) decimals

-- `ParseAmount`
unfoldable pub parse_amount : Bytes → ℕ → Result
unfolding trim_space parse_trimmed
parse_amount amount decimals = parse_trimmed (trim_space amount) decimals

-- `fmt.Sprintf("%0*s", decimals, s)`
pad_left : ℕ → Bytes → Bytes
pad_left width s = replicate (width - length s) b'0' ++ s

-- `FormatAmount` on an amount that is not negative; nil is formatted like 0.
pub format_amount : ℕ → ℕ → Bytes
format_amount raw decimals =
    let divisor = 10 ^ decimals in
    let int = to_decimal (raw / divisor) in
    let frac = raw % divisor in
    if raw == 0
    then codes "0"
    else if frac == 0
    then int
    else int ++ (b'.' ∷ trim_right is_zero_digit (pad_left decimals (to_decimal frac)))
