-- ===== src/Amount/Tests.antt =====
-- Amounts of a token with six decimals.
use vaultkey.Prelude.{◌≡◌, refl, codes, arith}
use vaultkey.Amount.Decimal.{to_decimal}
use vaultkey.Amount.RoundTrip.{parse_amount-format_amount}
use vaultkey.Amount.{
  ok, err, non_numeric, not_positive, required, parse_amount, format_amount, trim_right,
  is_zero_digit, pad_left,
}

fraction : parse_amount (codes " 50.5 ") 6 ≡ ok 50_500_000
unfolding parse_amount
fraction = refl

cut_off : parse_amount (codes "0.0000019") 6 ≡ ok 1
unfolding parse_amount
cut_off = refl

bare_point : parse_amount (codes ".") 6 ≡ err not_positive
unfolding parse_amount
bare_point = refl

negative : parse_amount (codes "-1") 6 ≡ err non_numeric
unfolding parse_amount
negative = refl

blank : parse_amount (codes " ") 6 ≡ err required
unfolding parse_amount
blank = refl

shown : format_amount 50_500_000 6 ≡ codes "50.5"
unfolding format_amount to_decimal trim_right is_zero_digit pad_left
shown = refl

parse_amount-format_amount_example : parse_amount (format_amount 1_000_001 6) 6 ≡ ok 1_000_001
parse_amount-format_amount_example = parse_amount-format_amount 1_000_001 6 (omega arith)
