-- ===== src/Stablecoin/Abi.antt =====
-- internal/stablecoin/abi.go: `EncodeERC20Transfer`. Keccak-256 gives the selector, a parameter.
use vaultkey.Prelude.{
  ℕ, zero, suc, ◌-◌, ◌*◌, ◌/◌, ◌%◌, not, Option, none, some, [], ◌∷◌, ◌++◌, Bytes, codes, ltb, ◌==◌,
  length, replicate, if◌then◌else◌,
}
use vaultkey.Relayer.Outside.{hex_text, trim_0x}

-- The bytes are prepended, the last one first; the fuel is a bound on the number of rounds.
unfoldable pub bytes_from : ℕ → ℕ → Bytes → Bytes
bytes_from zero n out = out
bytes_from (suc f) n out =
    let rest = bytes_from f (n / 256) ((n % 256) ∷ out) in if n == 0 then out else rest

-- `big.Int.Bytes()`: big-endian, without leading zeros
unfoldable pub amount_bytes : ℕ → Bytes
unfolding bytes_from
amount_bytes n = bytes_from n n []

unfoldable pub padded_amount : Bytes → Bytes
padded_amount bs = replicate ((32 - length bs) * 2) b'0' ++ hex_text bs

unfoldable pub calldata : Bytes → Bytes → Bytes → Bytes
unfolding padded_amount
calldata selector address bs =
    codes "0x" ++ (hex_text selector ++ (replicate 24 b'0' ++ (address ++ padded_amount bs)))

-- `EncodeERC20Transfer`, on an amount that is not nil and not negative; an empty recipient has no 40
-- digits.
unfoldable pub encode_transfer : (Bytes → Bytes) → Bytes → Bytes → ℕ → Option Bytes
unfolding calldata amount_bytes
encode_transfer to_lower selector to amount =
    let address = trim_0x (to_lower to) in
    let bs = amount_bytes amount in
    if amount == 0
    then none
    else if not (length address == 40)
    then none
    else if ltb 32 (length bs)
    then none
    else some (calldata selector address bs)
