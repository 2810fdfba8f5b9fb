-- ===== src/Stablecoin/Tokens.antt =====
-- internal/storage/stablecoin.go: the table stablecoin_tokens. `to_lower` is `strings.ToLower`.
use vaultkey.Prelude.{
  ℕ, Bool, true, false, ◌&&◌, Option, none, some, List, [], ◌∷◌, Bytes, bytes_eq, ◌==◌,
  if◌then◌else◌,
}
use vaultkey.Amount.{trim_space}
use vaultkey.Store.Wallets.{ChainType, same_chain}

-- `chain` none is NULL.
pub record TokenRow : Type 0 where
  pub id : ℕ
  pub token : Bytes
  pub symbol : Bytes
  pub chain_type : ChainType
  pub chain : Option Bytes
  pub contract : Bytes
  pub decimals : ℕ
  pub enabled : Bool

-- chain_id = $3 OR (chain_id IS NULL AND $3 = '')
unfoldable pub is_chain : Bytes → Option Bytes → Bool
is_chain [] none = true
is_chain (c ∷ s) none = false
is_chain ch (some c) = bytes_eq c ch

unfoldable pub is_row : Bytes → ChainType → Bytes → TokenRow → Bool
unfolding is_chain
is_row token ct ch row =
    bytes_eq row.token token && same_chain row.chain_type ct && is_chain ch row.chain && row.enabled

-- LIMIT 1 without an order: here the first row that fits. Only Solana rows, whose chain is NULL and in
-- conflict with nothing, can be there more than once.
unfoldable pub find_token : Bytes → ChainType → Bytes → List TokenRow → Option TokenRow
unfolding is_row
find_token token ct ch [] = none
find_token token ct ch (row ∷ rows) =
    let rest = find_token token ct ch rows in if is_row token ct ch row then some row else rest

-- `GetStablecoinToken`
unfoldable pub get_stablecoin_token :
    (Bytes → Bytes) → Bytes → ChainType → Bytes → List TokenRow → Option TokenRow
get_stablecoin_token to_lower token ct ch rows = find_token (to_lower token) ct ch rows

-- NULLIF($4, '')
unfoldable pub null_if_blank : Bytes → Option Bytes
null_if_blank [] = none
null_if_blank (c ∷ s) = some (c ∷ s)

unfoldable pub same_option : Option Bytes → Option Bytes → Bool
same_option none o = false
same_option (some a) none = false
same_option (some a) (some b) = bytes_eq a b

-- ON CONFLICT (token, chain_type, chain_id): a NULL is in conflict with nothing.
unfoldable pub conflicts : TokenRow → TokenRow → Bool
unfolding same_option
conflicts new row =
    bytes_eq row.token new.token
    && same_chain row.chain_type new.chain_type
    && same_option row.chain new.chain

-- DO UPDATE SET
unfoldable pub overwrite : TokenRow → TokenRow → TokenRow
overwrite new row = record row {
  symbol = new.symbol;
  contract = new.contract;
  decimals = new.decimals;
  enabled = true;
}

-- The row of the triple is unique; a new one comes last.
unfoldable pub put : TokenRow → List TokenRow → List TokenRow
unfolding conflicts overwrite
put new [] = new ∷ []
put new (row ∷ rows) =
    let rest = put new rows in if conflicts new row then overwrite new row ∷ rows else row ∷ rest

-- RETURNING: the row that is written, with the id that it has.
unfoldable pub returned : TokenRow → List TokenRow → TokenRow
unfolding conflicts overwrite
returned new [] = new
returned new (row ∷ rows) =
    let rest = returned new rows in if conflicts new row then overwrite new row else rest

-- COALESCE(chain_id, '')
unfoldable pub or_blank : Option Bytes → Bytes
or_blank none = []
or_blank (some c) = c

-- What `UpsertStablecoinToken` inserts; `id` is the database's.
unfoldable pub normalised : (Bytes → Bytes) → ℕ → TokenRow → TokenRow
unfolding null_if_blank or_blank
normalised to_lower id t = record {
  id = id;
  token = to_lower (trim_space t.token);
  symbol = t.symbol;
  chain_type = t.chain_type;
  chain = null_if_blank (trim_space (or_blank t.chain));
  contract = t.contract;
  decimals = t.decimals;
  enabled = true;
}

-- UPDATE … SET enabled = false WHERE id = $1: the id is the primary key.
unfoldable pub switch_off : ℕ → List TokenRow → List TokenRow
switch_off i [] = []
switch_off i (row ∷ rows) =
    let rest = switch_off i rows in
    if row.id == i then record row { enabled = false } ∷ rows else row ∷ rest

unfoldable pub has_id : ℕ → List TokenRow → Bool
has_id i [] = false
has_id i (row ∷ rows) = let rest = has_id i rows in if row.id == i then true else rest

-- The first of `ListStablecoinTokens` with an id, which the loop of `Disable` looks for.
unfoldable pub find_listed : ℕ → List TokenRow → Option TokenRow
find_listed i [] = none
find_listed i (row ∷ rows) =
    let rest = find_listed i rows in if row.enabled && row.id == i then some row else rest
