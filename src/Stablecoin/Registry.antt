-- ===== src/Stablecoin/Registry.antt =====
-- internal/stablecoin/registry.go: `ResolveEVM`, `ResolveSolana`, `Upsert`, `Disable`, `ParseToken`.
-- The two kinds of entries are one record, told apart by the chain type in their key.
use vaultkey.Prelude.{
  ℕ, Bool, true, not, ◌&&◌, ◌||◌, Option, none, some, List, [], ◌∷◌, ◌++◌, Bytes, codes, leb,
  length, ◌≡◌, if◌then◌else◌,
}
use vaultkey.Amount.{trim_space}
use vaultkey.Store.Wallets.{ChainType, evm, solana}
use vaultkey.Stablecoin.Tokens.{
  TokenRow, or_blank, get_stablecoin_token, normalised, put, returned, switch_off, has_id,
  find_listed,
}
use vaultkey.Stablecoin.Cache.{Cache}

-- `ChainEntry`, `SolanaEntry`
pub record Entry : Type 0 where
  pub id : ℕ
  pub contract : Bytes
  pub decimals : ℕ
  pub symbol : Bytes

-- encoding/json on entries
pub record EntryCodec : Type 0 where
  pub encode : ChainType → Entry → Bytes
  pub decode : ChainType → Bytes → Option Entry
  pub decode-encode : (ct : ChainType) (e : Entry) → decode ct (encode ct e) ≡ some e

pub data Reply : Type 0 where
  entry : Entry → Reply
  not_registered lookup_failed : Reply
  stored : TokenRow → Reply
  disabled store_failed unknown_id : Reply

unfoldable pub entry_of : TokenRow → Entry
entry_of row = record {
  id = row.id;
  contract = row.contract;
  decimals = row.decimals;
  symbol = row.symbol;
}

unfoldable pub chain_text : ChainType → Bytes
chain_text evm = codes "evm"
chain_text solana = codes "solana"

-- `cacheKeyPrefix`
abbrev pub key_prefix : Bytes
key_prefix = codes "vaultkey:stablecoin:"

-- `Registry.key`
unfoldable pub key : Bytes → ChainType → Bytes → Bytes
unfolding chain_text
key token ct ch = key_prefix ++ (token ++ (b':' ∷ (chain_text ct ++ (b':' ∷ ch))))

-- Which of the commands and statements of one call work.
pub record Call : Type 0 where
  pub get_up : Bool
  pub set_up : Bool
  pub del_up : Bool
  pub db_up : Bool
  pub list_up : Bool

unfoldable pub is_token_char : ℕ → Bool
is_token_char c = leb b'a' c && leb c b'z' || leb b'0' c && leb c b'9'

unfoldable pub all_token_chars : Bytes → Bool
unfolding is_token_char
all_token_chars [] = true
all_token_chars (c ∷ s) = is_token_char c && all_token_chars s

-- `len(t) < 2 || len(t) > 10`, on a text of ASCII characters
unfoldable pub fits : Bytes → Bool
fits t = leb 2 (length t) && leb (length t) 10

-- `ParseToken`; an empty token is one of the wrong length.
unfoldable pub parse_token : (Bytes → Bytes) → Bytes → Option Bytes
unfolding all_token_chars fits
parse_token to_lower s =
    let t = to_lower (trim_space s) in if all_token_chars t && fits t then some t else none

module _ (cache : Cache) (codec : EntryCodec) (to_lower : Bytes → Bytes) where
  open cache use {State, get, set, del}

  -- The rows, and what Redis holds.
  abbrev pub Stores : Type 0
  Stores = List TokenRow × State

  unfoldable pub decoded : ChainType → Option Bytes → Option Entry
  decoded ct none = none
  decoded ct (some raw) = codec.decode ct raw

  unfoldable pub cached : Call → Bytes → ChainType → Bytes → State → Option Entry
  unfolding decoded
  cached c token ct ch s = if c.get_up then decoded ct (get (key token ct ch) s) else none

  -- On a row: the entry is put into the cache.
  unfoldable pub answer_row :
      Call → Bytes → ChainType → Bytes → Option TokenRow → Stores → Reply × Stores
  answer_row c token ct ch none w = (not_registered, w)
  answer_row c token ct ch (some row) (rows, s) = (
    entry (entry_of row),
    (rows, if c.set_up then set (key token ct ch) (codec.encode ct (entry_of row)) s else s),
  )

  unfoldable pub look_up : Call → Bytes → ChainType → Bytes → Stores → Reply × Stores
  unfolding answer_row
  look_up c token ct ch (rows, s) =
      if c.db_up
      then answer_row c token ct ch (get_stablecoin_token to_lower token ct ch rows) (rows, s)
      else (lookup_failed, (rows, s))

  unfoldable pub or_look_up :
      Call → Bytes → ChainType → Bytes → Option Entry → Stores → Reply × Stores
  unfolding look_up
  or_look_up c token ct ch (some e) w = (entry e, w)
  or_look_up c token ct ch none w = look_up c token ct ch w

  -- `ResolveEVM`, and `ResolveSolana` with an empty chain id.
  unfoldable pub resolve : Call → Bytes → ChainType → Bytes → Stores → Reply × Stores
  unfolding or_look_up cached
  resolve c token ct ch (rows, s) = or_look_up c token ct ch (cached c token ct ch s) (rows, s)

  -- `invalidate`, of the entry's key; the key of the list is its own.
  unfoldable pub invalidate : Call → TokenRow → State → State
  unfolding or_blank
  invalidate c row s =
      if c.del_up then del (key row.token row.chain_type (or_blank row.chain)) s else s

  -- `Upsert`
  unfoldable pub upsert : Call → ℕ → TokenRow → Stores → Reply × Stores
  unfolding invalidate
  upsert c id t (rows, s) =
      let new = normalised to_lower id t in
      if c.db_up
      then (stored (returned new rows), (put new rows, invalidate c new s))
      else (store_failed, (rows, s))

  unfoldable pub invalidate_found : Call → Option TokenRow → State → State
  unfolding invalidate
  invalidate_found c none s = s
  invalidate_found c (some row) s = invalidate c row s

  -- `DisableStablecoinToken`, then the invalidation.
  unfoldable pub switch_off_and_invalidate : Call → ℕ → Option TokenRow → Stores → Reply × Stores
  unfolding invalidate_found
  switch_off_and_invalidate c id target (rows, s) =
      if not c.db_up
      then (store_failed, (rows, s))
      else if has_id id rows
      then (disabled, (switch_off id rows, invalidate_found c target s))
      else (unknown_id, (rows, s))

  -- `Disable`
  unfoldable pub disable : Call → ℕ → Stores → Reply × Stores
  unfolding switch_off_and_invalidate
  disable c id (rows, s) =
      if c.list_up
      then switch_off_and_invalidate c id (find_listed id rows) (rows, s)
      else (lookup_failed, (rows, s))
