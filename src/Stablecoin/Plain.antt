-- ===== src/Stablecoin/Plain.antt =====
-- internal/stablecoin/registry.go: a registry that has only the table, and the operations on it.
use vaultkey.Prelude.{
  ℕ, ◌≡◌, true, not, Option, none, some, List, [], ◌∷◌, ◌++◌, Bytes, if◌then◌else◌,
}
use vaultkey.Store.Wallets.{ChainType}
use vaultkey.Stablecoin.Tokens.{
  TokenRow, get_stablecoin_token, conflicts, put, normalised, switch_off, has_id,
}
use vaultkey.Stablecoin.Registry.{
  Reply, entry, not_registered, lookup_failed, stored, disabled, store_failed, unknown_id, entry_of,
  Call,
}
use vaultkey.Stablecoin.Keys.{IsToken}

pub data Op : Type 0 where
  resolves : Call → Bytes → ChainType → Bytes → Op
  upserts : Call → ℕ → TokenRow → Op
  disables : Call → ℕ → Op
  expires : Bytes → Op

-- Tokens as `ParseToken` returns them, a database that answers lookups, and a Redis that executes
-- the invalidations; GET and SET may fail.
abbrev pub IsServed : Op → Type 0
IsServed (resolves c t ct ch) = IsToken t × (c.db_up ≡ true)
IsServed (upserts c id t) = c.del_up ≡ true
IsServed (disables c id) = c.del_up ≡ true
IsServed (expires k) = Unit

abbrev pub registered : Option TokenRow → Reply
registered none = not_registered
registered (some row) = entry (entry_of row)

-- The row that an upsert overwrites.
abbrev pub overwritten : TokenRow → List TokenRow → Option TokenRow
overwritten new [] = none
overwritten new (row ∷ rows) =
    let rest = overwritten new rows in if conflicts new row then some row else rest

-- An upsert answers with a new row, or with the old row's id and the new values.
abbrev pub upserted : TokenRow → Option TokenRow → TokenRow
upserted new none = new
upserted new (some old) = record new { id = old.id }

-- A registry that has only the table.
module _ (to_lower : Bytes → Bytes) where
  abbrev pub plain : Op → List TokenRow → List Reply × List TokenRow
  plain (resolves c t ct ch) rows =
      (registered (get_stablecoin_token to_lower t ct ch rows) ∷ [], rows)
  plain (upserts c id t) rows =
      let new = normalised to_lower id t in
      if c.db_up
      then (stored (upserted new (overwritten new rows)) ∷ [], put new rows)
      else (store_failed ∷ [], rows)
  plain (disables c id) rows =
      if not c.list_up
      then (lookup_failed ∷ [], rows)
      else if not c.db_up
      then (store_failed ∷ [], rows)
      else if has_id id rows
      then (disabled ∷ [], switch_off id rows)
      else (unknown_id ∷ [], rows)
  plain (expires k) rows = ([], rows)

  abbrev pub run_plain : List Op → List TokenRow → List Reply
  run_plain [] rows = []
  run_plain (op ∷ ops) rows = let (r, rows') = plain op rows in r ++ run_plain ops rows'
