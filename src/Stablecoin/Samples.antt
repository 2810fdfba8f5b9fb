-- ===== src/Stablecoin/Samples.antt =====
-- An entry's text, an entry, and a call in which all is well.
use vaultkey.Prelude.{
  ℕ, zero, suc, ◌≡◌, refl, ap, true, Option, none, some, [], ◌∷◌, ◌++◌, Bytes, codes, length,
}
use vaultkey.Store.Wallets.{evm}
use vaultkey.Stablecoin.Tokens.{TokenRow}
use vaultkey.Stablecoin.Cache.{Keys}
use vaultkey.Stablecoin.Registry.{Entry, EntryCodec, Call}

-- The text of an entry: id, decimals, the length of the contract, the contract, the symbol.
abbrev pub split_at : ℕ → Bytes → Bytes × Bytes
split_at zero s = ([], s)
split_at (suc n) [] = ([], [])
split_at (suc n) (c ∷ s) = let (a, b) = split_at n s in (c ∷ a, b)

pub split_at-append : (a b : Bytes) → split_at (length a) (a ++ b) ≡ (a, b)
split_at-append [] b = refl
split_at-append (c ∷ a) b = ap (λ p. (c ∷ p.0, p.1)) (split_at-append a b)

abbrev pub entry_from : ℕ → ℕ → Bytes × Bytes → Entry
entry_from i d (a, b) = record { id = i; contract = a; decimals = d; symbol = b }

abbrev pub read : Bytes → Option Entry
read (i ∷ d ∷ n ∷ s) = some (entry_from i d (split_at n s))
read _ = none

abbrev pub print : Entry → Bytes
print e = e.id ∷ e.decimals ∷ length e.contract ∷ (e.contract ++ e.symbol)

pub read-print : (e : Entry) → read (print e) ≡ some e
read-print e = ap (λ p. some (entry_from e.id e.decimals p)) (split_at-append e.contract e.symbol)

abbrev pub codec : EntryCodec
codec = record {
  encode = λ ct e. print e;
  decode = λ ct s. read s;
  decode-encode = λ ct e. read-print e;
}

abbrev pub usdc : TokenRow
usdc = record {
  id = 1;
  token = codes "usdc";
  symbol = codes "USDC";
  chain_type = evm;
  chain = some (codes "137");
  contract = codes "0xa0";
  decimals = 6;
  enabled = true;
}

abbrev pub all_up : Call
all_up = record { get_up = true; set_up = true; del_up = true; db_up = true; list_up = true }

abbrev pub empty : Keys
empty k = none
