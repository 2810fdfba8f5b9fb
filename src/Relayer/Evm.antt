-- ===== src/Relayer/Evm.antt =====
-- internal/relayer/relayer.go: `RelayEVM`. Errors are told apart by where they arise.
use vaultkey.Prelude.{
  ℕ, Bool, true, false, Option, none, some, [], ◌∷◌, ◌++◌, Bytes, codes, leb, ◌==◌, if◌then◌else◌,
}
use vaultkey.Prelude.Int.{ℤ}
use vaultkey.Store.Wallets.{Wallet, evm, get_wallet, Relayer, get_relayer}
use vaultkey.Nonce.Redis.{Counters}
use vaultkey.Nonce.{Result, ok, err, next, ensure_nonce, resync_nonce}
use vaultkey.Relayer.Outside.{
  EvmTransaction, Broadcast, took, took_unheard, not_taken, Nodes, Signing, Env, Weather, Refusal,
  relayer_query, no_relayer, balance_query, balance_low, nonce_init, nonce_next, key_wallet,
  signature, broadcast, Answer, relayed, refused, int_text, hex_text, big_hex,
}

-- `EVMRelayPayload`
pub record EvmPayload : Type 0 where
  pub to : Bytes
  pub value : Bytes
  pub payload : Bytes
  pub chain_id : ℤ
  pub gas_limit : ℕ
  pub gas_price : Bytes

unfoldable pub gas_limit_or : ℕ → ℕ
gas_limit_or n = if n == 0 then 200000 else n

unfoldable pub asked_price : Option Bytes → Bytes
asked_price none = codes "0x3B9ACA00"
asked_price (some p) = p

unfoldable pub gas_price_or : Option Bytes → Bytes → Bytes
unfolding asked_price
gas_price_or answer [] = asked_price answer
gas_price_or answer (c ∷ p) = c ∷ p

-- `sufficientEVMBalance(balance, MinBalanceWei)`
unfoldable pub sufficient : (Bytes → ℕ) → Bytes → Bool
unfolding big_hex
sufficient garbage balance =
    leb (big_hex garbage (codes "0x0B1A2BC2EC50000")) (big_hex garbage balance)

unfoldable pub transaction : Nodes → EvmPayload → ℕ → EvmTransaction
unfolding gas_limit_or gas_price_or
transaction nodes p nonce = record {
  to = p.to;
  value = p.value;
  payload = p.payload;
  gas_limit = gas_limit_or p.gas_limit;
  gas_price = gas_price_or (nodes.evm_gas_price (int_text p.chain_id)) p.gas_price;
  nonce = nonce;
  chain_id = p.chain_id;
}

unfoldable pub found_or : Bool → Option Wallet → Option Wallet
found_or true w = none
found_or false w = w

module _ (redis : Counters) (signing : Signing) where
  abbrev pub Here : Type 0
  Here = Env redis.State

  unfoldable pub resync : Weather → Bytes → Bytes → Here → Here
  resync x chain address e =
      let pending = x.nodes.evm_pending_nonce chain address in
      record e { nonces = (resync_nonce redis x.resync_up pending chain address e.nonces).1 }

  -- A failure after a nonce was taken: the counter is read from the chain again.
  unfoldable pub give_up : Weather → Bytes → Bytes → Refusal → Here → Answer × Here
  unfolding resync
  give_up x chain address why e = (refused why, resync x chain address e)

  unfoldable pub answered :
      Weather → Bytes → Bytes → ℕ → EvmTransaction → Broadcast → Here → Answer × Here
  unfolding give_up
  answered x chain address wallet tx not_taken e = give_up x chain address broadcast e
  answered x chain address wallet tx took_unheard e =
      give_up x chain address broadcast
        (record e { sent = record { chain = chain; signer = wallet; tx = tx } ∷ e.sent })
  answered x chain address wallet tx (took hash) e = (
    relayed hash,
    record e { sent = record { chain = chain; signer = wallet; tx = tx } ∷ e.sent },
  )

  unfoldable pub broadcast_signed :
      Weather → Bytes → Bytes → ℕ → EvmTransaction → Option Bytes → Here → Answer × Here
  unfolding give_up answered hex_text
  broadcast_signed x chain address wallet tx none e = give_up x chain address signature e
  broadcast_signed x chain address wallet tx (some raw) e =
      answered x chain address wallet tx (x.nodes.evm_broadcast chain (codes "0x" ++ hex_text raw))
        e

  unfoldable pub send :
      Weather → Bytes → Bytes → EvmTransaction → Option Wallet → Here → Answer × Here
  unfolding give_up broadcast_signed
  send x chain address tx none e = give_up x chain address key_wallet e
  send x chain address tx (some w) e =
      broadcast_signed x chain address w.id tx (signing.sign_evm w.key tx) e

  -- With the nonce at hand.
  unfoldable pub with_nonce : Weather → ℕ → Relayer → EvmPayload → Result ℕ → Here → Answer × Here
  unfolding send found_or
  with_nonce x project r p (err why) e = (refused nonce_next, e)
  with_nonce x project r p (ok nonce) e =
      send x (int_text p.chain_id) r.address (transaction x.nodes p nonce)
        (found_or x.key_fails (get_wallet r.wallet project e.wallets)) e

  unfoldable pub after_ensure :
      Weather → ℕ → Relayer → EvmPayload → Result (Unit {0}) → Here → Answer × Here
  unfolding with_nonce
  after_ensure x project r p (err why) e = (refused nonce_init, e)
  after_ensure x project r p (ok u) e =
      let (n, s) = next redis x.next_up (int_text p.chain_id) r.address e.nonces in
      with_nonce x project r p n (record e { nonces = s })

  unfoldable pub funded : Weather → ℕ → Relayer → EvmPayload → Option Bytes → Here → Answer × Here
  unfolding after_ensure
  funded x project r p none e = (refused balance_query, e)
  funded x project r p (some balance) e =
      let chain = int_text p.chain_id in
      let pending = x.nodes.evm_pending_nonce chain r.address in
      let (u, s) = ensure_nonce redis x.ensure_up pending chain r.address e.nonces in
      if sufficient signing.garbage balance
      then after_ensure x project r p u (record e { nonces = s })
      else (refused balance_low, e)

  unfoldable pub by_relayer : Weather → ℕ → EvmPayload → Option Relayer → Here → Answer × Here
  unfolding funded
  by_relayer x project p none e = (refused no_relayer, e)
  by_relayer x project p (some r) e =
      funded x project r p (x.nodes.evm_balance (int_text p.chain_id) r.address) e

  -- `RelayEVM`. The user's wallet is an argument that the code does not use.
  unfoldable pub relay_evm : Weather → ℕ → Wallet → EvmPayload → Here → Answer × Here
  unfolding by_relayer
  relay_evm x project user p e =
      if x.relayer_fails
      then (refused relayer_query, e)
      else by_relayer x project p (get_relayer project evm (int_text p.chain_id) e.relayers) e
