-- ===== src/Relayer/Solana.antt =====
-- internal/relayer/relayer.go: `RelaySolana`, `buildSolanaMessage`, `assembleSolanaTransaction`.
use vaultkey.Prelude.{
  ℕ, Bool, true, false, ◌&&◌, Option, none, some, [], ◌∷◌, ◌++◌, Bytes, ltb, if◌then◌else◌,
}
use vaultkey.Store.Wallets.{Wallet, solana, get_wallet, Relayer, get_relayer}
use vaultkey.Relayer.Outside.{
  Broadcast, took, took_unheard, not_taken, Signing, Env, Weather, Refusal, relayer_query,
  no_relayer, balance_query, balance_low, blockhash, no_recipient, no_amount, no_accounts,
  message_build, key_wallet, user_wallet, signature, user_signature, broadcast, Answer, relayed,
  refused, crashed,
}
use vaultkey.Relayer.Evm.{found_or}

-- What a part of the call comes to: a value, an error, or a panic.
pub data Attempt (A : Type 0) : Type 0 where
  got : A → Attempt A
  fails : Refusal → Attempt A
  panics : Attempt A

infixl 5 ◌>>=◌ ◌>>◌
unfoldable pub ◌>>=◌ : {A B : Type 0} → Attempt A → (A → Attempt B) → Attempt B
◌>>=◌ (got a) f = f a
◌>>=◌ (fails why) f = fails why
◌>>=◌ panics f = panics

unfoldable pub ◌>>◌ : {A B : Type 0} → Attempt A → Attempt B → Attempt B
unfolding ◌>>=◌
m >> k = m >>= λ _. k

unfoldable pub or_fail : {A : Type 0} → Refusal → Option A → Attempt A
or_fail why none = fails why
or_fail why (some a) = got a

unfoldable pub check : Bool → Attempt (Unit {0}) → Attempt (Unit {0})
check true other = got tt
check false other = other

-- `SolanaRelayPayload`
pub record SolanaPayload : Type 0 where
  pub to : Bytes
  pub amount : ℕ
  pub token_mint : Bytes
  pub source : Bytes
  pub dest : Bytes

unfoldable pub is_blank : Bytes → Bool
is_blank [] = true
is_blank (c ∷ s) = false

-- An SPL token transfer, from the two token accounts.
unfoldable pub token_instruction : Signing → Bytes → Bytes → SolanaPayload → Bytes → Attempt Bytes
unfolding check is_blank or_fail
token_instruction signing payer user p hash = do
  check (if is_blank p.source then false else if is_blank p.dest then false else true)
      (fails no_accounts)
  check (signing.is_key p.source && signing.is_key p.dest && signing.is_hash hash) panics
  or_fail message_build (signing.token_message payer user p.source p.dest p.amount hash)

unfoldable pub native_instruction : Signing → Bytes → Bytes → SolanaPayload → Bytes → Attempt Bytes
unfolding check or_fail
native_instruction signing payer user p hash = do
  check (signing.is_hash hash) panics
  or_fail message_build (signing.transfer_message payer user p.to p.amount hash)

-- By `TokenMint`
unfoldable pub instruction : Signing → Bytes → Bytes → SolanaPayload → Bytes → Attempt Bytes
unfolding token_instruction native_instruction is_blank
instruction signing payer user p hash =
    if is_blank p.token_mint
    then native_instruction signing payer user p hash
    else token_instruction signing payer user p hash

-- `buildSolanaMessage`
unfoldable pub build_message : Signing → Bytes → Bytes → SolanaPayload → Bytes → Attempt Bytes
unfolding check is_blank instruction
build_message signing payer user p hash = do
  check (if is_blank p.to then false else true) (fails no_recipient)
  check (ltb 0 p.amount) (fails no_amount)
  check (signing.is_key payer && signing.is_key user && signing.is_key p.to) panics
  instruction signing payer user p hash

-- `assembleSolanaTransaction`
unfoldable pub assemble : Bytes → Bytes → Bytes → Bytes
assemble message payer_sig user_sig = (2 ∷ []) ++ (payer_sig ++ (user_sig ++ message))

-- `MinBalanceLamports`
abbrev pub min_lamports : ℕ
min_lamports = 50000000

module _ (signing : Signing) {Nonces : Type 0} where
  unfoldable pub find_relayer : Weather → ℕ → Env Nonces → Attempt Relayer
  unfolding or_fail
  find_relayer x project e =
      if x.relayer_fails
      then fails relayer_query
      else or_fail no_relayer (get_relayer project solana [] e.relayers)

  -- From the block hash on.
  unfoldable pub built_and_signed :
      Weather → ℕ → Wallet → SolanaPayload → Relayer → Env Nonces → Attempt Bytes
  unfolding or_fail assemble found_or
  built_and_signed x project user p r e = do
    hash ← or_fail blockhash x.nodes.solana_blockhash
    message ← build_message signing r.address user.address p hash
    payer ← or_fail key_wallet (found_or x.key_fails (get_wallet r.wallet project e.wallets))
    owner ← or_fail user_wallet (found_or x.user_key_fails (get_wallet user.id project e.wallets))
    user_sig ← or_fail user_signature (signing.sign_solana owner.key message)
    payer_sig ← or_fail signature (signing.sign_solana payer.key message)
    got (assemble message payer_sig user_sig)

  -- All of `RelaySolana` before the broadcast.
  unfoldable pub cosigned : Weather → ℕ → Wallet → SolanaPayload → Env Nonces → Attempt Bytes
  unfolding find_relayer check or_fail built_and_signed
  cosigned x project user p e = do
    r ← find_relayer x project e
    balance ← or_fail balance_query (x.nodes.solana_balance r.address)
    check (if ltb balance min_lamports then false else true) (fails balance_low)
    built_and_signed x project user p r e

  unfoldable pub taken : Weather → Bytes → Broadcast → Env Nonces → Answer × Env Nonces
  taken x raw not_taken e = (refused broadcast, e)
  taken x raw took_unheard e = (refused broadcast, record e { solana_sent = raw ∷ e.solana_sent })
  taken x raw (took id) e = (relayed id, record e { solana_sent = raw ∷ e.solana_sent })

  unfoldable pub broadcast_raw : Weather → Attempt Bytes → Env Nonces → Answer × Env Nonces
  unfolding taken
  broadcast_raw x (fails why) e = (refused why, e)
  broadcast_raw x panics e = (crashed, e)
  broadcast_raw x (got raw) e = taken x raw (x.nodes.solana_broadcast raw) e

  -- `RelaySolana`
  unfoldable pub relay_solana :
      Weather → ℕ → Wallet → SolanaPayload → Env Nonces → Answer × Env Nonces
  unfolding broadcast_raw
  relay_solana x project user p e = broadcast_raw x (cosigned x project user p e) e
