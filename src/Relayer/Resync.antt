-- ===== src/Relayer/Resync.antt =====
-- A gasless call that takes a nonce and then fails: the counter afterwards.
use vaultkey.Prelude.{
  ℕ, ◌∷◌, ◌+◌, ◌^◌, ◌<◌, ◌≡◌, refl, Bool, true, false, Bool-cases, Option, none, some, inl, inr,
  Bytes, arith,
}
use vaultkey.Prelude.Int.{pos}
use vaultkey.Store.Wallets.{Wallet, evm, Relayer, get_relayer}
use vaultkey.Nonce.Redis.{Counters}
use vaultkey.Nonce.Sequence.{next_value}
use vaultkey.Nonce.Callers.{get-sync}
use vaultkey.Nonce.{Result, ok, err, next, key, resync_nonce}
use vaultkey.Relayer.Outside.{
  EvmTransaction, Broadcast, took, took_unheard, not_taken, Signing, Weather, Refusal, key_wallet,
  signature, broadcast, Answer, relayed, refused, crashed, int_text,
}
use vaultkey.Relayer.Evm.{
  Here, EvmPayload, sufficient, resync, give_up, answered, broadcast_signed, send, with_nonce,
  after_ensure, funded, by_relayer, relay_evm,
}

-- The errors that come after `Next`.
abbrev pub is_spent : Refusal → Bool
is_spent key_wallet = true
is_spent signature = true
is_spent broadcast = true
is_spent _ = false

module _ (redis : Counters) (signing : Signing) (x : Weather) (p : EvmPayload) (address : Bytes)
    (pending : ℕ) where
  abbrev IsReset : Here redis signing → Type 0
  IsReset e = redis.get (key (int_text p.chain_id) address) e.nonces ≡ some (pos (pending + 1))

  abbrev Resynced : Answer × Here redis signing → Type 0
  Resynced (relayed hash, e) = Unit
  Resynced (crashed, e) = Unit
  Resynced (refused why, e) = is_spent why ≡ true → IsReset e

  -- What is assumed of the chain's node and of Redis.
  abbrev IsUp : Type 0
  IsUp =
      (x.nodes.evm_pending_nonce (int_text p.chain_id) address ≡ some pending)
      × (x.resync_up ≡ true)
      × (pending + 1 < 2 ^ 63)

  resync-IsReset :
      (e : Here redis signing)
      → IsUp
      → IsReset (resync redis signing x (int_text p.chain_id) address e)
  unfolding resync resync_nonce
  resync-IsReset e (hp, hu, h) =
      simp (hp, hu) (get-sync redis (int_text p.chain_id) address pending e.nonces h)

  answered-Resynced :
      (wallet : ℕ) (tx : EvmTransaction) (o : Broadcast) (e : Here redis signing)
      → IsUp
      → Resynced (answered redis signing x (int_text p.chain_id) address wallet tx o e)
  unfolding answered give_up
  answered-Resynced wallet tx not_taken e h = λ _. resync-IsReset e h
  answered-Resynced wallet tx took_unheard e h = λ _.
      resync-IsReset
        (record e {
          sent = record { chain = int_text p.chain_id; signer = wallet; tx = tx } ∷ e.sent;
        })
        h
  answered-Resynced wallet tx (took hash) e h = tt

  broadcast_signed-Resynced :
      (wallet : ℕ) (tx : EvmTransaction) (raw : Option Bytes) (e : Here redis signing)
      → IsUp
      → Resynced (broadcast_signed redis signing x (int_text p.chain_id) address wallet tx raw e)
  unfolding broadcast_signed give_up
  broadcast_signed-Resynced wallet tx none e h = λ _. resync-IsReset e h
  broadcast_signed-Resynced wallet tx (some raw) e h = answered-Resynced wallet tx _ e h

  send-Resynced :
      (tx : EvmTransaction) (w : Option Wallet) (e : Here redis signing)
      → IsUp
      → Resynced (send redis signing x (int_text p.chain_id) address tx w e)
  unfolding send give_up
  send-Resynced tx none e h = λ _. resync-IsReset e h
  send-Resynced tx (some w) e h = broadcast_signed-Resynced w.id tx _ e h

  module _ (project : ℕ) (r : Relayer) (same : r.address ≡ address) where
    with_nonce-Resynced :
        (n : Result ℕ) (e : Here redis signing)
        → IsUp
        → Resynced (with_nonce redis signing x project r p n e)
    unfolding with_nonce
    with_nonce-Resynced (err why) e h = λ q. cc
    with_nonce-Resynced (ok nonce) e h = rw same (send-Resynced _ _ e h)

    after_ensure-Resynced :
        (u : Result (Unit {0})) (e : Here redis signing)
        → IsUp
        → Resynced (after_ensure redis signing x project r p u e)
    unfolding after_ensure
    after_ensure-Resynced (err why) e h = λ q. cc
    after_ensure-Resynced (ok u) e h = with_nonce-Resynced _ _ h

    funded-Resynced :
        (balance : Option Bytes) (e : Here redis signing)
        → IsUp
        → Resynced (funded redis signing x project r p balance e)
    unfolding funded
    funded-Resynced none e h = λ q. cc
    funded-Resynced (some balance) e h = elim (Bool-cases (sufficient signing.garbage balance)) [
      | inl f ↦ rw f (after_ensure-Resynced _ _ h)
      | inr f ↦ rw f (λ q. cc)
    ]

  relay_evm-Resynced :
      (project : ℕ) (user : Wallet) (r : Relayer) (e : Here redis signing)
      → get_relayer project evm (int_text p.chain_id) e.relayers ≡ some r
      → r.address ≡ address
      → IsUp
      → Resynced (relay_evm redis signing x project user p e)
  unfolding relay_evm by_relayer
  relay_evm-Resynced project user r e hr same h = elim (Bool-cases x.relayer_fails) [
    | inl f ↦ simp f (λ q. cc)
    | inr f ↦ simp (f, hr, by_relayer) (funded-Resynced project r same _ e h)
  ]

  next_of_answer :
      (a : Answer × Here redis signing) (why : Refusal)
      → Resynced a
      → a.0 ≡ refused why
      → is_spent why ≡ true
      → pending + 2 < 2 ^ 63
      → (next redis true (int_text p.chain_id) address a.1.nonces).0 ≡ ok (pending + 1)
  next_of_answer (relayed hash, e) why s q spent h = cc
  next_of_answer (crashed, e) why s q spent h = cc
  next_of_answer (refused why', e) why s q spent h =
      let spent' : is_spent why' ≡ true = cc in
      (next_value redis (int_text p.chain_id) address e.nonces (pending + 1) (s spent')
        (omega arith)).0

-- Where a gasless EVM call fails after it took a nonce (the relayer's key is not found, signing or
-- broadcasting fails) and the chain's node and Redis answer the resync, the next call is handed the
-- nonce after the chain's pending one, whatever the counter was.
pub next-relay_evm :
    (redis : Counters) (signing : Signing) (x : Weather) (project : ℕ) (user : Wallet)
    (p : EvmPayload) (r : Relayer) (pending : ℕ) (why : Refusal) (e : Here redis signing)
    → get_relayer project evm (int_text p.chain_id) e.relayers ≡ some r
    → x.nodes.evm_pending_nonce (int_text p.chain_id) r.address ≡ some pending
    → x.resync_up ≡ true
    → pending + 2 < 2 ^ 63
    → (relay_evm redis signing x project user p e).0 ≡ refused why
    → is_spent why ≡ true
    → let e' = (relay_evm redis signing x project user p e).1 in
      (next redis true (int_text p.chain_id) r.address e'.nonces).0 ≡ ok (pending + 1)
next-relay_evm redis signing x project user p r pending why e hr hp hu h q spent =
    next_of_answer redis signing x p r.address pending _ why
      (relay_evm-Resynced redis signing x p r.address pending project user r e hr refl
        (hp, hu, omega arith))
      q spent h
