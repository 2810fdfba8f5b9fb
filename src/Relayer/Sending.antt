-- ===== src/Relayer/Sending.antt =====
-- What a gasless call sends, and for whom: the only changes it makes beside the nonce counters.
use vaultkey.Prelude.{
  ℕ, ◌≡◌, ◌≢◌, sym, codes, [], ◌⊎◌, ◌==◌, if◌then◌else◌, refl, ap, Bool, true, false, Bool-cases,
  Option, none, some, inl, inr, ◌∷◌, Bytes,
}
use vaultkey.Store.Wallets.{Wallet, evm, get_wallet, Relayer, get_relayer}
use vaultkey.Nonce.Redis.{Counters}
use vaultkey.Nonce.{Result, ok, err, next, ensure_nonce}
use vaultkey.Relayer.Outside.{
  EvmTransaction, Broadcast, took, took_unheard, not_taken, broadcast, Signing, Env, Weather,
  Answer, relayed, refused, crashed, int_text,
}
use vaultkey.Relayer.Evm.{
  Here, EvmPayload, sufficient, transaction, gas_limit_or, gas_price_or, asked_price, found_or,
  resync, give_up, answered, broadcast_signed, send, with_nonce, after_ensure, funded, by_relayer,
  relay_evm,
}

-- Two states with the same tables and the same broadcasts.
abbrev pub IsQuiet : {Nonces : Type 0} → Env Nonces → Env Nonces → Type 0
IsQuiet e e' =
    (e'.sent ≡ e.sent)
    × (e'.solana_sent ≡ e.solana_sent)
    × (e'.wallets ≡ e.wallets)
    × (e'.relayers ≡ e.relayers)

of_found : (fails : Bool) (o : Option Wallet) (w : Wallet) → found_or fails o ≡ some w → o ≡ some w
unfolding found_or
of_found true o w h = cc
of_found false o w h = h

module _ (redis : Counters) (signing : Signing) where
  -- A transaction that carries what the payload says, with the node's gas price where it names none.
  abbrev pub IsOf : Weather → EvmPayload → EvmTransaction → Type 0
  IsOf x p tx =
      (tx.to ≡ p.to)
      × (tx.value ≡ p.value)
      × (tx.payload ≡ p.payload)
      × (tx.chain_id ≡ p.chain_id)
      × (tx.gas_limit ≡ (if p.gas_limit == 0 then 200000 else p.gas_limit))
      × (p.gas_price ≢ [] → tx.gas_price ≡ p.gas_price)
      × (p.gas_price ≡ []
          → tx.gas_price ≡ elim (x.nodes.evm_gas_price (int_text p.chain_id)) [
            | none ↦ codes "0x3B9ACA00"
            | some price ↦ price
          ])

  -- What `Next` answers for the relayer after `ensureNonce`.
  abbrev pub numbered : Weather → EvmPayload → Relayer → Here redis signing → Result ℕ
  numbered x p r e =
      let chain = int_text p.chain_id in
      let pending = x.nodes.evm_pending_nonce chain r.address in
      (next redis x.next_up chain r.address
        (ensure_nonce redis x.ensure_up pending chain r.address e.nonces).1).0

  -- One broadcast more: the payload's transaction, signed by the project's relayer wallet.
  abbrev pub IsSentBy : Weather → ℕ → EvmPayload → Here redis signing → Here redis signing → Type 0
  IsSentBy x project p e e' =
      (r : Relayer) × (w : Wallet) × (tx : EvmTransaction) × (raw : Bytes) × (get_relayer project
          evm (int_text p.chain_id) e.relayers
        ≡ some r)
      × (get_wallet r.wallet project e.wallets ≡ some w)
      × IsOf x p tx
      × (numbered x p r e ≡ ok tx.nonce)
      × (signing.sign_evm w.key tx ≡ some raw)
      × (e'.sent ≡ record { chain = int_text p.chain_id; signer = w.id; tx = tx } ∷ e.sent)

  -- A failed call has broadcast nothing, or its transaction is out and the answer was lost.
  abbrev pub Outcome :
      Weather → ℕ → EvmPayload → Here redis signing → Answer × Here redis signing → Type 0
  Outcome x project p e (relayed hash, e') = IsSentBy x project p e e' × (e'.wallets ≡ e.wallets)
  Outcome x project p e (refused why, e') =
      IsQuiet e e' ⊎ ((why ≡ broadcast) × IsSentBy x project p e e' × (e'.wallets ≡ e.wallets))
  Outcome x project p e (crashed, e') = IsQuiet e e'

  gas_price_or-IsOf :
      (answer : Option Bytes) (asked : Bytes)
      → (asked ≢ [] → gas_price_or answer asked ≡ asked)
        × (asked ≡ []
            → gas_price_or answer asked
              ≡ elim answer [ none ↦ codes "0x3B9ACA00" | some price ↦ price ])
  unfolding gas_price_or asked_price
  gas_price_or-IsOf none [] = (λ h. absurd (h refl), λ e. refl)
  gas_price_or-IsOf (some price) [] = (λ h. absurd (h refl), λ e. refl)
  gas_price_or-IsOf answer (c ∷ s) = (λ h. refl, λ e. cc)

  transaction-IsOf :
      (x : Weather) (p : EvmPayload) (nonce : ℕ) → IsOf x p (transaction x.nodes p nonce)
  unfolding transaction gas_limit_or
  transaction-IsOf x p nonce =
      let (named, unnamed) =
        gas_price_or-IsOf (x.nodes.evm_gas_price (int_text p.chain_id)) p.gas_price in
      (refl, refl, refl, refl, refl, named, unnamed)

  number :
      (x : Weather) (p : EvmPayload) (nonce : ℕ) {o : Result ℕ}
      → o ≡ ok nonce
      → o ≡ ok (transaction x.nodes p nonce).nonce
  unfolding transaction
  number x p nonce h = h

  one_sent :
      (x : Weather) (project : ℕ) (p : EvmPayload) (r : Relayer) (w : Wallet) (nonce : ℕ)
      (raw : Bytes) (e e' : Here redis signing)
      → get_relayer project evm (int_text p.chain_id) e.relayers ≡ some r
      → get_wallet r.wallet project e.wallets ≡ some w
      → signing.sign_evm w.key (transaction x.nodes p nonce) ≡ some raw
      → numbered x p r e ≡ ok nonce
      → e'.sent ≡ e.sent
      → IsSentBy x project p e (record e' {
        sent =
            record { chain = int_text p.chain_id; signer = w.id; tx = transaction x.nodes p nonce }
            ∷ e'.sent;
      })
  one_sent x project p r w nonce raw e e' hr hw hs hn q =
      let tx = transaction x.nodes p nonce in
      (
        r,
        w,
        tx,
        raw,
        hr,
        hw,
        transaction-IsOf x p nonce,
        number x p nonce hn,
        hs,
        ap (λ l. record { chain = int_text p.chain_id; signer = w.id; tx = tx } ∷ l) q,
      )

  answered-Outcome :
      (x : Weather) (project : ℕ) (p : EvmPayload) (r : Relayer) (w : Wallet) (nonce : ℕ)
      (raw : Bytes) (o : Broadcast) (e e' : Here redis signing)
      → get_relayer project evm (int_text p.chain_id) e.relayers ≡ some r
      → get_wallet r.wallet project e.wallets ≡ some w
      → signing.sign_evm w.key (transaction x.nodes p nonce) ≡ some raw
      → numbered x p r e ≡ ok nonce
      → IsQuiet e e'
      → Outcome x project p e (
          answered redis signing x
            (int_text p.chain_id)
            r.address
            w.id
            (transaction x.nodes p nonce)
            o
            e')
  unfolding answered give_up resync
  answered-Outcome x project p r w nonce raw not_taken e e' hr hw hs hn q = inl q
  answered-Outcome x project p r w nonce raw took_unheard e e' hr hw hs hn (q, qs, qw, qr) =
      inr (refl, one_sent x project p r w nonce raw e e' hr hw hs hn q, qw)
  answered-Outcome x project p r w nonce raw (took hash) e e' hr hw hs hn (q, qs, qw, qr) =
      (one_sent x project p r w nonce raw e e' hr hw hs hn q, qw)

  broadcast_signed-Outcome :
      (x : Weather) (project : ℕ) (p : EvmPayload) (r : Relayer) (w : Wallet) (nonce : ℕ)
      (raw : Option Bytes) (e e' : Here redis signing)
      → get_relayer project evm (int_text p.chain_id) e.relayers ≡ some r
      → get_wallet r.wallet project e.wallets ≡ some w
      → signing.sign_evm w.key (transaction x.nodes p nonce) ≡ raw
      → numbered x p r e ≡ ok nonce
      → IsQuiet e e'
      → Outcome x project p e (
          broadcast_signed redis signing x
            (int_text p.chain_id)
            r.address
            w.id
            (transaction x.nodes p nonce)
            raw
            e')
  unfolding broadcast_signed give_up resync
  broadcast_signed-Outcome x project p r w nonce none e e' hr hw hs hn q = inl q
  broadcast_signed-Outcome x project p r w nonce (some raw) e e' hr hw hs hn q =
      answered-Outcome x project p r w nonce raw _ e e' hr hw hs hn q

  send-Outcome :
      (x : Weather) (project : ℕ) (p : EvmPayload) (r : Relayer) (w : Option Wallet) (nonce : ℕ)
      (e e' : Here redis signing)
      → get_relayer project evm (int_text p.chain_id) e.relayers ≡ some r
      → found_or x.key_fails (get_wallet r.wallet project e'.wallets) ≡ w
      → numbered x p r e ≡ ok nonce
      → IsQuiet e e'
      → Outcome x project p e
          (send redis signing x (int_text p.chain_id) r.address (transaction x.nodes p nonce) w e')
  unfolding send give_up resync
  send-Outcome x project p r none nonce e e' hr hw hn q = inl q
  send-Outcome x project p r (some w) nonce e e' hr hw hn (q, qs, qw, qr) =
      broadcast_signed-Outcome x project p r w nonce _ e e' hr
        (of_found x.key_fails _ w (rw (← qw) hw)) refl hn (q, qs, qw, qr)

  with_nonce-Outcome :
      (x : Weather) (project : ℕ) (p : EvmPayload) (r : Relayer) (n : Result ℕ)
      (e e' : Here redis signing)
      → get_relayer project evm (int_text p.chain_id) e.relayers ≡ some r
      → numbered x p r e ≡ n
      → IsQuiet e e'
      → Outcome x project p e (with_nonce redis signing x project r p n e')
  unfolding with_nonce
  with_nonce-Outcome x project p r (err why) e e' hr hn q = inl q
  with_nonce-Outcome x project p r (ok nonce) e e' hr hn q =
      send-Outcome x project p r _ nonce e e' hr refl hn q

  after_ensure-Outcome :
      (x : Weather) (project : ℕ) (p : EvmPayload) (r : Relayer) (u : Result (Unit {0}))
      (e e' : Here redis signing)
      → get_relayer project evm (int_text p.chain_id) e.relayers ≡ some r
      → let chain = int_text p.chain_id in
        let pending = x.nodes.evm_pending_nonce chain r.address in
        e'.nonces ≡ (ensure_nonce redis x.ensure_up pending chain r.address e.nonces).1
        → IsQuiet e e'
        → Outcome x project p e (after_ensure redis signing x project r p u e')
  unfolding after_ensure
  after_ensure-Outcome x project p r (err why) e e' hr hn q = inl q
  after_ensure-Outcome x project p r (ok u) e e' hr hn q =
      with_nonce-Outcome x project p r _ e _ hr
        (sym (ap (λ s. (next redis x.next_up (int_text p.chain_id) r.address s).0) hn)) q

  funded-Outcome :
      (x : Weather) (project : ℕ) (p : EvmPayload) (r : Relayer) (balance : Option Bytes)
      (e : Here redis signing)
      → get_relayer project evm (int_text p.chain_id) e.relayers ≡ some r
      → Outcome x project p e (funded redis signing x project r p balance e)
  unfolding funded
  funded-Outcome x project p r none e hr = inl (refl, refl, refl, refl)
  funded-Outcome x project p r (some balance) e hr =
      elim (Bool-cases (sufficient signing.garbage balance)) [
        | inl f ↦ rw f (after_ensure-Outcome x project p r _ e _ hr refl (refl, refl, refl, refl))
        | inr f ↦ rw f (inl (refl, refl, refl, refl))
      ]

  by_relayer-Outcome :
      (x : Weather) (project : ℕ) (p : EvmPayload) (r : Option Relayer) (e : Here redis signing)
      → get_relayer project evm (int_text p.chain_id) e.relayers ≡ r
      → Outcome x project p e (by_relayer redis signing x project p r e)
  unfolding by_relayer
  by_relayer-Outcome x project p none e hr = inl (refl, refl, refl, refl)
  by_relayer-Outcome x project p (some r) e hr = funded-Outcome x project p r _ e hr

  -- A gasless EVM call that succeeds has broadcast exactly one transaction: with the payload's
  -- recipient, value, calldata, chain, gas limit (200000 where it is 0) and gas price (the node's, or 1
  -- gwei, where there is none), with the nonce that `Next` gives, signed by the wallet of
  -- the relayer that the project has for the chain. A call that fails has broadcast nothing, or the
  -- error is that of the broadcast and the node took this one transaction all the same. Neither
  -- changes a wallet.
  pub relay_evm-Outcome :
      (x : Weather) (project : ℕ) (user : Wallet) (p : EvmPayload) (e : Here redis signing)
      → Outcome x project p e (relay_evm redis signing x project user p e)
  unfolding relay_evm
  relay_evm-Outcome x project user p e = elim (Bool-cases x.relayer_fails) [
    | inl f ↦ simp f (inl (refl, refl, refl, refl))
    | inr f ↦ simp f (by_relayer-Outcome x project p _ e refl)
  ]
