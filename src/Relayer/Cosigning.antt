-- ===== src/Relayer/Cosigning.antt =====
-- Gasless Solana calls: what is broadcast, and the input that stops the process.
use vaultkey.Prelude.{
  ℕ, ◌⊎◌, inl, inr, Bool-cases, ◌++◌, ◌≤◌, ◌<◌, ◌≡◌, refl, Bool, true, false, Option, none, some,
  [], ◌∷◌, Bytes, ltb, if◌then◌else◌, arith,
}
use vaultkey.Store.Wallets.{Wallet, solana, get_wallet, Relayer, get_relayer}
use vaultkey.Relayer.Outside.{
  Broadcast, took, took_unheard, not_taken, Signing, Env, Weather, Refusal, Answer, relayed,
  refused, crashed,
}
use vaultkey.Relayer.Evm.{found_or}
use vaultkey.Relayer.Solana.{
  Attempt, got, fails, panics, ◌>>=◌, ◌>>◌, or_fail, check, SolanaPayload, is_blank,
  token_instruction, native_instruction, instruction, build_message, assemble, min_lamports,
  find_relayer, built_and_signed, cosigned, taken, broadcast_raw, relay_solana,
}

>>=-eq-got :
    {A B : Type 0} (m : Attempt A) (f : A → Attempt B) {b : B}
    → (m >>= f) ≡ got b
    → (a : A) × (m ≡ got a) × (f a ≡ got b)
unfolding ◌>>=◌
>>=-eq-got (got a) f e = (a, refl, e)
>>=-eq-got (fails why) f e = cc
>>=-eq-got panics f e = cc

pub >>-eq-got :
    {A B : Type 0} (m : Attempt A) (k : Attempt B) {b : B}
    → (m >> k) ≡ got b
    → (a : A) × (m ≡ got a) × (k ≡ got b)
unfolding ◌>>◌
>>-eq-got (got a) k e = (a, refl, e)
>>-eq-got (fails why) k e = cc
>>-eq-got panics k e = cc

got_injective : {A : Type 0} {a b : A} → got a ≡ got b → b ≡ a
got_injective e = cc

or_fail-eq-got :
    {A : Type 0} (why : Refusal) (o : Option A) {a : A} → or_fail why o ≡ got a → o ≡ some a
unfolding or_fail
or_fail-eq-got why none e = cc
or_fail-eq-got why (some b) e = cc

found_or-eq-some :
    (failed : Bool) (o : Option Wallet) {w : Wallet} → found_or failed o ≡ some w → o ≡ some w
unfolding found_or
found_or-eq-some true o e = cc
found_or-eq-some false o e = e

check-eq-got : (b : Bool) (why : Refusal) {u : Unit {0}} → check b (fails why) ≡ got u → b ≡ true
unfolding check
check-eq-got true why e = refl
check-eq-got false why e = cc

enough :
    (balance : ℕ)
    → (if ltb balance min_lamports then false else true) ≡ true
    → min_lamports ≤ balance
enough balance h = ground arith

abbrev pub IsMessage : Signing → Bytes → Bytes → SolanaPayload → Bytes → Bytes → Type 0
IsMessage signing payer user p hash message =
    ((is_blank p.token_mint ≡ true)
      × (signing.transfer_message payer user p.to p.amount hash ≡ some message))
    ⊎ ((is_blank p.token_mint ≡ false)
        × (signing.token_message payer user p.source p.dest p.amount hash ≡ some message))

instruction-IsMessage :
    (signing : Signing) (payer user : Bytes) (p : SolanaPayload) (hash message : Bytes)
    → instruction signing payer user p hash ≡ got message
    → IsMessage signing payer user p hash message
unfolding instruction token_instruction native_instruction
instruction-IsMessage signing payer user p hash message e =
    elim (Bool-cases (is_blank p.token_mint)) [
      | inl native ↦
          let (u, checked, made) = >>-eq-got _ _ (rw native at e) in
          inl (native, or_fail-eq-got _ _ made)
      | inr token ↦
          let (u, named, e1) = >>-eq-got _ _ (rw token at e) in
          let (u', keys, made) = >>-eq-got _ _ e1 in inr (token, or_fail-eq-got _ _ made)
    ]

-- The message moves the payload's amount, which is not zero, from the user to its recipient.
build_message-IsMessage :
    (signing : Signing) (payer user : Bytes) (p : SolanaPayload) (hash message : Bytes)
    → build_message signing payer user p hash ≡ got message
    → (0 < p.amount) × IsMessage signing payer user p hash message
unfolding build_message
build_message-IsMessage signing payer user p hash message h0 =
    let (u1, e1, h1) = >>-eq-got _ _ h0 in
    let (u2, e2, h2) = >>-eq-got (check (ltb 0 p.amount) (fails Refusal.no_amount)) _ h1 in
    let (u3, e3, h3) = >>-eq-got _ _ h2 in
    let some_amount : ltb 0 p.amount ≡ true = check-eq-got _ _ e2 in
    (ground arith, instruction-IsMessage signing payer user p hash message h3)

module _ (signing : Signing) {Nonces : Type 0} where
  -- A transaction of two signatures on the message of the payload: by the wallet of the project's
  -- relayer, which can pay for it, and by the user's wallet.
  abbrev pub IsCosigned : Weather → ℕ → Wallet → SolanaPayload → Env Nonces → Bytes → Type 0
  IsCosigned x project user p e raw =
      (r : Relayer) × (payer : Wallet) × (owner : Wallet) × (hash : Bytes) × (message : Bytes)
      × (payer_sig : Bytes) × (user_sig : Bytes) × (balance : ℕ) × (get_relayer project solana []
            e.relayers
          ≡ some r)
      × (x.nodes.solana_balance r.address ≡ some balance)
      × (min_lamports ≤ balance)
      × (build_message signing r.address user.address p hash ≡ got message)
      × (get_wallet r.wallet project e.wallets ≡ some payer)
      × (get_wallet user.id project e.wallets ≡ some owner)
      × (signing.sign_solana payer.key message ≡ some payer_sig)
      × (signing.sign_solana owner.key message ≡ some user_sig)
      × (raw ≡ 2 ∷ (payer_sig ++ (user_sig ++ message)))
      × (0 < p.amount)
      × IsMessage signing r.address user.address p hash message

  find_relayer-eq-got :
      (x : Weather) (project : ℕ) (e : Env Nonces) (r : Relayer)
      → find_relayer signing x project e ≡ got r
      → get_relayer project solana [] e.relayers ≡ some r
  unfolding find_relayer
  find_relayer-eq-got x project e r h = go x.relayer_fails h
    where
      go :
          (b : Bool)
          → (if b
              then fails Refusal.relayer_query
              else or_fail Refusal.no_relayer (get_relayer project solana [] e.relayers))
            ≡ got r
          → get_relayer project solana [] e.relayers ≡ some r
      go true q = cc
      go false q = or_fail-eq-got _ _ q

  cosigned-IsCosigned :
      (x : Weather) (project : ℕ) (user : Wallet) (p : SolanaPayload) (e : Env Nonces) (raw : Bytes)
      → cosigned signing x project user p e ≡ got raw
      → IsCosigned x project user p e raw
  unfolding cosigned built_and_signed assemble
  cosigned-IsCosigned x project user p e raw h0 =
      let (r, e1, h1) = >>=-eq-got _ _ h0 in
      let (balance, e2, h2) = >>=-eq-got _ _ h1 in
      let (u, e3, h3) =
        >>-eq-got
          (check (if ltb balance min_lamports then false else true) (fails Refusal.balance_low))
          (built_and_signed signing x project user p r e) h2 in
      let (hash, e4, h4) = >>=-eq-got (or_fail Refusal.blockhash x.nodes.solana_blockhash) _ h3 in
      let (message, e5, h5) = >>=-eq-got _ _ h4 in
      let (payer, e6, h6) = >>=-eq-got _ _ h5 in
      let (owner, e7, h7) = >>=-eq-got _ _ h6 in
      let (user_sig, e8, h8) = >>=-eq-got _ _ h7 in
      let (payer_sig, e9, h9) = >>=-eq-got _ _ h8 in
      (
        r,
        payer,
        owner,
        hash,
        message,
        payer_sig,
        user_sig,
        balance,
        find_relayer-eq-got x project e r e1,
        or_fail-eq-got _ _ e2,
        enough balance (check-eq-got _ _ e3),
        e5,
        found_or-eq-some _ _ (or_fail-eq-got _ _ e6),
        found_or-eq-some _ _ (or_fail-eq-got _ _ e7),
        or_fail-eq-got _ _ e9,
        or_fail-eq-got _ _ e8,
        got_injective h9,
        (build_message-IsMessage signing r.address user.address p hash message e5).0,
        (build_message-IsMessage signing r.address user.address p hash message e5).1,
      )

  abbrev pub Ending :
      Weather → ℕ → Wallet → SolanaPayload → Env Nonces → Answer × Env Nonces → Type 0
  Ending x project user p e (relayed id, e') =
      (raw : Bytes) × IsCosigned x project user p e raw
      × (e' ≡ record e { solana_sent = raw ∷ e.solana_sent })
  Ending x project user p e (refused why, e') =
      (e' ≡ e)
      ⊎ ((why ≡ Refusal.broadcast)
          × ((raw : Bytes) × IsCosigned x project user p e raw
              × (e' ≡ record e { solana_sent = raw ∷ e.solana_sent })))
  Ending x project user p e (crashed, e') = e' ≡ e

  taken-Ending :
      (x : Weather) (project : ℕ) (user : Wallet) (p : SolanaPayload) (e : Env Nonces) (raw : Bytes)
      (o : Broadcast)
      → IsCosigned x project user p e raw
      → Ending x project user p e (taken signing x raw o e)
  unfolding taken
  taken-Ending x project user p e raw not_taken h = inl refl
  taken-Ending x project user p e raw took_unheard h = inr (refl, (raw, h, refl))
  taken-Ending x project user p e raw (took id) h = (raw, h, refl)

  broadcast_raw-Ending :
      (x : Weather) (project : ℕ) (user : Wallet) (p : SolanaPayload) (e : Env Nonces)
      (a : Attempt Bytes)
      → ((raw : Bytes) → a ≡ got raw → IsCosigned x project user p e raw)
      → Ending x project user p e (broadcast_raw signing x a e)
  unfolding broadcast_raw
  broadcast_raw-Ending x project user p e (fails why) h = inl refl
  broadcast_raw-Ending x project user p e panics h = refl
  broadcast_raw-Ending x project user p e (got raw) h =
      taken-Ending x project user p e raw _ (h raw refl)

  -- A gasless Solana call that succeeds has broadcast exactly one transaction: the count 2, the
  -- signatures of the project's relayer, which has at least 0.05 SOL, and of the user's wallet, and the
  -- message they sign, a transfer of the payload's positive amount by the user. A call that fails has
  -- changed nothing, or the error is that of the broadcast and the node took this one transaction all
  -- the same. A call that panics has changed nothing.
  pub relay_solana-Ending :
      (x : Weather) (project : ℕ) (user : Wallet) (p : SolanaPayload) (e : Env Nonces)
      → Ending x project user p e (relay_solana signing x project user p e)
  unfolding relay_solana
  relay_solana-Ending x project user p e =
      broadcast_raw-Ending x project user p e _
        λ raw h. cosigned-IsCosigned x project user p e raw h

  -- A recipient that is no base58 key stops the process, where the project's relayer can pay, a
  -- block hash is at hand and the amount is not zero: the call panics instead of returning an error.
  pub relay_solana_crashes :
      (x : Weather) (project : ℕ) (user : Wallet) (p : SolanaPayload) (e : Env Nonces) (r : Relayer)
      (balance : ℕ) (hash : Bytes)
      → x.relayer_fails ≡ false
      → get_relayer project solana [] e.relayers ≡ some r
      → x.nodes.solana_balance r.address ≡ some balance
      → min_lamports ≤ balance
      → x.nodes.solana_blockhash ≡ some hash
      → signing.is_key r.address ≡ true
      → signing.is_key user.address ≡ true
      → is_blank p.to ≡ false
      → 0 < p.amount
      → signing.is_key p.to ≡ false
      → relay_solana signing x project user p e ≡ (crashed, e)
  unfolding relay_solana cosigned built_and_signed find_relayer or_fail check build_message
      broadcast_raw ◌>>=◌ ◌>>◌
  relay_solana_crashes x project user p e r balance hash h0 h1 h2 h3 h4 h5 h6 h7 h8 h9 =
      let low : ltb balance min_lamports ≡ false = ground arith in
      let some_amount : ltb 0 p.amount ≡ true = ground arith in
      simp (h0, h1, h2, low, h4, h5, h6, h7, some_amount, h9) refl
