-- ===== src/Worker/Sweeps.antt =====
-- internal/worker/worker.go: what a sweep job moves.
use vaultkey.Prelude.{
  ◌≡◌, refl, ◌∙◌, ap, ℕ, ◌⊎◌, inl, inr, ◌∷◌, Option, none, Bool, true, false, some, Bytes, codes,
  bytes_eq, if◌then◌else◌,
}
use vaultkey.Prelude.Int.{ℤ}
use vaultkey.Store.Wallets.{evm, Relayer, get_relayer, get_wallet, Wallet, set_wallet, mark_swept}
use vaultkey.Nonce.Redis.{Counters}
use vaultkey.Relayer.Outside.{
  EvmTransaction, int_text, broadcast, Signing, Weather, Answer, relayed, refused, crashed,
}
use vaultkey.Relayer.Evm.{Here}
use vaultkey.Relayer.Sending.{IsSentBy, Outcome, relay_evm-Outcome}
use vaultkey.Worker.Jobs.{SigningJob}
use vaultkey.Worker.Payloads.{
  SweepEvm, Texts, Made, made, failure, stopped, relaying, SigningResult, or_value, sweep_payload,
}
use vaultkey.Worker.Operations.{mark_after, relay_sweep, sign_sweep_evm, sign}

module _ (redis : Counters) (signing : Signing) (texts : Texts) (x : Weather) where
  -- One broadcast more, signed by the project's relayer wallet: the balance that the node reports
  -- for the user's wallet, or the captured one where it does not answer, to the sweep's recipient.
  abbrev pub IsSwept : ℕ → Wallet → SweepEvm → ℤ → Here redis signing → Here redis signing → Type 0
  IsSwept project user s chain e e' =
      (r : Relayer) × (w : Wallet) × (tx : EvmTransaction) × (raw : Bytes) × (get_relayer project
          evm (int_text chain) e.relayers
        ≡ some r)
      × (get_wallet r.wallet project e.wallets ≡ some w)
      × (tx.to ≡ s.to)
      × ((b : Bytes) → x.nodes.evm_balance s.chain_id user.address ≡ some b → tx.value ≡ b)
      × (x.nodes.evm_balance s.chain_id user.address ≡ none → tx.value ≡ s.value)
      × (tx.payload ≡ codes "0x")
      × (tx.chain_id ≡ chain)
      × (signing.sign_evm w.key tx ≡ some raw)
      × (e'.sent ≡ record { chain = int_text chain; signer = w.id; tx = tx } ∷ e.sent)

  abbrev pub Sweeping :
      ℕ → Wallet → SweepEvm → ℤ → Here redis signing → Made × Here redis signing → Type 0
  Sweeping project user s chain e (made r, e') =
      IsSwept project user s chain e e'
      × (e'.wallets ≡ (if x.mark_fails then e.wallets else set_wallet user.id mark_swept e.wallets))
  Sweeping project user s chain e (failure why, e') =
      ((e'.sent ≡ e.sent) ⊎ ((why ≡ relaying broadcast) × IsSwept project user s chain e e'))
      × (e'.wallets ≡ e.wallets)
  Sweeping project user s chain e (stopped, e') = (e'.sent ≡ e.sent) × (e'.wallets ≡ e.wallets)

  of_live :
      (o : Option Bytes) (captured value : Bytes)
      → value ≡ or_value o captured
      → ((b : Bytes) → o ≡ some b → value ≡ b) × (o ≡ none → value ≡ captured)
  unfolding or_value
  of_live none captured value e = (λ b q. cc, λ q. e)
  of_live (some c) captured value e = (λ b q. cc, λ q. cc)

  of_sent :
      (project : ℕ) (user : Wallet) (s : SweepEvm) (chain : ℤ) (e e' : Here redis signing)
      → IsSentBy redis signing x project
          (sweep_payload s.to
            (or_value (x.nodes.evm_balance s.chain_id user.address) s.value)
            chain)
          e
          e'
      → IsSwept project user s chain e e'
  unfolding sweep_payload
  of_sent project user s chain e e'
        (r, w, tx, raw, hr, hw, (to, value, calldata, at, gas, named, unnamed), hn, hs, hq) =
      let (live, captured) =
        of_live (x.nodes.evm_balance s.chain_id user.address) s.value tx.value value in
      (r, w, tx, raw, hr, hw, to, live, captured, calldata, at, hs, hq)

  marked :
      (fails : Bool) (user : ℕ) (e e' : Here redis signing)
      → e'.wallets ≡ e.wallets
      → ((if fails then e' else record e' { wallets = set_wallet user mark_swept e'.wallets }).sent
          ≡ e'.sent)
        × ((if fails
              then e'
              else record e' { wallets = set_wallet user mark_swept e'.wallets }).wallets
            ≡ (if fails then e.wallets else set_wallet user mark_swept e.wallets))
  marked true user e e' q = (refl, q)
  marked false user e e' q = (refl, ap (set_wallet user mark_swept) q)

  mark_after-Sweeping :
      (project : ℕ) (user : Wallet) (s : SweepEvm) (chain : ℤ) (f : Bytes → SigningResult)
      (a : Answer) (e e' : Here redis signing)
      → Outcome redis signing x project
          (sweep_payload s.to
            (or_value (x.nodes.evm_balance s.chain_id user.address) s.value)
            chain)
          e
          (a, e')
      → Sweeping project user s chain e (mark_after redis signing texts x user.id f a e')
  unfolding mark_after
  mark_after-Sweeping project user s chain f (relayed hash) e e' (sent, hq) =
      let (same, done) = marked x.mark_fails user.id e e' hq in
      let (r, w, tx, raw, hr, hw, to, live, captured, calldata, at, hs, out) =
        of_sent project user s chain e e' sent in
      ((r, w, tx, raw, hr, hw, to, live, captured, calldata, at, hs, same ∙ out), done)
  mark_after-Sweeping project user s chain f (refused why) e e' (inl h) = (inl h.0, h.2)
  mark_after-Sweeping project user s chain f (refused why) e e' (inr (lost, sent, hq)) =
      (inr (ap relaying lost, of_sent project user s chain e e' sent), hq)
  mark_after-Sweeping project user s chain f crashed e e' h = (h.0, h.2)

  -- A sweep_evm job whose payload and chain id can be read sends at most one transaction, to the
  -- sweep's recipient, without calldata, of the balance that the node reports for the user's wallet (of
  -- the captured one where it does not answer), but signed by the wallet of the project's relayer: the
  -- user's wallet signs nothing. It is marked as swept exactly where the sweep succeeds and that
  -- statement does. A sweep that fails sends nothing, or the error is that of the broadcast and the
  -- node took the transaction all the same; it marks nothing.
  pub sign-Sweeping :
      (job : SigningJob) (user : Wallet) (s : SweepEvm) (chain : ℤ) (e : Here redis signing)
      → bytes_eq job.operation (codes "sweep_evm") ≡ true
      → texts.sweep_evm job.payload ≡ some s
      → texts.scan_int s.chain_id ≡ some chain
      → Sweeping job.project user s chain e (sign redis signing texts x job user e)
  unfolding sign sign_sweep_evm relay_sweep
  sign-Sweeping job user s chain e is_sweep parsed scanned =
      let p =
        sweep_payload s.to (or_value (x.nodes.evm_balance s.chain_id user.address) s.value) chain in
      simp (is_sweep, parsed, scanned)
        (mark_after-Sweeping job.project user s chain _ _ e _
          (relay_evm-Outcome redis signing x job.project user p e))
