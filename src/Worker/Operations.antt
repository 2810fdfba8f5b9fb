-- ===== src/Worker/Operations.antt =====
-- internal/worker/worker.go: `sign` and what it calls.
use vaultkey.Prelude.{ℕ, Option, none, some, Bytes, codes, bytes_eq, if◌then◌else◌}
use vaultkey.Prelude.Int.{ℤ}
use vaultkey.Store.Wallets.{Wallet, set_wallet, mark_swept}
use vaultkey.Nonce.Redis.{Counters}
use vaultkey.Nonce.{Result, ok, err, next, ensure_nonce}
use vaultkey.Relayer.Outside.{
  EvmTransaction, Signing, Weather, Answer, relayed, refused, crashed, int_text, hex_text,
}
use vaultkey.Relayer.Evm.{EvmPayload, Here, resync, relay_evm}
use vaultkey.Relayer.Solana.{SolanaPayload, relay_solana}
use vaultkey.Worker.Jobs.{SigningJob}
use vaultkey.Worker.Tables.{Signed, signed, panicked, Signer}
use vaultkey.Worker.Payloads.{
  SigningResult, of_hash, of_signature, of_tx, bad_payload, not_gasless, unknown_operation,
  no_nonce, not_signed, bad_chain_id, relaying, SweepEvm, SweepSolana, Texts, Made, made, failure,
  stopped, of_answer, hex_0x, signature_of, or_value, or_amount, sweep_payload, sweep_transfer,
}

module _ (redis : Counters) (signing : Signing) (texts : Texts) (x : Weather) where
  abbrev Now : Type 0
  Now = Here redis signing

  abbrev Ends : Type 0
  Ends = Made × Now

  with_tx_signature : Bytes → Bytes → Option Bytes → Now → Ends
  unfolding hex_0x
  with_tx_signature chain address none e =
      (failure not_signed, resync redis signing x chain address e)
  with_tx_signature chain address (some raw) e = (made (of_tx (hex_0x raw)), e)

  with_tx_nonce : Wallet → EvmTransaction → Result ℕ → Now → Ends
  unfolding with_tx_signature
  with_tx_nonce wallet tx (err why) e = (failure no_nonce, e)
  with_tx_nonce wallet tx (ok n) e =
      with_tx_signature (int_text tx.chain_id) wallet.address
        (signing.sign_evm wallet.key (record tx { nonce = n })) e

  with_tx_ensured : Wallet → EvmTransaction → Result (Unit {0}) → Now → Ends
  unfolding with_tx_nonce
  with_tx_ensured wallet tx (err why) e = (failure no_nonce, e)
  with_tx_ensured wallet tx (ok u) e =
      let (n, s) = next redis x.next_up (int_text tx.chain_id) wallet.address e.nonces in
      with_tx_nonce wallet tx n (record e { nonces = s })

  -- The case "sign_tx_evm": signed by the user's wallet and not broadcast.
  unfoldable pub sign_tx_evm : Wallet → Option EvmTransaction → Now → Ends
  unfolding with_tx_ensured
  sign_tx_evm wallet none e = (failure bad_payload, e)
  sign_tx_evm wallet (some tx) e =
      let chain = int_text tx.chain_id in
      let pending = x.nodes.evm_pending_nonce chain wallet.address in
      let (u, s) = ensure_nonce redis x.ensure_up pending chain wallet.address e.nonces in
      with_tx_ensured wallet tx u (record e { nonces = s })

  sign_msg_evm : Wallet → Option Bytes → Made
  unfolding signature_of hex_0x
  sign_msg_evm wallet none = failure bad_payload
  sign_msg_evm wallet (some m) = signature_of hex_0x (signing.sign_message wallet.key m)

  sign_tx_solana : Wallet → Option Bytes → Made
  unfolding signature_of
  sign_tx_solana wallet none = failure bad_payload
  sign_tx_solana wallet (some m) =
      signature_of hex_text (signing.sign_solana wallet.key (texts.scan_hex m))

  sign_msg_solana : Wallet → Option Bytes → Made
  unfolding signature_of
  sign_msg_solana wallet none = failure bad_payload
  sign_msg_solana wallet (some m) = signature_of hex_text (signing.sign_solana_message wallet.key m)

  -- The switch of `sign`
  unfoldable pub sign_by_operation : SigningJob → Wallet → Now → Ends
  unfolding sign_tx_evm sign_msg_evm sign_tx_solana sign_msg_solana
  sign_by_operation job wallet e =
      if bytes_eq job.operation (codes "sign_tx_evm")
      then sign_tx_evm wallet (texts.evm_tx job.payload) e
      else if bytes_eq job.operation (codes "sign_msg_evm")
      then (sign_msg_evm wallet (texts.message job.payload), e)
      else if bytes_eq job.operation (codes "sign_tx_solana")
      then (sign_tx_solana wallet (texts.message job.payload), e)
      else if bytes_eq job.operation (codes "sign_msg_solana")
      then (sign_msg_solana wallet (texts.message job.payload), e)
      else (failure unknown_operation, e)

  unfoldable pub gasless_evm : ℕ → Wallet → Option EvmPayload → Now → Ends
  unfolding of_answer
  gasless_evm project wallet none e = (failure bad_payload, e)
  gasless_evm project wallet (some p) e =
      let (a, e') = relay_evm redis signing x project wallet p e in (of_answer of_hash a, e')

  unfoldable pub gasless_solana : ℕ → Wallet → Option SolanaPayload → Now → Ends
  unfolding of_answer
  gasless_solana project wallet none e = (failure bad_payload, e)
  gasless_solana project wallet (some p) e =
      let (a, e') = relay_solana signing x project wallet p e in (of_answer of_signature a, e')

  -- `signGasless`
  unfoldable pub sign_gasless : SigningJob → Wallet → Now → Ends
  unfolding gasless_evm gasless_solana
  sign_gasless job wallet e =
      if bytes_eq job.operation (codes "sign_tx_evm")
      then gasless_evm job.project wallet (texts.evm_relay job.payload) e
      else if bytes_eq job.operation (codes "sign_tx_solana")
      then gasless_solana job.project wallet (texts.solana_relay job.payload) e
      else (failure not_gasless, e)

  -- `MarkWalletSwept` after a relay that succeeded; its error is dropped.
  unfoldable pub mark_after : ℕ → (Bytes → SigningResult) → Answer → Now → Ends
  mark_after i f (relayed id) e = (
    made (f id),
    if x.mark_fails then e else record e { wallets = set_wallet i mark_swept e.wallets },
  )
  mark_after i f (refused why) e = (failure (relaying why), e)
  mark_after i f crashed e = (stopped, e)

  unfoldable pub relay_sweep : ℕ → Wallet → SweepEvm → Option ℤ → Now → Ends
  unfolding sweep_payload or_value mark_after
  relay_sweep project wallet s none e = (failure bad_chain_id, e)
  relay_sweep project wallet s (some chain) e =
      let balance = or_value (x.nodes.evm_balance s.chain_id wallet.address) s.value in
      let (a, e') = relay_evm redis signing x project wallet (sweep_payload s.to balance chain) e in
      mark_after wallet.id of_hash a e'

  -- `signSweepEVM`
  unfoldable pub sign_sweep_evm : ℕ → Wallet → Option SweepEvm → Now → Ends
  unfolding relay_sweep
  sign_sweep_evm project wallet none e = (failure bad_payload, e)
  sign_sweep_evm project wallet (some s) e =
      relay_sweep project wallet s (texts.scan_int s.chain_id) e

  -- `signSweepSolana`
  unfoldable pub sign_sweep_solana : ℕ → Wallet → Option SweepSolana → Now → Ends
  unfolding sweep_transfer or_amount mark_after
  sign_sweep_solana project wallet none e = (failure bad_payload, e)
  sign_sweep_solana project wallet (some s) e =
      let amount = or_amount (x.nodes.solana_balance wallet.address) s.amount in
      let (a, e') = relay_solana signing x project wallet (sweep_transfer s.to amount) e in
      mark_after wallet.id of_signature a e'

  -- `sign`, with `signSweep`: sweeps come before the gasless flag.
  unfoldable pub sign : SigningJob → Wallet → Now → Ends
  unfolding sign_sweep_evm sign_sweep_solana sign_gasless sign_by_operation
  sign job wallet e =
      if bytes_eq job.operation (codes "sweep_evm")
      then sign_sweep_evm job.project wallet (texts.sweep_evm job.payload) e
      else if bytes_eq job.operation (codes "sweep_solana")
      then sign_sweep_solana job.project wallet (texts.sweep_solana job.payload) e
      else if job.gasless
      then sign_gasless job wallet e
      else sign_by_operation job wallet e

  unfoldable pub to_signed : Made → Signed
  to_signed (made r) = signed (texts.result_json r)
  to_signed (failure f) = Signed.refused (texts.error_text f)
  to_signed stopped = panicked

  -- The signer that `process_job` runs.
  abbrev pub signer : Signer
  signer = record {
    Env = Now;
    wallets = λ e. e.wallets;
    sign = λ job wallet e. (to_signed (sign job wallet e).0, (sign job wallet e).1);
  }
