-- ===== src/Stablecoin/SolanaJobs.antt =====
-- What the worker makes of the job of a Solana transfer.
use vaultkey.Prelude.{ℕ, ◌≡◌, ◌≢◌, refl, true, false, some, [], Bytes, codes, bytes_eq}
use vaultkey.Store.Wallets.{Wallet}
use vaultkey.Nonce.Redis.{Counters}
use vaultkey.Relayer.Outside.{Signing, Weather, Answer, relayed, refused, crashed}
use vaultkey.Relayer.Evm.{Here}
use vaultkey.Relayer.Solana.{SolanaPayload, is_blank}
use vaultkey.Relayer.Cosigning.{relay_solana-Ending}
use vaultkey.Relayer.Accounts.{not_relayed}
use vaultkey.Worker.Jobs.{SigningJob}
use vaultkey.Worker.Payloads.{SigningResult, of_signature, Texts, made, of_answer}
use vaultkey.Worker.Operations.{gasless_solana, sign_gasless, sign}
use vaultkey.Stablecoin.Registry.{Entry}
use vaultkey.Stablecoin.Desk.{TransferRequest}
use vaultkey.Stablecoin.Payloads.{TokenPayload, token_payload}

-- `SolanaRelayPayload` read from the JSON of `solanaTokenPayload`, which has no key for the accounts:
-- missing keys leave fields empty.
abbrev pub read_back : TokenPayload → SolanaPayload
read_back p = record {
  to = p.to;
  amount = p.amount;
  token_mint = p.token_mint;
  source = [];
  dest = [];
}

of_answer-eq-made :
    (a : Answer) (r : SigningResult)
    → ((id : Bytes) → a ≢ relayed id)
    → of_answer of_signature a ≢ made r
unfolding of_answer
of_answer-eq-made (relayed id) r h q = h id refl
of_answer-eq-made (refused why) r h q = cc
of_answer-eq-made crashed r h q = cc

-- The worker never completes the job of a Solana transfer: whatever the nodes answer, signing a
-- gasless sign_tx_solana job whose payload is that of a transfer gives no result, since the payload
-- names the mint but not the two token accounts.
pub sign-token_payload :
    (redis : Counters) (signing : Signing) (texts : Texts) (x : Weather) (job : SigningJob)
    (user : Wallet) (token : Bytes) (entry : Entry) (q : TransferRequest) (amount : ℕ)
    (e : Here redis signing) (r : SigningResult)
    → job.operation ≡ codes "sign_tx_solana"
    → job.gasless ≡ true
    → texts.solana_relay job.payload ≡ some (read_back (token_payload token entry q amount))
    → is_blank entry.contract ≡ false
    → (sign redis signing texts x job user e).0 ≢ made r
unfolding sign sign_gasless gasless_solana bytes_eq token_payload is_blank
sign-token_payload redis signing texts x job user token entry q amount e r op gasless parsed mint =
    let p = read_back (token_payload token entry q amount) in
    simp (op, gasless, parsed)
      (of_answer-eq-made _ r λ id.
        not_relayed signing x job.project user p e _ id mint refl
          (relay_solana-Ending signing x job.project user p e))
