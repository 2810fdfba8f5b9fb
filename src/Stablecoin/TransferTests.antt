-- ===== src/Stablecoin/TransferTests.antt =====
-- A transfer of the sample token from the sample wallet.
use vaultkey.Prelude.{
  ◌≡◌, ◌≢◌, refl, true, false, none, some, [], ◌∷◌, Bytes, codes, arith, bytes_eq,
}
use vaultkey.Prelude.Int.{pos}
use vaultkey.Nonce.Redis.{in_memory as counters}
use vaultkey.Queue.Redis.{in_memory as lists}
use vaultkey.Relayer.Samples.{user_wallet, nodes, weather, signing, ready, evm_relayer}
use vaultkey.Relayer.Solana.{is_blank}
use vaultkey.Worker.Jobs.{SigningJob, create_signing_job, conflicting}
use vaultkey.Worker.Samples.{tagged, signed_job}
use vaultkey.Worker.Payloads.{Texts, of_hash, made}
use vaultkey.Worker.Operations.{sign}
use vaultkey.Submit.{accepted, create_and_enqueue, enqueue_job, is_taken}
use vaultkey.Submit.Samples.{no_signer, empty_world, visit}
use vaultkey.Stablecoin.Cache.{in_memory as cache}
use vaultkey.Stablecoin.Registry.{Entry, parse_token, resolve, entry_of, key}
use vaultkey.Stablecoin.Desk.{TransferRequest, ◌>>=◌, ◌>>◌}
use vaultkey.Stablecoin.Transfer.{prepared}
use vaultkey.Stablecoin.Payloads.{Market, token_payload, chain_of, is_evm, is_recipient}
use vaultkey.Stablecoin.Submission.{transfer, submitted}
use vaultkey.Stablecoin.Checks.{Ending, transfer-Ending}
use vaultkey.Stablecoin.SolanaJobs.{read_back, sign-token_payload}
use vaultkey.Relayer.Outside.{trim_0x}
use vaultkey.Amount.{trim_space, parse_amount}
use vaultkey.Store.Wallets.{get_wallet, get_relayer}
use vaultkey.Stablecoin.Tokens.{get_stablecoin_token, find_token}
use vaultkey.Relayer.Evm.{sufficient}
use vaultkey.Queue.{enqueue}
use vaultkey.Stablecoin.Abi.{encode_transfer}
use vaultkey.Stablecoin.Calldata.{IsTransferCall, encode_transfer-IsTransferCall}
use vaultkey.Stablecoin.Samples.{codec, usdc, all_up, empty}

-- 0x and 40 digits
abbrev recipient : Bytes
recipient = codes "0xABCDABCDABCDABCDABCDABCDABCDABCDABCDABCD"

abbrev request : TransferRequest
request = record {
  project = 2;
  wallet = 3;
  token = codes "usdc";
  to = recipient;
  amount = codes "0.000002";
  chain_id = codes "137";
  chain_type = codes "evm";
  gasless = true;
  key = none;
}

abbrev market : Market
market = record {
  nodes = nodes;
  evm_call = λ chain contract text. some (codes "0x05");
  token_balance = λ owner mint. none;
  calls = λ n. all_up;
  wallet_fails = false;
  relayer_fails = false;
  recheck_fails = false;
  garbage = λ s. 0;
  selector = 0xa9 ∷ 0x05 ∷ 0x9c ∷ 0xbb ∷ [];
  scan_int = λ s. some (pos 137);
  evm_json = λ p meta. p.payload;
  token_json = λ p. p.to;
}

transfer-Ending_example :
    Ending lists tagged no_signer cache codec
      (λ t. t)
      market
      (usdc ∷ [], empty)
      request
      empty_world
      (transfer lists tagged no_signer cache codec
        (λ t. t)
        market
        visit
        request
        (evm_relayer ∷ [])
        ((usdc ∷ [], empty), empty_world))
transfer-Ending_example =
    transfer-Ending lists tagged no_signer cache codec (λ t. t) market visit request
      (evm_relayer ∷ []) (usdc ∷ [], empty) empty_world

abbrev mint_entry : Entry
mint_entry = record { id = 4; contract = codes "mint"; decimals = 6; symbol = codes "USDC" }

abbrev texts : Texts
texts = record {
  evm_tx = λ t. none;
  message = λ t. none;
  evm_relay = λ t. none;
  solana_relay = λ t. some (read_back (token_payload (codes "usdc") mint_entry request 2));
  sweep_evm = λ t. none;
  sweep_solana = λ t. none;
  result_json = λ r. r.tx_hash;
  scan_int = λ t. none;
  scan_hex = λ t. t;
  error_text = λ f. codes "error";
}

abbrev token_job : SigningJob
token_job = record signed_job { operation = codes "sign_tx_solana"; gasless = true }

sign-token_payload_example :
    (sign counters signing texts weather token_job user_wallet ready).0 ≢ made (of_hash [])
unfolding is_blank
sign-token_payload_example =
    sign-token_payload counters signing texts weather token_job user_wallet (codes "usdc")
      mint_entry request 2 ready (of_hash []) refl refl refl refl

encode_transfer-IsTransferCall_example :
    (text : Bytes) × (encode_transfer (λ t. t) market.selector recipient 2000 ≡ some text)
    × IsTransferCall market.selector (codes "ABCDABCDABCDABCDABCDABCDABCDABCDABCDABCD") 2000 text
unfolding trim_0x
encode_transfer-IsTransferCall_example =
    encode_transfer-IsTransferCall (λ t. t) market.selector recipient 2000 refl refl (omega arith)
      (omega arith)

reaches_queue :
    (transfer lists tagged no_signer cache codec
      (λ t. t)
      market
      visit
      request
      (evm_relayer ∷ [])
      ((usdc ∷ [], empty), empty_world)).0
    ≡ submitted (accepted 1)
unfolding transfer bytes_eq prepared ◌>>=◌ ◌>>◌ parse_token trim_space chain_of is_evm is_recipient
    get_wallet resolve get_stablecoin_token find_token parse_amount get_relayer sufficient
    encode_transfer trim_0x entry_of key create_and_enqueue enqueue_job is_taken create_signing_job
    conflicting enqueue
reaches_queue = refl
