-- ===== src/Stablecoin/Checks.antt =====
-- What a transfer that reaches the queue has passed.
use vaultkey.Prelude.{ℕ, ◌≡◌, refl, ap, subst, List, Bytes}
use vaultkey.Store.Wallets.{ChainType, Wallet, Relayer}
use vaultkey.Queue.Redis.{ListStore, Codec}
use vaultkey.Worker.Tables.{World, Signer}
use vaultkey.Submit.{Reply, Visit}
use vaultkey.Stablecoin.Cache.{Cache}
use vaultkey.Stablecoin.Registry.{EntryCodec}
use vaultkey.Stablecoin.Desk.{TransferRequest, Outcome, fine, stops, >>=-eq-fine}
use vaultkey.Stablecoin.Transfer.{Here, checked_wallet, checked_amount, prepared}
use vaultkey.Stablecoin.Payloads.{Market}
use vaultkey.Stablecoin.Submission.{Answer, turned_down, submitted, Desk, submit, transfer}
use vaultkey.Stablecoin.Covered.{
  IsWallet, checked_wallet-IsWallet, IsCovered, checked_amount-IsCovered,
}

module _ (redis : ListStore) (queue_codec : Codec) (signer : Signer) (cache : Cache)
    (codec : EntryCodec) (to_lower : Bytes → Bytes) (m : Market) where
  abbrev pub Ending :
      Here cache codec to_lower m
      → TransferRequest
      → World redis.State signer.Env
      → Answer × Desk redis queue_codec signer cache codec to_lower m
      → Type 0
  Ending start q w (turned_down why, (stores, w')) = w' ≡ w
  Ending start q w (submitted r, (stores, w')) =
      (token : Bytes) × (ct : ChainType) × (wallet : Wallet) × (amount : ℕ) × IsWallet cache codec
        to_lower m q (signer.wallets w.env) token ct wallet
      × IsCovered cache codec to_lower m start q token ct wallet amount

  submit-Ending :
      (v : Visit) (q : TransferRequest) (made : Outcome (Bytes × Bytes))
      (start stores : Here cache codec to_lower m) (w : World redis.State signer.Env)
      → ((p : Bytes × Bytes)
          → made ≡ fine p
          → Ending start q w (submitted Reply.not_found, (stores, w)))
      → Ending start q w
          (submit redis queue_codec signer cache codec to_lower m v q made (stores, w))
  unfolding submit
  submit-Ending v q (stops why) start stores w h = refl
  submit-Ending v q (fine p) start stores w h = h p refl

  prepared-Ending :
      (q : TransferRequest) (ws : List Wallet) (rs : List Relayer)
      (s t : Here cache codec to_lower m) (p : Bytes × Bytes)
      → prepared cache codec to_lower m q ws rs s ≡ (fine p, t)
      → (token : Bytes) × (ct : ChainType) × (wallet : Wallet) × (amount : ℕ) × IsWallet cache codec
          to_lower m q ws token ct wallet
        × IsCovered cache codec to_lower m s q token ct wallet amount
  unfolding prepared
  prepared-Ending q ws rs s t p h0 =
      let (x, s1, e1, h1) = >>=-eq-fine (checked_wallet cache codec to_lower m q ws) _ s h0 in
      let (amount, s2, e2, h2) =
        >>=-eq-fine (checked_amount cache codec to_lower m q rs x.0 x.1 x.2) _ s1 h1 in
      let accepted = checked_wallet-IsWallet cache codec to_lower m q ws s s1 x.0 x.1 x.2 e1 in
      (
        x.0,
        x.1,
        x.2,
        amount,
        accepted.0,
        subst (λ z. IsCovered cache codec to_lower m z q x.0 x.1 x.2 amount) accepted.1
            (checked_amount-IsCovered cache codec to_lower m q rs x.0 x.1 x.2 s1 s2 amount e2),
      )

  -- A transfer that gets as far as creating its job is from a wallet of the project that is no
  -- master wallet and of the chain type asked for, to a recipient of the right form, and gasless where
  -- it is on Solana. The registry has an entry for its token and chain in the stores of the request;
  -- its amount, in the decimals of that entry, is positive and at most the balance that the chain
  -- reports for this token, at the contract that the registry gives for it right after. A transfer that
  -- is turned down leaves jobs, queue and wallets alone.
  pub transfer-Ending :
      (v : Visit) (q : TransferRequest) (rs : List Relayer) (stores : Here cache codec to_lower m)
      (w : World redis.State signer.Env)
      → Ending stores q w
          (transfer redis queue_codec signer cache codec to_lower m v q rs (stores, w))
  unfolding transfer
  transfer-Ending v q rs stores w = submit-Ending v q _ stores _ w λ p e.
      prepared-Ending q (signer.wallets w.env) rs stores _ p
        (ap (λ o. (o, (prepared cache codec to_lower m q (signer.wallets w.env) rs stores).1)) e)
