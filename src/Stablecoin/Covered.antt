-- ===== src/Stablecoin/Covered.antt =====
-- What the checks of a transfer make sure of, one after the other.
use vaultkey.Prelude.{
  ℕ, ◌<◌, ◌≤◌, ◌≡◌, refl, sym, ap, ◌∙◌, Option, subst, Bool, true, false, not, ◌||◌, some, List,
  Bytes, leb, ltb, arith, if◌then◌else◌,
}
use vaultkey.Amount.{Result, ok, err, parse_amount}
use vaultkey.Store.Wallets.{
  ChainType, evm, solana, same_chain, Wallet, get_wallet, Relayer, get_relayer,
}
use vaultkey.Relayer.Outside.{trim_0x}
use vaultkey.Stablecoin.Cache.{Cache}
use vaultkey.Stablecoin.Registry.{Entry, EntryCodec, parse_token}
use vaultkey.Stablecoin.Desk.{
  TransferRequest, Refused, wallet_query, wallet_missing, master_wallet, Outcome, fine, stop, need,
  demand, ◌>>◌, ◌>>=◌, >>=-eq-fine, need-eq-fine, demand-eq-fine,
}
use vaultkey.Stablecoin.Transfer.{
  Here, lookup_entry, amount_step, relayer_if, relayer_step, is_healthy, find_wallet, balance_step,
  checked_wallet, checked_amount,
}
use vaultkey.Stablecoin.Payloads.{
  Market, chain_of, is_evm, is_recipient, read_balance, balance_call, amount_of,
}

false_of_not : (b : Bool) → not b ≡ true → b ≡ false
false_of_not true h = cc
false_of_not false h = refl

amount_of-eq-fine : (r : Result) (n : ℕ) → amount_of r ≡ fine n → r ≡ ok n
unfolding amount_of
amount_of-eq-fine (ok k) n e = cc
amount_of-eq-fine (err why) n e = cc

fine-injective :
    {S A : Type 0} {a b : A} {s t : S} → ◌≡◌ {A = Outcome A × S} (fine a, s) (fine b, t) → a ≡ b
fine-injective e = cc

fine-state :
    {S A : Type 0} {a b : A} {s t : S} → ◌≡◌ {A = Outcome A × S} (fine a, s) (fine b, t) → t ≡ s
fine-state e = cc

positive : (n : ℕ) → ltb 0 n ≡ true → 0 < n
positive n h = ground arith

at_most : (n k : ℕ) → leb n k ≡ true → n ≤ k
at_most n k h = ground arith

module _ (cache : Cache) (codec : EntryCodec) (to_lower : Bytes → Bytes) (m : Market) where
  abbrev pub IsWallet : TransferRequest → List Wallet → Bytes → ChainType → Wallet → Type 0
  IsWallet q ws token ct wallet =
      (parse_token to_lower q.token ≡ some token)
      × (chain_of q.chain_type ≡ some ct)
      × ((is_evm ct || q.gasless) ≡ true)
      × (is_recipient ct q.to ≡ true)
      × (get_wallet q.wallet q.project ws ≡ some wallet)
      × (same_chain wallet.chain_type ct ≡ true)
      × (wallet.is_master ≡ false)

  find_wallet-eq-fine :
      (wallet project : ℕ) (ws : List Wallet) (s t : Here cache codec to_lower m) (w : Wallet)
      → find_wallet cache codec to_lower m wallet project ws s ≡ (fine w, t)
      → (get_wallet wallet project ws ≡ some w) × (t ≡ s)
  unfolding find_wallet
  find_wallet-eq-fine wallet project ws s t w e = go m.wallet_fails e
    where
      go :
          (b : Bool)
          → (if b then stop wallet_query else need wallet_missing (get_wallet wallet project ws)) s
            ≡ (fine w, t)
          → (get_wallet wallet project ws ≡ some w) × (t ≡ s)
      go true h = cc
      go false h = need-eq-fine _ _ s h

  pub checked_wallet-IsWallet :
      (q : TransferRequest) (ws : List Wallet) (s t : Here cache codec to_lower m) (token : Bytes)
      (ct : ChainType) (wallet : Wallet)
      → checked_wallet cache codec to_lower m q ws s ≡ (fine (token, ct, wallet), t)
      → IsWallet q ws token ct wallet × (t ≡ s)
  unfolding checked_wallet
  checked_wallet-IsWallet q ws s t token ct wallet e =
      let (token', s1, e1, h1) = >>=-eq-fine _ _ s e in
      let (ct', s2, e2, h2) = >>=-eq-fine _ _ s1 h1 in
      let (u3, s3, e3, h3) =
        >>=-eq-fine (demand Refused.needs_gasless (is_evm ct' || q.gasless)) _ s2 h2 in
      let (u4, s4, e4, h4) =
        >>=-eq-fine (demand Refused.bad_recipient (is_recipient ct' q.to)) _ s3 h3 in
      let (wallet', s5, e5, h5) =
        >>=-eq-fine (find_wallet cache codec to_lower m q.wallet q.project ws) _ s4 h4 in
      let (u6, s6, e6, h6) =
        >>=-eq-fine (demand Refused.wrong_chain (same_chain wallet'.chain_type ct')) _ s5 h5 in
      let (u7, s7, e7, h7) = >>=-eq-fine (demand master_wallet (not wallet'.is_master)) _ s6 h6 in
      let d1 = need-eq-fine _ _ s e1 in
      let d2 = need-eq-fine _ _ s1 e2 in
      let d3 = demand-eq-fine _ _ s2 e3 in
      let d4 = demand-eq-fine _ _ s3 e4 in
      let d5 = find_wallet-eq-fine q.wallet q.project ws s4 s5 wallet' e5 in
      let d6 = demand-eq-fine _ _ s5 e6 in
      let d7 = demand-eq-fine _ _ s6 e7 in
      (
        subst (λ x. IsWallet q ws x.0 x.1 x.2) (fine-injective h7)
            (d1.0, d2.0, d3.0, d4.0, d5.0, d6.0, false_of_not wallet'.is_master d7.0),
        fine-state h7 ∙ d7.1 ∙ d6.1 ∙ d5.1 ∙ d4.1 ∙ d3.1 ∙ d2.1 ∙ d1.1,
      )

  -- The token's balance, by the entry that the registry gives for it in the stores `s`.
  abbrev pub IsReported :
      Here cache codec to_lower m → Wallet → Bytes → ChainType → Bytes → ℕ → Type 0
  IsReported s wallet token evm chain balance =
      (t : Here cache codec to_lower m) × (e : Entry) × (raw : Bytes) × (lookup_entry cache codec
          to_lower m (m.calls 1) token evm chain s
        ≡ (fine e, t))
      × (m.evm_call chain e.contract (balance_call to_lower wallet.address) ≡ some raw)
      × (balance ≡ read_balance m.garbage (trim_0x raw))
  IsReported s wallet token solana chain balance =
      (t : Here cache codec to_lower m) × (e : Entry) × (lookup_entry cache codec to_lower m
          (m.calls 1) token solana chain s
        ≡ (fine e, t))
      × (m.token_balance wallet.address e.contract ≡ some balance)

  balance_step-IsReported :
      (wallet : Wallet) (token : Bytes) (ct : ChainType) (chain : Bytes)
      (s t : Here cache codec to_lower m) (balance : ℕ)
      → balance_step cache codec to_lower m wallet token ct chain s ≡ (fine balance, t)
      → IsReported s wallet token ct chain balance
  unfolding balance_step
  balance_step-IsReported wallet token evm chain s t balance h0 =
      let (e, s1, e1, h1) =
        >>=-eq-fine (lookup_entry cache codec to_lower m (m.calls 1) token evm chain) _ s h0 in
      let (raw, s2, e2, h2) =
        >>=-eq-fine
          (need Refused.balance_query
            (m.evm_call chain e.contract (balance_call to_lower wallet.address)))
          _ s1 h1 in
      (s1, e, raw, e1, (need-eq-fine _ _ s1 e2).0, sym (fine-injective h2))
  balance_step-IsReported wallet token solana chain s t balance h0 =
      let (e, s1, e1, h1) =
        >>=-eq-fine (lookup_entry cache codec to_lower m (m.calls 1) token solana chain) _ s h0 in
      (s1, e, e1, (need-eq-fine _ _ s1 h1).0)

  -- The registry's entry for the token, in the stores of the request; the amount is what the text says
  -- in its decimals, positive, and the wallet has it, by the entry that the stores then give.
  abbrev pub IsCovered :
      Here cache codec to_lower m → TransferRequest → Bytes → ChainType → Wallet → ℕ → Type 0
  IsCovered s q token ct wallet amount =
      (t : Here cache codec to_lower m) × (e : Entry) × (balance : ℕ) × (lookup_entry cache codec
          to_lower m (m.calls 0) token ct q.chain_id s
        ≡ (fine e, t))
      × (parse_amount q.amount e.decimals ≡ ok amount)
      × IsReported t wallet token ct q.chain_id balance
      × (0 < balance)
      × (amount ≤ balance)

  is_healthy-state :
      (ct : ChainType) (chain address : Bytes) (s t : Here cache codec to_lower m) (u : Unit {0})
      → is_healthy cache codec to_lower m ct chain address s ≡ (fine u, t)
      → t ≡ s
  unfolding is_healthy
  is_healthy-state evm chain address s t u h =
      let (b, s1, e1, h1) = >>=-eq-fine _ _ s h in
      (demand-eq-fine _ _ s1 h1).1 ∙ (need-eq-fine _ _ s e1).1
  is_healthy-state solana chain address s t u h =
      let (b, s1, e1, h1) = >>=-eq-fine _ _ s h in
      (demand-eq-fine _ _ s1 h1).1 ∙ (need-eq-fine _ _ s e1).1

  queried-state :
      {A : Type 0} (failed : Bool) (query missing : Refused) (o : Option A)
      (s t : Here cache codec to_lower m) (a : A)
      → (if failed then stop query else need missing o) s ≡ (fine a, t)
      → t ≡ s
  queried-state true query missing o s t a h = cc
  queried-state false query missing o s t a h = (need-eq-fine _ _ s h).1

  relayer_if-state :
      (b : Bool) (project : ℕ) (ct : ChainType) (chain : Bytes) (rs : List Relayer)
      (s t : Here cache codec to_lower m) (u : Unit {0})
      → relayer_if cache codec to_lower m b project ct chain rs s ≡ (fine u, t)
      → t ≡ s
  unfolding relayer_if relayer_step ◌>>◌
  relayer_if-state false project ct chain rs s t u h = cc
  relayer_if-state true project ct chain rs s t u h =
      let found = need Refused.no_relayer (get_relayer project ct chain rs) in
      let again = if m.recheck_fails then stop Refused.no_relayer else found in
      let healthy = λ (r : Relayer). is_healthy cache codec to_lower m ct chain r.address in
      let (r, s1, e1, h1) =
        >>=-eq-fine (if m.relayer_fails then stop Refused.relayer_query else found)
          (λ _. again >>= healthy) s h in
      let (r', s2, e2, h2) = >>=-eq-fine again healthy s1 h1 in
      is_healthy-state ct chain r'.address s2 t u h2
      ∙ queried-state m.recheck_fails _ _ _ s1 s2 r' e2
      ∙ queried-state m.relayer_fails _ _ _ s s1 r e1

  amount_step-eq-fine :
      (text : Bytes) (decimals : ℕ) (s t : Here cache codec to_lower m) (n : ℕ)
      → amount_step cache codec to_lower m text decimals s ≡ (fine n, t)
      → parse_amount text decimals ≡ ok n
  unfolding amount_step
  amount_step-eq-fine text decimals s t n h =
      amount_of-eq-fine (parse_amount text decimals) n (ap (λ x. x.0) h)

  pub checked_amount-IsCovered :
      (q : TransferRequest) (rs : List Relayer) (token : Bytes) (ct : ChainType) (wallet : Wallet)
      (s t : Here cache codec to_lower m) (amount : ℕ)
      → checked_amount cache codec to_lower m q rs token ct wallet s ≡ (fine amount, t)
      → IsCovered s q token ct wallet amount
  unfolding checked_amount amount_step
  checked_amount-IsCovered q rs token ct wallet s t amount h0 =
      let (e, s1, e1, h1) =
        >>=-eq-fine (lookup_entry cache codec to_lower m (m.calls 0) token ct q.chain_id) _ s h0 in
      let (n, s2, e2, h2) =
        >>=-eq-fine (amount_step cache codec to_lower m q.amount e.decimals) _ s1 h1 in
      let (u3, s3, e3, h3) =
        >>=-eq-fine
          (relayer_if cache codec to_lower m (q.gasless || not (is_evm ct)) q.project ct q.chain_id
            rs)
          _ s2 h2 in
      let (balance, s4, e4, h4) =
        >>=-eq-fine (balance_step cache codec to_lower m wallet token ct q.chain_id) _ s3 h3 in
      let (u5, s5, e5, h5) = >>=-eq-fine (demand Refused.zero_balance (ltb 0 balance)) _ s4 h4 in
      let (u6, s6, e6, h6) = >>=-eq-fine (demand Refused.short_balance (leb n balance)) _ s5 h5 in
      let above : ltb 0 balance ≡ true = (demand-eq-fine _ _ s4 e5).0 in
      let within : leb n balance ≡ true = (demand-eq-fine _ _ s5 e6).0 in
      let same : s3 ≡ s1 =
        relayer_if-state (q.gasless || not (is_evm ct)) q.project ct q.chain_id rs s2 s3 u3 e3
        ∙ sym (ap (λ x. x.1) e2) in
      subst (IsCovered s q token ct wallet) (fine-injective h6) (
        s1,
        e,
        balance,
        e1,
        amount_step-eq-fine q.amount e.decimals s1 s2 n e2,
        subst (λ z. IsReported z wallet token ct q.chain_id balance) same
            (balance_step-IsReported wallet token ct q.chain_id s3 s4 balance e4),
        positive balance above,
        at_most n balance within,
      )
