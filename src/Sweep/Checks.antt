-- ===== src/Sweep/Checks.antt =====
-- What a sweep that reaches the queue has passed, and where its payload sends the funds.
use vaultkey.Prelude.{
  ℕ, ◌≤◌, ◌≡◌, ◌⊎◌, refl, subst, Bool, true, false, not, Bool-cases, Option, none, some, inl, inr,
  List, [], ◌∷◌, ◌++◌, Bytes, codes, bytes_eq, bytes_eq_iff, leb, arith, if◌then◌else◌, ◌≢◌,
}
use vaultkey.Store.Wallets.{ChainType, evm, solana, Wallet, get_wallet, Relayer, get_relayer}
use vaultkey.Queue.Redis.{ListStore, Codec}
use vaultkey.Worker.Tables.{Signer}
use vaultkey.Worker.Jobs.{NewJob}
use vaultkey.Submit.{Visit, create_and_enqueue}
use vaultkey.Sweep.Configs.{SweepConfig, get_sweep_config}
use vaultkey.Sweep.{Reason, Try, passed, failed, chain_type_of, validate_chain}
use vaultkey.Sweep.Trigger.{
  ◌>>=◌, sweep_json, need, demand, fetched, SweepRequest, Outside, base_units, no_threshold,
  above_dust, fetch_balance, assert_healthy, checked, sweep_job, SweepAnswer, declined, submitted,
  Here, submit_sweep, trigger_sweep,
}

>>=-eq-passed :
    {A B : Type 0} (m : Try A) (f : A → Try B) {b : B}
    → (m >>= f) ≡ passed b
    → (a : A) × (m ≡ passed a) × (f a ≡ passed b)
unfolding ◌>>=◌
>>=-eq-passed (passed a) f e = (a, refl, e)
>>=-eq-passed (failed why) f e = cc

need-eq-passed :
    {A : Type 0} (why : Reason) (o : Option A) {a : A} → need why o ≡ passed a → o ≡ some a
unfolding need
need-eq-passed why none e = cc
need-eq-passed why (some b) e = cc

fetched-eq-passed :
    {A : Type 0} (query missing : Reason) (b : Bool) (o : Option A) {a : A}
    → fetched query missing b o ≡ passed a
    → o ≡ some a
unfolding fetched
fetched-eq-passed query missing true o e = cc
fetched-eq-passed query missing false o e = need-eq-passed missing o e

demand-eq-passed : (why : Reason) (b : Bool) {u : Unit {0}} → demand why b ≡ passed u → b ≡ true
unfolding demand
demand-eq-passed why true e = refl
demand-eq-passed why false e = cc

false_of_not : (b : Bool) → not b ≡ true → b ≡ false
false_of_not true h = cc
false_of_not false h = refl

passed-injective : {A : Type 0} {a b : A} → passed a ≡ passed b → a ≡ b
passed-injective e = cc

-- Ethereum mainnet is blocked.
abbrev pub IsAllowed : ChainType → Bytes → Type 0
IsAllowed evm ch = (ch ≢ []) × (ch ≢ codes "1")
IsAllowed solana ch = Unit

blocked :
    (c : ℕ) (s : Bytes)
    → bytes_eq (c ∷ s) (codes "1") ≡ true
    → validate_chain evm (c ∷ s) ≡ failed Reason.blocked_chain
unfolding validate_chain
blocked c s q = rw q refl

apart : {A : Type 0} {t : Try A} {why : Reason} {a : A} → t ≡ failed why → t ≢ passed a
apart p q = cc

validate_chain-IsAllowed :
    (ct : ChainType) (ch : Bytes) (u : Unit {0}) → validate_chain ct ch ≡ passed u → IsAllowed ct ch
unfolding validate_chain
validate_chain-IsAllowed solana ch u e = tt
validate_chain-IsAllowed evm [] u e = cc
validate_chain-IsAllowed evm (c ∷ s) u e = elim (Bool-cases (bytes_eq (c ∷ s) (codes "1"))) [
  | inl q ↦ absurd (apart (blocked c s q) e)
  | inr q ↦ (λ p. cc, λ p. cc ((bytes_eq_iff (c ∷ s) (codes "1")).1 p))
]

module _ (x : Outside) where
  abbrev IsWorth : ChainType → Bytes → Bytes → Type 0
  IsWorth ct threshold balance =
      (no_threshold threshold ≡ true) ⊎ (base_units x ct threshold ≤ base_units x ct balance)

  above_dust-IsWorth :
      (ct : ChainType) (threshold balance : Bytes)
      → above_dust x ct threshold balance ≡ true
      → IsWorth ct threshold balance
  unfolding above_dust
  above_dust-IsWorth ct threshold balance h = elim (Bool-cases (no_threshold threshold)) [
    | inl e ↦ inl e
    | inr e ↦ inr (at_least (base_units x ct threshold) (base_units x ct balance) (opened e))
  ]
    where
      at_least : (a b : ℕ) → leb a b ≡ true → a ≤ b
      at_least a b k = ground arith

      opened :
          no_threshold threshold ≡ false
          → leb (base_units x ct threshold) (base_units x ct balance) ≡ true
      opened e =
          subst
            (λ b.
              (if b then true else leb (base_units x ct threshold) (base_units x ct balance))
              ≡ true)
            e h

  abbrev pub IsSweepable :
      SweepRequest
      → List Wallet
      → List SweepConfig
      → List Relayer
      → ChainType × Wallet × Bytes
      → Type 0
  IsSweepable q ws cs rs (ct, master, balance) =
      (wallet : Wallet) × (c : SweepConfig) × (r : Relayer) × (chain_type_of q.chain_type
        ≡ passed ct)
      × IsAllowed ct q.chain_id
      × (get_wallet q.wallet q.project ws ≡ some wallet)
      × (wallet.is_master ≡ false)
      × (get_sweep_config q.project ct q.chain_id cs ≡ some c)
      × (c.enabled ≡ true)
      × (get_relayer q.project ct q.chain_id rs ≡ some r)
      × (assert_healthy x ct q.chain_id r ≡ passed tt)
      × (get_wallet c.master_wallet q.project ws ≡ some master)
      × (fetch_balance x ct q.chain_id wallet.address ≡ some balance)
      × IsWorth ct c.threshold balance

  checked-IsSweepable :
      (q : SweepRequest) (ws : List Wallet) (cs : List SweepConfig) (rs : List Relayer)
      (a : ChainType × Wallet × Bytes)
      → checked x q ws cs rs ≡ passed a
      → IsSweepable q ws cs rs a
  unfolding checked
  checked-IsSweepable q ws cs rs a h0 =
      let (ct, e1, h1) = >>=-eq-passed _ _ h0 in
      let (u2, e2, h2) = >>=-eq-passed _ _ h1 in
      let (wallet, e3, h3) = >>=-eq-passed _ _ h2 in
      let (u4, e4, h4) = >>=-eq-passed _ _ h3 in
      let (c, e5, h5) = >>=-eq-passed _ _ h4 in
      let (u6, e6, h6) = >>=-eq-passed _ _ h5 in
      let (r, e7, h7) = >>=-eq-passed _ _ h6 in
      let (u8, e8, h8) = >>=-eq-passed _ _ h7 in
      let (master, e9, h9) = >>=-eq-passed _ _ h8 in
      let (balance, e10, h10) = >>=-eq-passed _ _ h9 in
      let (u11, e11, h11) = >>=-eq-passed _ _ h10 in
      subst (IsSweepable q ws cs rs) (passed-injective h11) (
        wallet,
        c,
        r,
        e1,
        validate_chain-IsAllowed ct q.chain_id u2 e2,
        fetched-eq-passed _ _ _ _ e3,
        false_of_not wallet.is_master (demand-eq-passed _ _ e4),
        fetched-eq-passed _ _ _ _ e5,
        demand-eq-passed _ _ e6,
        fetched-eq-passed _ _ _ _ e7,
        e8,
        fetched-eq-passed _ _ _ _ e9,
        need-eq-passed _ _ e10,
        above_dust-IsWorth ct c.threshold balance (demand-eq-passed _ _ e11),
      )

abbrev joined : List Bytes → Bytes
joined [] = []
joined (s ∷ []) = s
joined (s ∷ t ∷ ss) = s ++ joined (t ∷ ss)

-- The job of a sweep: gasless, for the request's wallet, with the request's key.
abbrev pub IsSweepJob : (Bytes → Bytes) → SweepRequest → ChainType → Bytes → Bytes → NewJob → Type 0
IsSweepJob quoted q evm to balance n =
    (n.project ≡ q.project)
    × (n.wallet ≡ q.wallet)
    × (n.operation ≡ codes "sweep_evm")
    × (n.key ≡ q.key)
    × (n.gasless ≡ true)
    × (n.payload
        ≡ joined (
            codes "{\"to\":"
            ∷ quoted to
            ∷ codes ",\"value\":"
            ∷ quoted balance
            ∷ codes ",\"data\":\"0x\",\"chain_id\":"
            ∷ quoted q.chain_id
            ∷ codes ",\"sweep\":true}"
            ∷ []))
IsSweepJob quoted q solana to balance n =
    (n.project ≡ q.project)
    × (n.wallet ≡ q.wallet)
    × (n.operation ≡ codes "sweep_solana")
    × (n.key ≡ q.key)
    × (n.gasless ≡ true)
    × (n.payload
        ≡ joined (
            codes "{\"to\":"
            ∷ quoted to
            ∷ codes ",\"amount\":"
            ∷ balance
            ∷ codes ",\"sweep\":true}"
            ∷ []))

sweep_job-IsSweepJob :
    (quoted : Bytes → Bytes) (q : SweepRequest) (ct : ChainType) (master : Wallet) (balance : Bytes)
    → IsSweepJob quoted q ct master.address balance (sweep_job quoted q ct master balance)
unfolding sweep_job sweep_json
sweep_job-IsSweepJob quoted q evm master balance = (refl, refl, refl, refl, refl, refl)
sweep_job-IsSweepJob quoted q solana master balance = (refl, refl, refl, refl, refl, refl)

module _ (redis : ListStore) (codec : Codec) (signer : Signer) (x : Outside) where
  abbrev pub Ending :
      Visit
      → SweepRequest
      → List SweepConfig
      → List Relayer
      → Here redis codec signer x
      → SweepAnswer × Here redis codec signer x
      → Type 0
  Ending v q cs rs w (declined why, w') = w' ≡ w
  Ending v q cs rs w (submitted r, w') =
      (ct : ChainType) × (master : Wallet) × (balance : Bytes) × (n : NewJob) × IsSweepable x q
        (signer.wallets w.env) cs rs (ct, master, balance)
      × IsSweepJob x.quoted q ct master.address balance n
      × (create_and_enqueue redis codec signer v n w ≡ (r, w'))

  submit_sweep-Ending :
      (v : Visit) (q : SweepRequest) (cs : List SweepConfig) (rs : List Relayer)
      (t : Try (ChainType × Wallet × Bytes)) (w : Here redis codec signer x)
      → ((a : ChainType × Wallet × Bytes)
          → t ≡ passed a
          → IsSweepable x q (signer.wallets w.env) cs rs a)
      → Ending v q cs rs w (submit_sweep redis codec signer x v q t w)
  unfolding submit_sweep
  submit_sweep-Ending v q cs rs (failed why) w h = refl
  submit_sweep-Ending v q cs rs (passed (ct, master, balance)) w h = (
    ct,
    master,
    balance,
    sweep_job x.quoted q ct master balance,
    h (ct, master, balance) refl,
    sweep_job-IsSweepJob x.quoted q ct master balance,
    refl,
  )

  -- A sweep that gets as far as creating its job is on a chain that is not blocked, from a wallet of
  -- the project that is no master wallet, under an enabled configuration, with a relayer that can
  -- pay, of a balance that is not below the dust threshold. Its job is gasless, of the request's
  -- wallet and key, and its JSON text names the address of the configuration's master wallet as
  -- recipient and the whole balance that the node reports as value (EVM) or amount (Solana). A sweep
  -- that is declined changes nothing.
  pub trigger_sweep-Ending :
      (v : Visit) (q : SweepRequest) (cs : List SweepConfig) (rs : List Relayer)
      (w : Here redis codec signer x)
      → Ending v q cs rs w (trigger_sweep redis codec signer x v q cs rs w)
  unfolding trigger_sweep
  trigger_sweep-Ending v q cs rs w =
      submit_sweep-Ending v q cs rs _ w
        λ a e. checked-IsSweepable x q (signer.wallets w.env) cs rs a e
