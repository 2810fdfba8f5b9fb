-- ===== src/Sweep/Provisioning.antt =====
-- internal/sweep/sweep.go: repeated calls of `ProvisionMasterWallet`.
use vaultkey.Prelude.{
  ℕ, ◌≡◌, refl, sym, ◌∙◌, subst, Bool, true, false, ◌&&◌, Bool-cases, Option, none, some, inl, inr,
  List, [], ◌∷◌, Bytes, bytes_eq_refl, ◌==◌, arith, if◌then◌else◌,
}
use vaultkey.Store.Wallets.{ChainType, same_chain, Wallet, get_wallet, set_wallet, mark_master}
use vaultkey.Stablecoin.Tokens.{is_chain, null_if_blank, same_option}
use vaultkey.Sweep.Configs.{
  SweepConfig, is_config, get_sweep_config, clashes, put_config, Vault, Statements, config_row,
  unmark_old, put_master, create_master_wallet,
}
use vaultkey.Sweep.{Try, passed, failed, validate_chain}
use vaultkey.Sweep.Masters.{
  Generated, master_row, or_config_error, fresh_master, with_master, by_config, provision_valid,
  provision_master_wallet,
}

==_refl : (n : ℕ) → (n == n) ≡ true
==_refl n = ground arith

same_chain_refl : (ct : ChainType) → same_chain ct ct ≡ true
same_chain_refl ChainType.evm = refl
same_chain_refl ChainType.solana = refl

is_chain-null_if_blank : (ch : Bytes) → is_chain ch (null_if_blank ch) ≡ true
unfolding is_chain null_if_blank
is_chain-null_if_blank [] = refl
is_chain-null_if_blank (c ∷ s) = bytes_eq_refl (c ∷ s)

same_option-is_chain :
    (o : Option Bytes) (ch : Bytes)
    → is_chain ch o ≡ false
    → same_option o (null_if_blank ch) ≡ false
unfolding is_chain null_if_blank same_option
same_option-is_chain none ch h = refl
same_option-is_chain (some a) [] h = refl
same_option-is_chain (some a) (c ∷ s) h = h

and_false :
    (a b x y : Bool) → ((a && b) && x) ≡ false → (x ≡ false → y ≡ false) → ((a && b) && y) ≡ false
and_false true true x y h k = k h
and_false true false x y h k = refl
and_false false b x y h k = refl

row_is_config :
    (q : Statements) (project wallet : ℕ) (ct : ChainType) (ch threshold : Bytes)
    → is_config project ct ch (config_row q project wallet ct ch threshold) ≡ true
unfolding is_config config_row
row_is_config q project wallet ct ch threshold =
    rw (==_refl project, same_chain_refl ct, is_chain-null_if_blank ch) refl

clashes-is_config :
    (q : Statements) (project wallet : ℕ) (ct : ChainType) (ch threshold : Bytes) (c : SweepConfig)
    → is_config project ct ch c ≡ false
    → clashes (config_row q project wallet ct ch threshold) c ≡ false
unfolding is_config clashes config_row
clashes-is_config q project wallet ct ch threshold c h =
    and_false (c.project == project) (same_chain c.chain_type ct) (is_chain ch c.chain) _ h
      (same_option-is_chain c.chain ch)

-- A configuration for a chain that has none is added and found.
put_config-fresh :
    (q : Statements) (project wallet : ℕ) (ct : ChainType) (ch threshold : Bytes)
    (cs : List SweepConfig)
    → get_sweep_config project ct ch cs ≡ none
    → let new = config_row q project wallet ct ch threshold in
      let (stored, cs') = put_config new cs in
      (stored ≡ new) × (get_sweep_config project ct ch cs' ≡ some new)
unfolding put_config get_sweep_config
put_config-fresh q project wallet ct ch threshold [] h =
    (refl, rw (row_is_config q project wallet ct ch threshold) refl)
put_config-fresh q project wallet ct ch threshold (c ∷ cs) h =
    elim (Bool-cases (is_config project ct ch c)) [
      | inl e ↦ absurd (clash (sym (found e) ∙ h))
      | inr e ↦
          let rest = put_config-fresh q project wallet ct ch threshold cs (missing e h) in
          rw (clashes-is_config q project wallet ct ch threshold c e, put_config)
            (rest.0, rw (e, get_sweep_config) rest.1)
    ]
  where
    found : is_config project ct ch c ≡ true → get_sweep_config project ct ch (c ∷ cs) ≡ some c
    found e = rw e refl

    clash : some c ≡ none → ⊥
    clash q = cc

    missing :
        is_config project ct ch c ≡ false
        → get_sweep_config project ct ch (c ∷ cs) ≡ none
        → get_sweep_config project ct ch cs ≡ none
    missing e n = skipped e ∙ n
      where
        skipped :
            is_config project ct ch c ≡ false
            → get_sweep_config project ct ch cs ≡ get_sweep_config project ct ch (c ∷ cs)
        skipped e' = rw e' refl

-- What a later call finds: the configuration, and its wallet under the project.
abbrev pub Finds : ℕ → ChainType → Bytes → SweepConfig → Wallet → Vault → Type 0
Finds project ct ch c w v =
    (get_sweep_config project ct ch v.configs ≡ some c)
    × ((w' : Wallet) × (get_wallet c.master_wallet project v.wallets ≡ some w')
        × (w'.id ≡ w.id)
        × (w'.address ≡ w.address)
        × (w'.key ≡ w.key))

abbrev FindsIf : ℕ → ChainType → Bytes → Try (SweepConfig × Wallet) × Vault → Type 0
FindsIf project ct ch (failed why, v) = Unit
FindsIf project ct ch (passed (c, w), v) = Finds project ct ch c w v

marked_wallet :
    (project : ℕ) (w : Wallet) (ws : List Wallet)
    → w.project ≡ project
    → get_wallet w.id project (set_wallet w.id (mark_master true) (w ∷ ws))
      ≡ some (mark_master true w)
unfolding set_wallet get_wallet mark_master
marked_wallet project w ws mine =
    let own : (w.project == project) ≡ true = ground arith in
    rw (==_refl w.id, get_wallet) (rw (==_refl w.id, own) refl)

put_master-Finds :
    (q : Statements) (project : ℕ) (ct : ChainType) (ch threshold : Bytes) (w : Wallet) (v : Vault)
    → w.project ≡ project
    → get_sweep_config project ct ch v.configs ≡ none
    → FindsIf project ct ch (
        or_config_error w (
          put_master q
            (config_row q project w.id ct ch threshold)
            (record v { wallets = w ∷ v.wallets })))
unfolding put_master or_config_error mark_master config_row
put_master-Finds q project ct ch threshold w v mine no_config = elim (Bool-cases q.mark_fails) [
  | inl e ↦ simp e tt
  | inr e ↦ elim (Bool-cases q.upsert_fails) [
    | inl u ↦ simp (e, u) tt
    | inr u ↦
        let (same, found) = put_config-fresh q project w.id ct ch threshold v.configs no_config in
        simp (e, u)
          (rw same
            (found, (mark_master true w, marked_wallet project w v.wallets mine, refl, refl, refl)))
  ]
]

fresh_master-Finds :
    (q : Statements) (project : ℕ) (ct : ChainType) (ch threshold : Bytes) (g : Option Generated)
    (v : Vault)
    → get_sweep_config project ct ch v.configs ≡ none
    → FindsIf project ct ch (fresh_master q project ct ch threshold g v)
unfolding fresh_master create_master_wallet unmark_old
fresh_master-Finds q project ct ch threshold none v no_config = tt
fresh_master-Finds q project ct ch threshold (some g) v no_config =
    elim (Bool-cases q.insert_fails) [
      | inl e ↦ simp e tt
      | inr e ↦
          simp (e, no_config)
            (put_master-Finds q project ct ch threshold (master_row q project ct g) v refl
              no_config)
    ]

by_config-Finds :
    (q : Statements) (project : ℕ) (ct : ChainType) (ch threshold : Bytes) (g : Option Generated)
    (o : Option SweepConfig) (v : Vault)
    → get_sweep_config project ct ch v.configs ≡ o
    → FindsIf project ct ch (by_config q project ct ch threshold g o v)
unfolding by_config with_master
by_config-Finds q project ct ch threshold g none v e =
    fresh_master-Finds q project ct ch threshold g v e
by_config-Finds q project ct ch threshold g (some c) v e =
    known (if q.wallet_fails then none else get_wallet c.master_wallet project v.wallets)
      (of_query q.wallet_fails)
  where
    of_query :
        (b : Bool) (w : Wallet)
        → (if b then none else get_wallet c.master_wallet project v.wallets) ≡ some w
        → get_wallet c.master_wallet project v.wallets ≡ some w
    of_query true w h = cc
    of_query false w h = h

    known :
        (o : Option Wallet)
        → ((w : Wallet) → o ≡ some w → get_wallet c.master_wallet project v.wallets ≡ some w)
        → FindsIf project ct ch (with_master c o, v)
    known none h = tt
    known (some w) h = (e, (w, h w refl, refl, refl, refl))

provision_valid-Finds :
    (q : Statements) (project : ℕ) (ct : ChainType) (ch threshold : Bytes) (g : Option Generated)
    (valid : Try (Unit {0})) (v : Vault)
    → FindsIf project ct ch (provision_valid q project ct ch threshold g valid v)
unfolding provision_valid
provision_valid-Finds q project ct ch threshold g (failed why) v = tt
provision_valid-Finds q project ct ch threshold g (passed u) v = elim (Bool-cases q.config_fails) [
  | inl e ↦ simp e tt
  | inr e ↦ simp e (by_config-Finds q project ct ch threshold g _ v refl)
]

provision_valid-passed :
    (q : Statements) (project : ℕ) (ct : ChainType) (ch threshold : Bytes) (g : Option Generated)
    (valid : Try (Unit {0})) (v v' : Vault) (x : SweepConfig × Wallet)
    → provision_valid q project ct ch threshold g valid v ≡ (passed x, v')
    → valid ≡ passed tt
unfolding provision_valid
provision_valid-passed q project ct ch threshold g (failed why) v v' x e = cc
provision_valid-passed q project ct ch threshold g (passed tt) v v' x e = refl

valid_again :
    (q : Statements) (project : ℕ) (ct : ChainType) (ch threshold : Bytes) (g : Option Generated)
    (v : Vault) (c : SweepConfig) (w : Wallet)
    → validate_chain ct ch ≡ passed tt
    → get_sweep_config project ct ch v.configs ≡ some c
    → get_wallet c.master_wallet project v.wallets ≡ some w
    → q.config_fails ≡ false
    → q.wallet_fails ≡ false
    → provision_valid q project ct ch threshold g (validate_chain ct ch) v ≡ (passed (c, w), v)
unfolding provision_valid by_config with_master
valid_again q project ct ch threshold g v c w valid found has up up' =
    rw (valid, provision_valid) (simp (up, found, up', has) refl)

-- What provisioning has returned once it returns again, from the state that the first call left,
-- whatever threshold and key pair come with the second call, where its two queries succeed: the same
-- configuration and the same wallet (id, address and key), and nothing is changed.
pub provision-again :
    (q q' : Statements) (project : ℕ) (ct : ChainType) (ch threshold threshold' : Bytes)
    (g g' : Option Generated) (v v' : Vault) (c : SweepConfig) (w : Wallet)
    → provision_master_wallet q project ct ch threshold g v ≡ (passed (c, w), v')
    → q'.config_fails ≡ false
    → q'.wallet_fails ≡ false
    → (w' : Wallet) × (provision_master_wallet q' project ct ch threshold' g' v'
        ≡ (passed (c, w'), v'))
      × (w'.id ≡ w.id)
      × (w'.address ≡ w.address)
      × (w'.key ≡ w.key)
unfolding provision_master_wallet
provision-again q q' project ct ch threshold threshold' g g' v v' c w e up up' =
    let finds = provision_valid-Finds q project ct ch threshold g (validate_chain ct ch) v in
    let (found, (w', has, s1, s2, s3)) = subst (FindsIf project ct ch) e finds in
    let valid =
      provision_valid-passed q project ct ch threshold g (validate_chain ct ch) v v' (c, w) e in
    (w', valid_again q' project ct ch threshold' g' v' c w' valid found has up up', s1, s2, s3)
