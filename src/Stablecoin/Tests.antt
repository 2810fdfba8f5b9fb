-- ===== src/Stablecoin/Tests.antt =====
-- A registry over keys in memory: a lookup, an upsert of another contract, and a lookup again.
use vaultkey.Prelude.{◌≡◌, refl, List, [], ◌∷◌, codes}
use vaultkey.Store.Wallets.{evm}
use vaultkey.Stablecoin.Cache.{in_memory}
use vaultkey.Stablecoin.Registry.{all_token_chars}
use vaultkey.Stablecoin.Refinement.{run, run-plain}
use vaultkey.Stablecoin.Plain.{Op, resolves, upserts, disables, run_plain}
use vaultkey.Stablecoin.Samples.{codec, usdc, all_up, empty}

abbrev ops : List Op
ops =
    resolves all_up (codes "usdc") evm (codes "137")
    ∷ upserts all_up 2 (record usdc { contract = codes "0xb1" })
    ∷ resolves all_up (codes "usdc") evm (codes "137")
    ∷ disables all_up 1
    ∷ resolves all_up (codes "usdc") evm (codes "137")
    ∷ []

run-plain_example :
    run in_memory codec (λ t. t) ops (usdc ∷ [], empty) ≡ run_plain (λ t. t) ops (usdc ∷ [])
unfolding all_token_chars
run-plain_example =
    run-plain in_memory codec (λ t. t) (λ t h. refl) ops (usdc ∷ []) empty
      ((refl, refl), (refl, ((refl, refl), (refl, ((refl, refl), tt))))) (λ t ct ch raw h g. cc)
