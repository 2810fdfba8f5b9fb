-- ===== src/Relayer/Tests.antt =====
-- Gasless calls with the sample nodes.
use vaultkey.Nonce.Redis.{in_memory}
use vaultkey.Relayer.Evm.{relay_evm}
use vaultkey.Relayer.Solana.{relay_solana}
use vaultkey.Relayer.Sending.{Outcome, relay_evm-Outcome}
use vaultkey.Relayer.Cosigning.{Ending, relay_solana-Ending}
use vaultkey.Relayer.Samples.{user_wallet, weather, signing, ready, transfer, payment}

relay_evm-Outcome_example :
    Outcome in_memory signing weather 2 transfer ready
      (relay_evm in_memory signing weather 2 user_wallet transfer ready)
relay_evm-Outcome_example = relay_evm-Outcome in_memory signing weather 2 user_wallet transfer ready

relay_solana-Ending_example :
    Ending signing weather 2 user_wallet payment ready
      (relay_solana signing weather 2 user_wallet payment ready)
relay_solana-Ending_example = relay_solana-Ending signing weather 2 user_wallet payment ready
