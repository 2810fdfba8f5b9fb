-- ===== src/Relayer.antt =====
-- internal/relayer/relayer.go: gasless transactions, paid for and signed by a project's relayer wallet.
pub mod Outside
pub mod Evm
pub mod Solana
pub mod Sending
pub mod Resync
pub mod Cosigning
pub mod Accounts
pub mod Samples
mod Tests
