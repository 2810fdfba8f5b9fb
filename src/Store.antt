-- ===== src/Store.antt =====
-- The wallet tables of internal/storage: store.go (wallets, relayer wallets) and sweep.go.
pub mod Wallets
