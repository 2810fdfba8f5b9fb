-- ===== src/Stablecoin.antt =====
-- internal/stablecoin: the token registry, and transfers as signing jobs.
pub mod Tokens
pub mod Cache
pub mod Registry
pub mod Keys
pub mod Refinement
pub mod Plain
pub mod Upserts
pub mod Abi
pub mod Desk
pub mod Transfer
pub mod Payloads
pub mod Submission
pub mod Covered
pub mod Checks
pub mod SolanaJobs
pub mod Calldata
pub mod Samples
mod Tests
mod TransferTests
