-- ===== src/Cloud.antt =====
-- internal/storage/cloud_store.go and internal/api/handlers/cloud_handlers.go: organizations, members,
-- invites and API keys.
pub mod Members
pub mod Orgs
pub mod Invites
pub mod Requests
pub mod Handlers
pub mod Sessions
pub mod Owners
pub mod Roles
pub mod Harmless
pub mod Statements
pub mod Ownership
pub mod SingleUse
pub mod Keys
pub mod KeyRoutes
pub mod KeyEffects
pub mod KeyCache
pub mod SdkKeys
pub mod Revocation
mod Samples
mod Tests
mod KeyTests
