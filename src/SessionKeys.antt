-- ===== src/SessionKeys.antt =====
-- Session keys (internal/sessionkey): minting, authorization by the owner, expiry; and the handlers
-- on them (internal/server/handlers).
pub mod Rows
pub mod Input
pub mod Mint
pub mod Custody
pub mod Rotator
pub mod Requests
pub mod Handlers
pub mod Tests
