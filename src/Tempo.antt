-- ===== src/Tempo.antt =====
-- The Tempo rail (internal/adapters/tempo): amounts in the base units of a token.
pub mod Units
mod Tests
