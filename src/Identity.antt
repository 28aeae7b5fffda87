-- ===== src/Identity.antt =====
-- internal/identity/service.go: pairing of devices, access tokens and revocation.
pub mod Service
pub mod Pairing
pub mod Tokens
mod Tests
