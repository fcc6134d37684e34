-- ===== src/Issuance.antt =====
-- pkg/openid4ci: receiving credentials from an issuer.
pub mod Model
pub mod Failures
pub mod Grants
pub mod Offer
pub mod Acknowledgment
pub mod Interaction
pub mod Request
pub mod Parse
pub mod Trust
pub mod Issuer
pub mod PreAuth
pub mod Wallet
pub mod Options
pub mod Queries
