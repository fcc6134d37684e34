-- ===== src/Presentation.antt =====
-- pkg/openid4vp: presenting credentials to a verifier.
pub mod Model
pub mod Claims
pub mod Failures
pub mod RequestObject
pub mod Tokens
pub mod Response
pub mod Interaction
pub mod Acknowledgment
