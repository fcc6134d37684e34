-- ===== src/Signing.antt =====
-- Keys, signed credentials and linked data proofs: pkg/models, pkg/common, pkg/credentialsigner and
-- pkg/ldproof.
pub mod Keys
pub mod Credential
pub mod Proof
