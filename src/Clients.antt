-- ===== src/Clients.antt =====
-- Clients of other services, each with one or two HTTP exchanges: pkg/attestation, pkg/trustregistry
-- and pkg/oauth2.
pub mod Attestation
pub mod TrustRegistry
pub mod Registration
