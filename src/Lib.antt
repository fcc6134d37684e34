-- ===== src/Lib.antt =====
-- A model of the wallet SDK's protocol core, with the theorems that make it correct: receiving
-- verifiable credentials (OpenID4VCI), showing and keeping them, and presenting them (OpenID4VP).
--
-- Parts, and the code that each one is about:
--   Base            tests, lists over the native numbers, texts, decoded JSON values
--   Errors          pkg/walleterror, InvalidProofError of pkg/openid4ci/models.go, errors.As
--   Run             a Go method as a function from a state to a value, an error or a panic, each
--                   with the state that is left behind; its rules: what a method ensures on every
--                   outcome (Rules), what it leaves as it was (Frame), what it ensures where it
--                   succeeds (Success)
--   Http            pkg/internal/httprequest: one exchange, over a network that is a parameter
--   IssuerMetadata  pkg/internal/issuermetadata and pkg/models/issuer
--   Wellknown       pkg/did/wellknown
--   Issuance        pkg/openid4ci. Model has the structs, Failures the error responses, Grants and
--                   Offer the credential offer, Interaction the authorization half of the shared
--                   `interaction` and Request, Parse and Trust its other methods, Acknowledgment
--                   the acknowledgments, Issuer and PreAuth the issuer-initiated flow with its two
--                   grant types, Wallet the wallet-initiated flow, Options and Queries the options
--                   of both flows and the methods that only ask
--   Presentation    pkg/openid4vp. Model has the structs, RequestObject the verifier's request,
--                   Tokens and Response the authorized response, Interaction what is sent, Failures
--                   the verifier's error responses, Acknowledgment the notice of a refusal, Claims
--                   the claims of a credential that a presentation discloses
--   Display         pkg/credentialschema. Model has the structs, Options the options and their
--                   validation, Process the credentials and the metadata that they stand for,
--                   Locale the choice of a label or an overview, Value the search for a claim's value
--                   and its mask, Claims the claims of one credential, Build the displays of
--                   credentials and of offers, Resolve the entry points
--   Storage         pkg/memstorage/memstorage.go
--   Signing         Keys: pkg/models/verificationmethod.go and pkg/common/jwt_signer.go; Credential:
--                   pkg/credentialsigner; Proof: pkg/ldproof
--   Clients         Attestation: pkg/attestation, with the two requests of an attestation;
--                   TrustRegistry: pkg/trustregistry; Registration: pkg/oauth2
--   Examples        concrete values at which each theorem is applied
--
-- A method of the code is a definition with its name in snake_case. A receiver that is mutated is
-- the state: `Session` is an `interaction` with the outside world, `IssuerSession` and
-- `WalletSession` are the two flows around it, `VpSession` is the presentation's `Interaction`,
-- `AckState` an `Acknowledgment`, and a `Provider` of Storage its credentials. The `World` keeps
-- the calls that were made, the metrics events, the activities, and how many times the clock or
-- the random source was read, but for the readings that measure durations. A nil dereference and
-- an index out of range are the outcome `crash`, so that a theorem can tell a panic from an error.
--
-- The libraries that the code calls (encoding/json, net/url, oauth2, vc-go, did-go, kms-go) are the
-- fields of records (`External`, `Network`, `Decoder`, `Resolver`, `KeyTools`): arguments of every
-- definition that uses them. An untyped JSON value is a `Value`, a map an association list. Numbers
-- are native naturals; the code does no arithmetic on machine words that could wrap, except on times
-- that are parameters. No definition runs on fuel: the loops are structural recursion on the slice,
-- and the one retry is written out, once with and once without a further retry.
--
-- Not modelled: the durations in metrics events and the clock readings that measure them, the
-- requests by which an `oauth2` client refreshes an expired token, the identifiers of activities,
-- the choice of most default loggers and clients; pkg/memstorage/legacy (a copy of the Aries
-- framework's store), pkg/localkms, pkg/did/creator and pkg/did/resolver, pkg/credentialquery and
-- pkg/credentialstatus, which hand their work to libraries; and the bindings under cmd.
pub mod Base
pub mod Errors
pub mod Run
pub mod Http
pub mod IssuerMetadata
pub mod Wellknown
pub mod Issuance
pub mod Presentation
pub mod Display
pub mod Storage
pub mod Signing
pub mod Clients
pub mod Examples
