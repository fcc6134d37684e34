-- ===== src/Display.antt =====
-- pkg/credentialschema: the display data of credentials, from the issuer's metadata.
pub mod Model
pub mod Locale
pub mod Value
pub mod Claims
pub mod Build
pub mod Options
pub mod Process
pub mod Resolve
