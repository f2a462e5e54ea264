-- ===== src/Avp.antt =====
-- avp.go: the AVP, its wire form, and the typed values that it is made from and read as.
pub mod Types
pub mod Codec
pub mod Lookup
pub mod RoundTrip
pub mod Headers
pub mod Decode
pub mod Equality
pub mod Examples
