-- ===== src/Typed.antt =====
-- avp.go: the typed values of AVPs and `AddressType`.
pub mod Utf8
pub mod Address
pub mod Values
pub mod Convert
pub mod Laws
pub mod Refused
pub mod Texts
pub mod Kinds
pub mod Converted
mod Examples
