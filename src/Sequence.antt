-- ===== src/Sequence.antt =====
-- sequence_generator.go: the generators of hop-by-hop and end-to-end identifiers.
pub mod Generators
pub mod Uniqueness
pub mod SessionIds
mod Examples
