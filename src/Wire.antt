-- ===== src/Wire.antt =====
-- What the code uses of Go's `encoding/binary` and `bytes.Reader`: big-endian words of 2, 4 and 8
-- bytes, written to a buffer and read from the front of what is left of an input. A byte slice is
-- a list of numbers, each below 256.
mod Defs
mod Laws
unfoldable pub use Defs.*
pub use Laws.*
