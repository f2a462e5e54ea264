-- ===== src/Wire/Defs.antt =====
-- `encoding/binary` and `bytes.Reader` of the Go standard library, as far as they are used.
use diameterapi.Common.{
  ℕ, zero, suc, ◌+◌, ◌*◌, ◌/◌, ◌%◌, ◌^◌, ◌<◌, List, [], ◌∷◌, ◌++◌, length, take, drop, All, leb,
  if◌then◌else◌, Outcome, ok, err, eof, unexpected_eof,
}

abbrev pub Bytes : Type 0
Bytes = List ℕ

abbrev pub IsByte : ℕ → Type 0
IsByte b = b < 256

abbrev pub IsBytes : Bytes → Type 0
IsBytes = All IsByte

abbrev pub IsU32 : ℕ → Type 0
IsU32 w = w < 2 ^ 32

-- `uint32(v)` of a number
abbrev pub u32 : ℕ → ℕ
u32 w = w % 2 ^ 32

-- `binary.BigEndian.PutUint16`, `PutUint32`, `PutUint64`
unfoldable pub put_uint16 : ℕ → Bytes
put_uint16 w = w / 2 ^ 8 % 256 ∷ w % 256 ∷ []

unfoldable pub put_uint32 : ℕ → Bytes
put_uint32 w = w / 2 ^ 24 % 256 ∷ w / 2 ^ 16 % 256 ∷ w / 2 ^ 8 % 256 ∷ w % 256 ∷ []

unfoldable pub put_uint64 : ℕ → Bytes
unfolding put_uint32
put_uint64 w = put_uint32 (w / 2 ^ 32) ++ put_uint32 w

-- The number that two, or four, bytes stand for, the most significant first.
unfoldable pub be16 : ℕ → ℕ → ℕ
be16 a b = a * 256 + b

unfoldable pub be32 : ℕ → ℕ → ℕ → ℕ → ℕ
be32 a b c d = ((a * 256 + b) * 256 + c) * 256 + d

-- `binary.Read(buf, binary.BigEndian, &w)` for a uint32: what is read, and what is left.
unfoldable pub read_uint32 : Bytes → Outcome (ℕ × Bytes)
read_uint32 [] = err eof
read_uint32 (a ∷ b ∷ c ∷ d ∷ rest) = ok (be32 a b c d, rest)
read_uint32 _ = err unexpected_eof

-- `binary.Read` into a slice of `n` bytes; for `n` 0 nothing is read and there is no error.
unfoldable pub read_bytes : ℕ → Bytes → Outcome (Bytes × Bytes)
read_bytes zero input = ok ([], input)
read_bytes (suc n) [] = err eof
read_bytes (suc n) (b ∷ bs) =
    if leb n (length bs) then ok (b ∷ take n bs, drop n bs) else err unexpected_eof

-- `(uint32(hi) << 24) | (lo & 0x00ffffff)` for a byte `hi`
unfoldable pub join_24 : ℕ → ℕ → ℕ
join_24 hi lo = hi * 2 ^ 24 + lo % 2 ^ 24

-- `byte((w & 0xFF000000) >> 24)` and `w & 0x00FFFFFF`
unfoldable pub high_8 : ℕ → ℕ
high_8 w = w / 2 ^ 24 % 256

unfoldable pub low_24 : ℕ → ℕ
low_24 w = w % 2 ^ 24
