-- ===== src/Wire/Laws.antt =====
-- Reading gives back what was written.
use diameterapi.Common.{
  ℕ, zero, suc, ◌/◌, ◌%◌, ◌^◌, ◌≤◌, ◌<◌, ◌≡◌, refl, [], ◌∷◌, ◌++◌, length, take, drop, take-length,
  drop-length, length-append, arith, ok,
}
use diameterapi.Wire.Defs.{
  Bytes, IsByte, IsBytes, IsU32, put_uint32, be16, be32, read_uint32, read_bytes, join_24, high_8,
  low_24,
}

pub be16-put : (w : ℕ) → w < 2 ^ 16 → be16 (w / 2 ^ 8 % 256) (w % 256) ≡ w
unfolding be16
be16-put w h = omega arith

pub be32-put :
    (w : ℕ) → IsU32 w → be32 (w / 2 ^ 24 % 256) (w / 2 ^ 16 % 256) (w / 2 ^ 8 % 256) (w % 256) ≡ w
unfolding be32
be32-put w h = omega arith

pub be32_bound : (a b c d : ℕ) → IsByte a → IsByte b → IsByte c → IsByte d → IsU32 (be32 a b c d)
unfolding be32
be32_bound a b c d ha hb hc hd = omega arith

pub put_uint32-IsBytes : (w : ℕ) → IsBytes (put_uint32 w)
unfolding put_uint32
put_uint32-IsBytes w = omega arith

pub length-put_uint32 : (w : ℕ) → length (put_uint32 w) ≡ 4
unfolding put_uint32
length-put_uint32 w = refl

pub read_uint32-put :
    (w : ℕ) (rest : Bytes) → IsU32 w → read_uint32 (put_uint32 w ++ rest) ≡ ok (w, rest)
unfolding read_uint32 put_uint32
read_uint32-put w rest h = rw (be32-put w h)

pub read_bytes-append : (xs rest : Bytes) → read_bytes (length xs) (xs ++ rest) ≡ ok (xs, rest)
unfolding read_bytes
read_bytes-append [] rest = refl
read_bytes-append (x ∷ xs) rest =
    ground (arith, length-append xs rest, take-length xs rest, drop-length xs rest)

-- With enough bytes the read succeeds.
pub read_bytes_enough :
    (n : ℕ) (input : Bytes)
    → n ≤ length input
    → read_bytes n input ≡ ok (take n input, drop n input)
unfolding read_bytes
read_bytes_enough zero input h = refl
read_bytes_enough (suc n) [] h = elim h [ ]
read_bytes_enough (suc n) (b ∷ bs) h = ground arith

pub high_8-join : (hi lo : ℕ) → IsByte hi → high_8 (join_24 hi lo) ≡ hi
unfolding high_8 join_24
high_8-join hi lo h = omega arith

pub low_24-join : (hi lo : ℕ) → lo < 2 ^ 24 → low_24 (join_24 hi lo) ≡ lo
unfolding low_24 join_24
low_24-join hi lo h = omega arith

pub join_24-IsU32 : (hi lo : ℕ) → IsByte hi → IsU32 (join_24 hi lo)
unfolding join_24
join_24-IsU32 hi lo h = omega arith

pub high_8-IsByte : (w : ℕ) → IsByte (high_8 w)
unfolding high_8
high_8-IsByte w = omega arith

pub low_24_bound : (w : ℕ) → low_24 w < 2 ^ 24
unfolding low_24
low_24_bound w = omega arith
