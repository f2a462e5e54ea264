-- ===== src/Avp/RoundTrip.antt =====
-- `DecodeAVP` against `Encode`, for the AVPs that the constructors and the decoder make.
use diameterapi.Common.{
  ℕ, ◌+◌, ◌-◌, ◌%◌, ◌^◌, ◌≤◌, ◌<◌, ◌≡◌, refl, ◌∙◌, bit_and, Bool, true, false, le→leb, ◌==◌,
  if◌then◌else◌, [], ◌++◌, length, replicate, length-append, length-replicate, append_assoc, ok,
  ◌>>=◌, arith,
}
use diameterapi.Wire.{
  Bytes, IsByte, IsU32, put_uint32, read_uint32-put, read_bytes-append, join_24, join_24-IsU32,
  high_8-join, low_24-join, length-put_uint32,
}
use diameterapi.Avp.Types.{Avp, absent}
use diameterapi.Avp.Codec.{padded_of, flags_of, encode, read_vendor, decode_body, decode, new_avp}

abbrev pub header_length : Bool → ℕ
header_length v = if v then 12 else 8

pub header_length_bounds : (v : Bool) → (8 ≤ header_length v) × (header_length v ≤ 12)
header_length_bounds v = ground arith

-- What `NewAVP`, `NewTypedAVPErrorable` and `DecodeAVP` establish of an AVP.
pub record IsWellFormed (a : Avp) : Type 0 where
  pub code_fits : IsU32 a.code
  pub vendor_fits : IsU32 a.vendor_id
  pub vendor_absent : a.vendor_specific ≡ false → a.vendor_id ≡ 0
  pub length_exact : a.length ≡ header_length a.vendor_specific + length a.payload
  pub length_fits : a.length < 2 ^ 24
  pub padded_exact : a.padded_length ≡ padded_of a.length

-- The padded length is the least multiple of 4 that is not below the length.
pub padded_of_lem : (n : ℕ) → (n ≤ padded_of n) × (padded_of n < n + 4) × (padded_of n % 4 ≡ 0)
unfolding padded_of
padded_of_lem n = ground arith

pub padded_of_mono : (n k : ℕ) → k % 4 ≡ 0 → n ≤ k → padded_of n ≤ k
unfolding padded_of
padded_of_mono n k h l = ground arith

pub new_avp-IsWellFormed :
    (code vendor_id : ℕ) (mandatory : Bool) (payload : Bytes)
    → IsU32 code
    → IsU32 vendor_id
    → length payload < 2 ^ 24 - 12
    → IsWellFormed (new_avp code vendor_id mandatory payload)
unfolding new_avp
new_avp-IsWellFormed code vendor_id mandatory payload hc hv hl = ground arith

pub flags_of-IsByte : (v m p : Bool) → IsByte (flags_of v m p)
unfolding flags_of
flags_of-IsByte v m p = ground arith

-- Each flag is read back from the byte of flags.
pub flags_of_bits :
    (v m p : Bool)
    → (bit_and (flags_of v m p) 0x80 == 0x80 ≡ v)
      × (bit_and (flags_of v m p) 0x40 == 0x40 ≡ m)
      × (bit_and (flags_of v m p) 0x20 == 0x20 ≡ p)
unfolding flags_of
flags_of_bits true true true = (refl, refl, refl)
flags_of_bits true true false = (refl, refl, refl)
flags_of_bits true false true = (refl, refl, refl)
flags_of_bits true false false = (refl, refl, refl)
flags_of_bits false true true = (refl, refl, refl)
flags_of_bits false true false = (refl, refl, refl)
flags_of_bits false false true = (refl, refl, refl)
flags_of_bits false false false = (refl, refl, refl)

-- The bytes of a well-formed AVP.
unfoldable pub wire : Avp → Bytes
wire a =
    put_uint32 a.code
    ++ (put_uint32 (join_24 (flags_of a.vendor_specific a.mandatory a.protected) a.length)
        ++ ((if a.vendor_specific then put_uint32 a.vendor_id else [])
            ++ (a.payload ++ replicate (a.padded_length - a.length) 0)))

pub encode-wire : (a : Avp) → a.length ≤ a.padded_length → encode a ≡ ok (wire a)
unfolding encode wire
encode-wire a h = ground arith

pub IsWellFormed-encode : (a : Avp) → IsWellFormed a → encode a ≡ ok (wire a)
IsWellFormed-encode a w = encode-wire a (omega (arith, w.padded_exact, padded_of_lem a.length))

-- The Vendor-ID field, present where the V flag is set.
abbrev vendor_bytes : Bool → ℕ → Bytes
vendor_bytes v vendor_id = if v then put_uint32 vendor_id else []

length-vendor_bytes : (v : Bool) (i : ℕ) → length (vendor_bytes v i) + 8 ≡ header_length v
unfolding put_uint32
length-vendor_bytes true i = refl
length-vendor_bytes false i = refl

pub length-wire : (a : Avp) → IsWellFormed a → length (wire a) ≡ a.padded_length
unfolding wire
length-wire a w =
    let pad : Bytes = replicate (a.padded_length - a.length) 0 in
    let vendor = vendor_bytes a.vendor_specific a.vendor_id in
    omega (
      arith,
      length-append (put_uint32 a.code) (
          put_uint32 (join_24 (flags_of a.vendor_specific a.mandatory a.protected) a.length)
          ++ (vendor ++ (a.payload ++ pad))),
      length-append
          (put_uint32 (join_24 (flags_of a.vendor_specific a.mandatory a.protected) a.length))
          (vendor ++ (a.payload ++ pad)),
      length-append vendor (a.payload ++ pad),
      length-append a.payload pad,
      length-replicate {A = ℕ} (a.padded_length - a.length) 0,
      length-put_uint32 a.code,
      length-put_uint32 (join_24 (flags_of a.vendor_specific a.mandatory a.protected) a.length),
      length-vendor_bytes a.vendor_specific a.vendor_id,
      w.length_exact,
      w.padded_exact,
      padded_of_lem a.length,
    )

read_vendor_bytes :
    (v : Bool) (i : ℕ) (rest : Bytes)
    → IsU32 i
    → (v ≡ false → i ≡ 0)
    → read_vendor v (vendor_bytes v i ++ rest) ≡ ok (i, header_length v, rest)
unfolding read_vendor
read_vendor_bytes true i rest h z = rw (read_uint32-put i rest h)
read_vendor_bytes false i rest h z = rw (z refl)

-- `DecodeAVP` behind the first two words, on the fields as they are written.
decode_body_fields :
    (input rest : Bytes) (a : Avp)
    → IsWellFormed a
    → a.length ≤ length input
    → decode_body input a.code
        (join_24 (flags_of a.vendor_specific a.mandatory a.protected) a.length)
        (vendor_bytes a.vendor_specific a.vendor_id ++ (a.payload ++ rest))
      ≡ ok (record a { extended_attributes = absent })
unfolding decode_body
decode_body_fields input rest a w h =
    let (bv, bm, bp) = flags_of_bits a.vendor_specific a.mandatory a.protected in
    let flags = flags_of a.vendor_specific a.mandatory a.protected in
    let byte = flags_of-IsByte a.vendor_specific a.mandatory a.protected in
    rw (high_8-join flags a.length byte, low_24-join flags a.length w.length_fits, bv, bm, bp)
      (rw (
        le→leb a.length (length input) h,
        read_vendor_bytes a.vendor_specific a.vendor_id (a.payload ++ rest) w.vendor_fits
            w.vendor_absent,
        le→leb (header_length a.vendor_specific) a.length (omega (arith, w.length_exact)),
        sub_header,
        read_bytes-append a.payload rest,
        ← w.padded_exact,
      ))
  where
    sub_header : a.length - header_length a.vendor_specific ≡ length a.payload
    sub_header = omega (arith, w.length_exact)

decode_words :
    (code word : ℕ) (rest : Bytes)
    → IsU32 code
    → IsU32 word
    → decode (put_uint32 code ++ (put_uint32 word ++ rest))
      ≡ decode_body (put_uint32 code ++ (put_uint32 word ++ rest)) code word rest
unfolding decode
decode_words code word rest hc hw =
    rw (read_uint32-put code (put_uint32 word ++ rest) hc, read_uint32-put word rest hw)

-- Decoding the bytes of a well-formed AVP gives the AVP back, but for its extended attributes,
-- whatever follows.
pub decode-wire :
    (a : Avp) (rest : Bytes)
    → IsWellFormed a
    → decode (wire a ++ rest) ≡ ok (record a { extended_attributes = absent })
decode-wire a rest w =
    let flags = flags_of a.vendor_specific a.mandatory a.protected in
    let word = join_24 flags a.length in
    let pad : Bytes = replicate (a.padded_length - a.length) 0 in
    let vendor = vendor_bytes a.vendor_specific a.vendor_id in
    let split : wire a ++ rest
        ≡ put_uint32 a.code ++ (put_uint32 word ++ (vendor ++ (a.payload ++ (pad ++ rest)))) =
      unfold wire in simp append_assoc in
    let long : a.length ≤ length (wire a ++ rest) = omega (
      arith,
      length-append (wire a) rest,
      length-wire a w,
      w.padded_exact,
      padded_of_lem a.length,
    ) in
    rw split (
      decode_words a.code word (vendor ++ (a.payload ++ (pad ++ rest))) w.code_fits
        (join_24-IsU32 flags a.length (flags_of-IsByte a.vendor_specific a.mandatory a.protected))
      ∙ decode_body_fields _ (pad ++ rest) a w (rw split at long))

-- `DecodeAVP` gives back what `Encode` wrote for a well-formed AVP, whatever bytes follow, with the
-- extended attributes left out.
pub decode-encode :
    (a : Avp) (rest : Bytes)
    → IsWellFormed a
    → (encode a >>= λ bytes. decode (bytes ++ rest))
      ≡ ok (record a { extended_attributes = absent })
decode-encode a rest w = rw (IsWellFormed-encode a w) (decode-wire a rest w)
