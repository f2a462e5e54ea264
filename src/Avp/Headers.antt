-- ===== src/Avp/Headers.antt =====
-- `DecodeAVP` on any input: its header, and the field of the vendor.
use diameterapi.Common.{
  ℕ, ◌+◌, ◌*◌, ◌≤◌, ◌<◌, ◌≡◌, refl, bit_and, Bool, true, false, leb, ◌==◌, if◌then◌else◌, [], ◌∷◌,
  length, ok, err, arith, stream_read_failure,
}
use diameterapi.Common.Bits.{bit_and-80}
use diameterapi.Wire.{Bytes, IsByte, IsBytes, IsU32, be32, be32_bound, read_uint32, high_8, low_24}
use diameterapi.Avp.Codec.{read_vendor, decode_body, decode}
use diameterapi.Avp.RoundTrip.{header_length}

-- With fewer than eight bytes there is no header to read.
pub decode_short : (input : Bytes) → length input < 8 → decode input ≡ err stream_read_failure
unfolding decode read_uint32
decode_short [] h = refl
decode_short (_ ∷ []) h = refl
decode_short (_ ∷ _ ∷ []) h = refl
decode_short (_ ∷ _ ∷ _ ∷ []) h = refl
decode_short (_ ∷ _ ∷ _ ∷ _ ∷ []) h = refl
decode_short (_ ∷ _ ∷ _ ∷ _ ∷ _ ∷ []) h = refl
decode_short (_ ∷ _ ∷ _ ∷ _ ∷ _ ∷ _ ∷ []) h = refl
decode_short (_ ∷ _ ∷ _ ∷ _ ∷ _ ∷ _ ∷ _ ∷ []) h = refl
decode_short (_ ∷ _ ∷ _ ∷ _ ∷ _ ∷ _ ∷ _ ∷ _ ∷ _) h = absurd (omega arith)

-- The V flag of the second word.
abbrev pub vendor_flag : ℕ → Bool
vendor_flag word = bit_and (high_8 word) 0x80 == 0x80

-- The Length field is bytes 5 to 7 of the input, the most significant first.
abbrev pub length_field : Bytes → ℕ
length_field (_ ∷ _ ∷ _ ∷ _ ∷ _ ∷ p ∷ q ∷ r ∷ _) = p * 65536 + q * 256 + r
length_field _ = 0

-- The length of the header: twelve bytes where the top bit of byte 4 is set, else eight.
abbrev pub header_field : Bytes → ℕ
header_field (_ ∷ _ ∷ _ ∷ _ ∷ flags ∷ _) = if leb 128 flags then 12 else 8
header_field _ = 8

low_24-be32 :
    (a b c d : ℕ) → IsByte b → IsByte c → IsByte d → low_24 (be32 a b c d) ≡ b * 65536 + c * 256 + d
unfolding low_24 be32
low_24-be32 a b c d hb hc hd = omega arith

high_8-be32 : (a b c d : ℕ) → IsByte a → IsByte b → IsByte c → IsByte d → high_8 (be32 a b c d) ≡ a
unfolding high_8 be32
high_8-be32 a b c d ha hb hc hd = omega arith

vendor_bit : (f : ℕ) → IsByte f → bit_and f 0x80 == 0x80 ≡ leb 128 f
vendor_bit f h = rw (bit_and-80 f h) (ground arith)

-- An input of eight bytes or more, taken apart.
pub record Header (input : Bytes) : Type 0 where
  pub code : ℕ
  pub word : ℕ
  pub rest : Bytes
  pub code_fits : IsU32 code
  pub rest_bytes : IsBytes rest
  pub length_is : low_24 word ≡ length_field input
  pub header_is : header_length (vendor_flag word) ≡ header_field input
  pub length_rest : length input ≡ length rest + 8
  pub reads : decode input ≡ decode_body input code word rest

pub header : (input : Bytes) → IsBytes input → 8 ≤ length input → Header input
unfolding decode read_uint32
header [] k h = absurd (omega arith)
header (_ ∷ []) k h = absurd (omega arith)
header (_ ∷ _ ∷ []) k h = absurd (omega arith)
header (_ ∷ _ ∷ _ ∷ []) k h = absurd (omega arith)
header (_ ∷ _ ∷ _ ∷ _ ∷ []) k h = absurd (omega arith)
header (_ ∷ _ ∷ _ ∷ _ ∷ _ ∷ []) k h = absurd (omega arith)
header (_ ∷ _ ∷ _ ∷ _ ∷ _ ∷ _ ∷ []) k h = absurd (omega arith)
header (_ ∷ _ ∷ _ ∷ _ ∷ _ ∷ _ ∷ _ ∷ []) k h = absurd (omega arith)
header (a ∷ b ∷ c ∷ d ∷ p ∷ q ∷ r ∷ s ∷ rest) (ha, (hb, (hc, (hd, (hp, (hq, (hr, (hs, hrest))))))))
      h =
    record {
      code = be32 a b c d;
      word = be32 p q r s;
      rest = rest;
      code_fits = be32_bound a b c d ha hb hc hd;
      rest_bytes = hrest;
      length_is = low_24-be32 p q r s hq hr hs;
      header_is = rw (high_8-be32 p q r s hp hq hr hs, vendor_bit p hp);
      length_rest = omega arith;
      reads = refl;
    }

-- A successful read of the Vendor-ID field.
pub read_vendor_sound :
    (v : Bool) (rest : Bytes) (i h : ℕ) (rest' : Bytes)
    → read_vendor v rest ≡ ok (i, h, rest')
    → (h ≡ header_length v)
      × (IsBytes rest → IsU32 i)
      × (v ≡ false → i ≡ 0)
      × (length rest' + h ≡ length rest + 8)
unfolding read_vendor read_uint32
read_vendor_sound false rest i h rest' e = ground arith
read_vendor_sound true [] i h rest' e = cc
read_vendor_sound true (_ ∷ []) i h rest' e = cc
read_vendor_sound true (_ ∷ _ ∷ []) i h rest' e = cc
read_vendor_sound true (_ ∷ _ ∷ _ ∷ []) i h rest' e = cc
read_vendor_sound true (a ∷ b ∷ c ∷ d ∷ r) i h rest' e = (
  ground arith,
  λ k. ground (arith, be32_bound a b c d k.0 k.1.0 k.1.1.0 k.1.1.1.0),
  λ z. cc,
  ground arith,
)

-- The Vendor-ID field is missing only in an input with the V flag and too few bytes.
pub read_vendor_enough :
    (v : Bool) (rest : Bytes)
    → header_length v ≤ length rest + 8
    → (i : ℕ) × (rest' : Bytes) × (read_vendor v rest ≡ ok (i, header_length v, rest'))
unfolding read_vendor read_uint32
read_vendor_enough false rest h = (0, rest, refl)
read_vendor_enough true [] h = absurd (omega arith)
read_vendor_enough true (_ ∷ []) h = absurd (omega arith)
read_vendor_enough true (_ ∷ _ ∷ []) h = absurd (omega arith)
read_vendor_enough true (_ ∷ _ ∷ _ ∷ []) h = absurd (omega arith)
read_vendor_enough true (a ∷ b ∷ c ∷ d ∷ r) h = (be32 a b c d, r, refl)

pub read_vendor_missing :
    (v : Bool) (rest : Bytes)
    → length rest + 8 < header_length v
    → read_vendor v rest ≡ err stream_read_failure
unfolding read_vendor read_uint32
read_vendor_missing false rest h = absurd (omega arith)
read_vendor_missing true [] h = refl
read_vendor_missing true (_ ∷ []) h = refl
read_vendor_missing true (_ ∷ _ ∷ []) h = refl
read_vendor_missing true (_ ∷ _ ∷ _ ∷ []) h = refl
read_vendor_missing true (a ∷ b ∷ c ∷ d ∷ r) h = absurd (omega arith)
