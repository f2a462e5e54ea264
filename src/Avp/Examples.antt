-- ===== src/Avp/Examples.antt =====
-- Runs of the AVP codec, and the theorems at concrete inputs.
use diameterapi.Common.{
  ◌≤◌, ◌<◌, ◌≡◌, ◌≢◌, ◌↔◌, refl, true, false, [], ◌∷◌, ◌++◌, map, length, some, ok, panics, ◌>>=◌,
  arith,
}
use diameterapi.Wire.{Bytes, put_uint32, read_uint32, read_bytes, be32, join_24, high_8, low_24}
use diameterapi.Avp.Types.{Avp, absent}
use diameterapi.Avp.Codec.{
  padded_of, new_avp, make_protected, flags_of, encode, read_vendor, decode_body, decode, equal,
}
use diameterapi.Avp.RoundTrip.{IsWellFormed, new_avp-IsWellFormed, decode-encode}
use diameterapi.Avp.Decode.{Verdict, decode-Verdict, decode-IsWellFormed, decode_panics_iff}
use diameterapi.Avp.Headers.{length_field, header_field}
use diameterapi.Avp.Equality.{equal-make_protected}
use diameterapi.Avp.Lookup.{lookup, generate_map, matching, lookup-generate_map}

-- Origin-Host "a.b", and a vendor's AVP with two bytes.
abbrev pub origin_host : Avp
origin_host = record {
  code = 264;
  vendor_specific = false;
  mandatory = true;
  protected = false;
  vendor_id = 0;
  payload = b'a' ∷ b'.' ∷ b'b' ∷ [];
  length = 11;
  padded_length = 12;
  extended_attributes = absent;
}

abbrev pub vendor_avp : Avp
vendor_avp = record {
  code = 10;
  vendor_specific = true;
  mandatory = false;
  protected = false;
  vendor_id = 10415;
  payload = 1 ∷ 2 ∷ [];
  length = 14;
  padded_length = 16;
  extended_attributes = absent;
}

pub origin_host-IsWellFormed : IsWellFormed origin_host
unfolding new_avp padded_of
origin_host-IsWellFormed =
    new_avp-IsWellFormed 264 0 true (b'a' ∷ b'.' ∷ b'b' ∷ []) (omega arith) (omega arith)
      (omega arith)

pub vendor_avp-IsWellFormed : IsWellFormed vendor_avp
unfolding new_avp padded_of
vendor_avp-IsWellFormed =
    new_avp-IsWellFormed 10 10415 false (1 ∷ 2 ∷ []) (omega arith) (omega arith) (omega arith)

abbrev pub origin_host_bytes : Bytes
origin_host_bytes = 0 ∷ 0 ∷ 1 ∷ 8 ∷ 0x40 ∷ 0 ∷ 0 ∷ 11 ∷ b'a' ∷ b'.' ∷ b'b' ∷ 0 ∷ []

origin_host_encodes : encode origin_host ≡ ok origin_host_bytes
unfolding encode put_uint32 join_24 flags_of
origin_host_encodes = refl

origin_host_decodes : decode origin_host_bytes ≡ ok origin_host
unfolding decode decode_body read_vendor read_uint32 read_bytes be32 high_8 low_24 padded_of
origin_host_decodes = refl

new_avp-IsWellFormed_example : IsWellFormed (new_avp 10 10415 false (1 ∷ 2 ∷ []))
new_avp-IsWellFormed_example =
    new_avp-IsWellFormed 10 10415 false (1 ∷ 2 ∷ []) (omega arith) (omega arith) (omega arith)

decode-encode_example : (encode vendor_avp >>= λ bytes. decode (bytes ++ 7 ∷ [])) ≡ ok vendor_avp
decode-encode_example = decode-encode vendor_avp (7 ∷ []) vendor_avp-IsWellFormed

decode-Verdict_example : Verdict origin_host_bytes
decode-Verdict_example = decode-Verdict origin_host_bytes (omega arith)

decode-IsWellFormed_example : IsWellFormed origin_host × (11 ≤ 12) × (8 ≤ 11)
decode-IsWellFormed_example =
    decode-IsWellFormed origin_host_bytes origin_host (omega arith) origin_host_decodes

-- A Length field of 7, below the eight bytes of the header.
abbrev short_avp : Bytes
short_avp = 0 ∷ 0 ∷ 1 ∷ 8 ∷ 0x40 ∷ 0 ∷ 0 ∷ 7 ∷ []

decode_panics_iff_example : (decode short_avp ≡ panics) ↔ (
    (header_field short_avp ≤ length short_avp)
    × (8 ≤ length short_avp)
    × (length_field short_avp ≤ length short_avp)
    × (length_field short_avp < header_field short_avp))
decode_panics_iff_example = decode_panics_iff short_avp (omega arith)

short_avp_panics : decode short_avp ≡ panics
unfolding decode decode_body read_vendor read_uint32 read_bytes be32 high_8 low_24 padded_of
short_avp_panics = refl

equal-make_protected_example :
    (equal (some origin_host) (some (make_protected origin_host)) ≡ ok true)
    × (encode origin_host ≢ encode (make_protected origin_host))
equal-make_protected_example = equal-make_protected origin_host refl (omega arith)

lookup-generate_map_example :
    (generate_map (map some (origin_host ∷ vendor_avp ∷ [])) >>= λ m.
    ok (lookup (record { vendor_id = 10415; code = 10 }) m))
    ≡ ok (matching (record { vendor_id = 10415; code = 10 }) (origin_host ∷ vendor_avp ∷ []))
lookup-generate_map_example =
    lookup-generate_map (record { vendor_id = 10415; code = 10 }) (origin_host ∷ vendor_avp ∷ [])
