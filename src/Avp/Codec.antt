-- ===== src/Avp/Codec.antt =====
-- avp.go: construction, `Encode`, `DecodeAVP`, `Equal`, `Clone`.
use diameterapi.Common.{
  ℕ, ◌+◌, ◌-◌, ◌%◌, bit_and, bit_or, Bool, true, false, not, ◌&&◌, same, ltb, leb, ◌==◌,
  if◌then◌else◌, [], ◌∷◌, ◌++◌, length, replicate, Option, none, some, Outcome, ok, panics, ◌>>=◌,
  ◌>>◌, guard, check, wrap_error, stream_read_failure, length_exceeds_input,
}
use diameterapi.Wire.{Bytes, put_uint32, read_uint32, read_bytes, join_24, high_8, low_24}
use diameterapi.Avp.Types.{Avp, absent}

abbrev pub avp_protected_flag : ℕ
avp_protected_flag = 0x20

abbrev pub avp_mandatory_flag : ℕ
avp_mandatory_flag = 0x40

abbrev pub avp_flag_vendor_specific : ℕ
avp_flag_vendor_specific = 0x80

abbrev pub non_vendor_specific_avp_header_length : ℕ
non_vendor_specific_avp_header_length = 8

abbrev pub vendor_specific_avp_header_length : ℕ
vendor_specific_avp_header_length = 12

-- `updatePaddedLength`, as the padded length that it stores for a length; `& 3` is `% 4`.
unfoldable pub padded_of : ℕ → ℕ
padded_of n = let plen = n % 4 in if ltb 0 plen then n + (4 - plen) else n

abbrev pub update_padded_length : Avp → Avp
update_padded_length a = record a { padded_length = padded_of a.length }

unfoldable pub new_avp : ℕ → ℕ → Bool → Bytes → Avp
new_avp code vendor_id mandatory payload =
    let vendor_specific = not (vendor_id == 0) in
    let header =
      if vendor_specific
      then vendor_specific_avp_header_length
      else non_vendor_specific_avp_header_length in
    update_padded_length (record {
      code = code;
      vendor_specific = vendor_specific;
      mandatory = mandatory;
      protected = false;
      vendor_id = vendor_id;
      payload = payload;
      length = header + length payload;
      padded_length = 0;
      extended_attributes = absent;
    })

-- `MakeProtected`
unfoldable pub make_protected : Avp → Avp
make_protected a = record a { protected = true }

-- The byte of flags that `Encode` writes.
unfoldable pub flags_of : Bool → Bool → Bool → ℕ
flags_of vendor_specific mandatory protected =
    let v = if vendor_specific then 0x80 else 0 in
    let m = if mandatory then bit_or v 0x40 else v in if protected then bit_or m 0x20 else m

-- `make([]byte, n)` panics for a negative n.
unfoldable pub encode : Avp → Outcome Bytes
encode a = do
  check (leb a.length a.padded_length)
  let padded = replicate (a.padded_length - a.length) 0
  let flags = flags_of a.vendor_specific a.mandatory a.protected
  ok (
      put_uint32 a.code
      ++ (put_uint32 (join_24 flags a.length)
          ++ ((if a.vendor_specific then put_uint32 a.vendor_id else []) ++ (a.payload ++ padded))))

-- `avp.Encode()` on a pointer
unfoldable pub encode_pointer : Option Avp → Outcome Bytes
encode_pointer none = panics
encode_pointer (some a) = encode a

-- Reads the Vendor-ID where the V flag is set: the id, the header's length, and what is left.
unfoldable pub read_vendor : Bool → Bytes → Outcome (ℕ × ℕ × Bytes)
read_vendor true rest = do
  (vendor_id, rest') ← wrap_error stream_read_failure (read_uint32 rest)
  ok (vendor_id, vendor_specific_avp_header_length, rest')
read_vendor false rest = ok (0, non_vendor_specific_avp_header_length, rest)

-- `DecodeAVP` behind the first two words: `input` is the whole input, `rest` what is left of it.
unfoldable pub decode_body : Bytes → ℕ → ℕ → Bytes → Outcome Avp
decode_body input code word rest = do
  let flags = high_8 word
  let len = low_24 word
  let vendor_specific = bit_and flags avp_flag_vendor_specific == avp_flag_vendor_specific
  guard (leb len (length input)) length_exceeds_input
  (vendor_id, header_length, rest') ← read_vendor vendor_specific rest
  check (leb header_length len)
  (payload, rest'') ← read_bytes (len - header_length) rest'
  ok (
      update_padded_length (record {
        code = code;
        vendor_specific = vendor_specific;
        mandatory = bit_and flags avp_mandatory_flag == avp_mandatory_flag;
        protected = bit_and flags avp_protected_flag == avp_protected_flag;
        vendor_id = vendor_id;
        payload = payload;
        length = len;
        padded_length = 0;
        extended_attributes = absent;
      }))

unfoldable pub decode : Bytes → Outcome Avp
decode input = do
  (code, rest) ← wrap_error stream_read_failure (read_uint32 input)
  (word, rest') ← wrap_error stream_read_failure (read_uint32 rest)
  decode_body input code word rest'

-- The loop of `Equal` over two slices of one length.
unfoldable pub same_bytes : Bytes → Bytes → Bool
same_bytes [] ys = true
same_bytes (x ∷ xs) [] = false
same_bytes (x ∷ xs) (y ∷ ys) = x == y && same_bytes xs ys

unfoldable pub equal_fields : Avp → Avp → Bool
equal_fields a b =
    a.code == b.code
    && same a.vendor_specific b.vendor_specific
    && same a.mandatory b.mandatory
    && a.vendor_id == b.vendor_id
    && a.length == b.length
    && a.padded_length == b.padded_length
    && length a.payload == length b.payload
    && same_bytes a.payload b.payload

-- `avp.Equal(a)` on pointers: the argument is tested for nil, the receiver is not.
unfoldable pub equal : Option Avp → Option Avp → Outcome Bool
equal avp none = ok false
equal none (some a) = panics
equal (some avp) (some a) = ok (equal_fields avp a)

-- `Clone` copies the fields and the bytes of `Data`.
unfoldable pub clone : Option Avp → Outcome (Option Avp)
clone none = panics
clone (some a) = ok (some (record a { payload = a.payload }))
