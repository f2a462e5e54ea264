-- ===== src/Typed/Values.antt =====
-- avp.go: `NewTypedAVPErrorable` and `NewTypedAVP`. The conversions of Go from integers to floats are
-- a parameter; an integer is its two's complement bit pattern and a float its IEEE 754 pattern.
use diameterapi.Common.{
  ℕ, ◌+◌, ◌-◌, ◌*◌, ◌/◌, ◌%◌, ◌^◌, Bool, false, not, ltb, leb, ◌==◌, if◌then◌else◌, List, [], ◌∷◌,
  ◌++◌, length, Option, must, Outcome, ok, err, ◌>>=◌, ◌>>◌, guard, not_convertible, not_utf8,
  time_before_epoch, time_after_limit, bad_time_length, negative_time, type_not_valid,
}
use diameterapi.Common.Int.{ℤ, pos, negsuc}
use diameterapi.Wire.{Bytes, u32, put_uint32, put_uint64, be32}
use diameterapi.Avp.Types.{
  Avp, AvpDataType, TypedValue, AvpSlice, ExtendedAttributes, attributes, to_list, unsigned32,
  unsigned64, integer32, integer64, float32, float64, enumerated, utf8_string, octet_string, time,
  diam_ident, diam_uri, grouped, ip_filter_rule, type_or_avp_unknown, uint32, uint64, uint, int32,
  int64, int, float32_bits, float64_bits, string, byte_slice, rune_slice, time_value, time_pointer,
  address_type, address_type_pointer, net_ip, net_ip_pointer, net_ip_addr, net_ip_addr_pointer,
  avp_slice, other,
}
use diameterapi.Avp.Types
use diameterapi.Avp.Codec.{
  encode_pointer, non_vendor_specific_avp_header_length, vendor_specific_avp_header_length,
}
use diameterapi.Typed.Utf8.{utf8_valid, encode_runes}
use diameterapi.Typed.Address.{new_address_type_from_ip}

-- Go's conversions to floats, from the bit pattern of an `int`, a `uint32` or a `uint64`.
pub record Floats : Type 0 where
  pub int_to_float32 : ℕ → ℕ
  pub int_to_float64 : ℕ → ℕ
  pub uint32_to_float32 : ℕ → ℕ
  pub uint64_to_float64 : ℕ → ℕ

-- `int64(v)` of an int32
unfoldable pub sign_extend : ℕ → ℕ
sign_extend n = if ltb n (2 ^ 31) then n else n + (2 ^ 64 - 2 ^ 32)

abbrev pub Coerced : Type 0
Coerced = Outcome (Bytes × TypedValue)

unfoldable pub unsigned32_data : TypedValue → Coerced
unsigned32_data (uint32 v) = ok (put_uint32 v, uint32 v)
unsigned32_data (int v) = ok (put_uint32 (u32 v), uint32 (u32 v))
unsigned32_data _ = err not_convertible

unfoldable pub unsigned64_data : TypedValue → Coerced
unsigned64_data (uint64 v) = ok (put_uint64 v, uint64 v)
unsigned64_data (int v) = ok (put_uint64 v, uint64 v)
unsigned64_data (uint v) = ok (put_uint64 v, uint64 v)
unsigned64_data (uint32 v) = ok (put_uint64 v, uint64 v)
unsigned64_data _ = err not_convertible

-- Integer32, and Enumerated, which is the same code.
unfoldable pub integer32_data : TypedValue → Coerced
integer32_data (int32 v) = ok (put_uint32 v, int32 v)
integer32_data (int v) = ok (put_uint32 (u32 v), int32 (u32 v))
integer32_data _ = err not_convertible

unfoldable pub integer64_data : TypedValue → Coerced
integer64_data (int64 v) = ok (put_uint64 v, int64 v)
integer64_data (int v) = ok (put_uint64 v, int64 v)
integer64_data (int32 v) = ok (put_uint64 (sign_extend v), int64 (sign_extend v))
integer64_data _ = err not_convertible

unfoldable pub float32_data : Floats → TypedValue → Coerced
float32_data floats (float32_bits v) = ok (put_uint32 v, float32_bits v)
float32_data floats (int v) = let f = floats.int_to_float32 v in ok (put_uint32 f, float32_bits f)
float32_data floats _ = err not_convertible

-- A float32 is written as four bytes here too.
unfoldable pub float64_data : Floats → TypedValue → Coerced
float64_data floats (float32_bits v) = ok (put_uint32 v, float32_bits v)
float64_data floats (float64_bits v) = ok (put_uint64 v, float64_bits v)
float64_data floats (int v) = let f = floats.int_to_float64 v in ok (put_uint64 f, float64_bits f)
float64_data floats _ = err not_convertible

-- The test behind the type switch of UTF8String.
abbrev pub checked_utf8 : Bytes → Coerced
checked_utf8 bytes = do guard (utf8_valid bytes) not_utf8; ok (bytes, string bytes)

unfoldable pub utf8_string_data : TypedValue → Coerced
utf8_string_data (string v) = checked_utf8 v
utf8_string_data (byte_slice v) = checked_utf8 v
utf8_string_data (rune_slice v) = checked_utf8 (encode_runes v)
utf8_string_data _ = err not_convertible

unfoldable pub octet_string_data : TypedValue → Coerced
octet_string_data (byte_slice v) = ok (v, byte_slice v)
octet_string_data (string v) = ok (v, byte_slice v)
octet_string_data _ = err not_convertible

-- `v.Sub(diameterBaseTime) / time.Second` rounds towards 0. That `Sub` stops at the largest duration,
-- which is above the limit, makes no difference.
unfoldable pub time_instant : ℤ → Coerced
time_instant (pos n) = do
  let seconds = n / 10 ^ 9
  guard (leb seconds 4294967295) time_after_limit
  ok (put_uint32 (u32 seconds), time_pointer (pos n))
time_instant (negsuc n) = do
  guard (ltb (n + 1) (10 ^ 9)) time_before_epoch
  ok (put_uint32 0, time_pointer (negsuc n))

-- `diameterBaseTime.Add(time.Second * time.Duration(v))`: the product is an int64.
unfoldable pub seconds_later : ℕ → ℤ
seconds_later v =
    let d = v * 10 ^ 9 % 2 ^ 64 in if ltb d (2 ^ 63) then pos d else negsuc (2 ^ 64 - d - 1)

unfoldable pub time_bytes : Bytes → Coerced
time_bytes (a ∷ b ∷ c ∷ d ∷ []) =
    ok (a ∷ b ∷ c ∷ d ∷ [], time_pointer (seconds_later (be32 a b c d)))
time_bytes _ = err bad_time_length

unfoldable pub time_data : TypedValue → Coerced
unfolding time_instant seconds_later time_bytes
time_data (time_value t) = time_instant t
time_data (time_pointer t) = time_instant t
time_data (byte_slice v) = time_bytes v
time_data (uint32 v) = ok (put_uint32 v, time_pointer (seconds_later v))
time_data (int v) = do
  guard (ltb v (2 ^ 63)) negative_time
  ok (put_uint32 (u32 v), time_pointer (seconds_later v))
time_data _ = err not_convertible

unfoldable pub ip_data : Bytes → Coerced
ip_data ip = do a ← new_address_type_from_ip ip; ok (a, address_type a)

unfoldable pub address_data : TypedValue → Coerced
unfolding ip_data
address_data (address_type a) = ok (a, address_type a)
address_data (address_type_pointer a) = ok (a, address_type a)
address_data (net_ip_pointer ip) = ip_data ip
address_data (net_ip ip) = ip_data ip
address_data (net_ip_addr ip) = ip_data ip
address_data (net_ip_addr_pointer ip) = ip_data ip
address_data _ = err not_convertible

-- DiamIdent, and DiamURI, which is the same code.
unfoldable pub diam_string_data : TypedValue → Coerced
diam_string_data (string v) = ok (v, string v)
diam_string_data _ = err not_convertible

-- The two loops of Grouped: a nil AVP panics in the first, a padded length below the length in the
-- second.
unfoldable pub encode_group : List (Option Avp) → Outcome Bytes
encode_group [] = ok []
encode_group (a ∷ avps) = do bytes ← encode_pointer a; rest ← encode_group avps; ok (bytes ++ rest)

unfoldable pub grouped_data : TypedValue → Coerced
unfolding encode_group
grouped_data (avp_slice v) = do bytes ← encode_group (to_list v); ok (bytes, avp_slice v)
grouped_data _ = err not_convertible

unfoldable pub ip_filter_rule_data : TypedValue → Coerced
ip_filter_rule_data (string v) = ok (v, string v)
ip_filter_rule_data (byte_slice v) = ok (v, string v)
ip_filter_rule_data _ = err not_convertible

-- The type switch: the data and the coerced value.
unfoldable pub typed_data : Floats → AvpDataType → TypedValue → Coerced
typed_data floats unsigned32 v = unsigned32_data v
typed_data floats unsigned64 v = unsigned64_data v
typed_data floats integer32 v = integer32_data v
typed_data floats integer64 v = integer64_data v
typed_data floats float32 v = float32_data floats v
typed_data floats float64 v = float64_data floats v
typed_data floats enumerated v = integer32_data v
typed_data floats utf8_string v = utf8_string_data v
typed_data floats octet_string v = octet_string_data v
typed_data floats time v = time_data v
typed_data floats Types.address v = address_data v
typed_data floats diam_ident v = diam_string_data v
typed_data floats diam_uri v = diam_string_data v
typed_data floats grouped v = grouped_data v
typed_data floats ip_filter_rule v = ip_filter_rule_data v
typed_data floats type_or_avp_unknown v = err type_not_valid

unfoldable pub with_padding : ℕ → ℕ
with_padding n = let carry = n % 4 in if ltb 0 carry then n + (4 - carry) else n

unfoldable pub new_typed_avp_errorable :
    Floats → ℕ → ℕ → Bool → AvpDataType → TypedValue → Outcome Avp
unfolding typed_data with_padding
new_typed_avp_errorable floats code vendor_id mandatory avp_type value = do
  (bytes, coerced_value) ← typed_data floats avp_type value
  let is_vendor_specific = not (vendor_id == 0)
  let header =
      if is_vendor_specific
      then vendor_specific_avp_header_length
      else non_vendor_specific_avp_header_length
  let avp_length = header + length bytes
  ok (record {
    code = code;
    vendor_specific = is_vendor_specific;
    mandatory = mandatory;
    protected = false;
    vendor_id = vendor_id;
    payload = bytes;
    length = avp_length;
    padded_length = with_padding avp_length;
    extended_attributes = attributes [] avp_type coerced_value;
  })

unfoldable pub new_typed_avp : Floats → ℕ → ℕ → Bool → AvpDataType → TypedValue → Outcome Avp
unfolding new_typed_avp_errorable
new_typed_avp floats code vendor_id mandatory avp_type value =
    must (new_typed_avp_errorable floats code vendor_id mandatory avp_type value)
