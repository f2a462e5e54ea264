-- ===== src/Typed/Convert.antt =====
-- avp.go: `ConvertAVPDataToTypedData` and the methods that call it.
use diameterapi.Common.{
  ℕ, zero, suc, ◌+◌, leb, ◌==◌, List, [], ◌∷◌, ◌++◌, length, drop, replicate, Option, none, some,
  Outcome, must, ok, ◌*◌, ◌^◌, err, stuck, ◌>>=◌, ◌>>◌, guard, check, wrap_error, bad_data_length,
  bad_address, group_decode_failure, type_not_valid,
}
use diameterapi.Wire.{Bytes, be16, be32}
use diameterapi.Avp.Types.{
  Avp, AvpDataType, TypedValue, of_list, unsigned32, unsigned64, integer32, integer64, float32,
  float64, enumerated, utf8_string, octet_string, time, diam_ident, diam_uri, grouped,
  ip_filter_rule, type_or_avp_unknown, uint32, uint64, int32, int64, float32_bits, float64_bits,
  string, byte_slice, net_ip, net_ip_pointer, avp_slice,
}
use diameterapi.Avp.Types
use diameterapi.Avp.Codec
use diameterapi.Typed.Address.{ip4_prefix, ip4, ip6}
use diameterapi.Typed.Values.{Floats}

-- `binary.BigEndian.Uint32` behind the test for four bytes
unfoldable pub exactly_4 : Bytes → Outcome ℕ
exactly_4 (a ∷ b ∷ c ∷ d ∷ []) = ok (be32 a b c d)
exactly_4 _ = err bad_data_length

-- `binary.BigEndian.Uint64` behind the test for eight bytes
unfoldable pub exactly_8 : Bytes → Outcome ℕ
exactly_8 (a ∷ b ∷ c ∷ d ∷ e ∷ f ∷ g ∷ h ∷ []) = ok (be32 a b c d * 2 ^ 32 + be32 e f g h)
exactly_8 _ = err bad_data_length

-- `net.IPv4` gives the long form of an address.
unfoldable pub convert_address : Bytes → Outcome TypedValue
convert_address (x ∷ y ∷ a ∷ b ∷ c ∷ d ∷ []) = do
  guard (be16 x y == ip4) bad_address
  ok (net_ip (ip4_prefix ++ (a ∷ b ∷ c ∷ d ∷ [])))
convert_address (x ∷ y ∷ a ∷ b ∷ c ∷ d ∷ e ∷ f ∷ g ∷ h ∷ []) = do
  guard (be16 x y == ip6) bad_address
  ok (net_ip_pointer (a ∷ b ∷ c ∷ d ∷ e ∷ f ∷ g ∷ h ∷ []))
convert_address _ = err bad_address

-- The loop of Grouped, on fuel: the next AVP is looked for one byte behind the padded length.
unfoldable pub decode_group : ℕ → Bytes → Outcome (List (Option Avp))
decode_group fuel [] = ok []
decode_group zero (b ∷ bs) = stuck
decode_group (suc fuel) (b ∷ bs) = do
  next_avp ← wrap_error group_decode_failure (Codec.decode (b ∷ bs))
  check (leb (next_avp.padded_length + 1) (length (b ∷ bs)))
  rest ← decode_group fuel (drop (next_avp.padded_length + 1) (b ∷ bs))
  ok (some next_avp ∷ rest)

-- The AVPs are appended to a slice of ten nil pointers.
unfoldable pub convert_group : Bytes → Outcome TypedValue
unfolding decode_group
convert_group bytes = do
  avps ← decode_group (length bytes) bytes
  ok (avp_slice (of_list (replicate 10 none ++ avps)))

unfoldable pub convert_avp_data_to_typed_data : Floats → Bytes → AvpDataType → Outcome TypedValue
unfolding exactly_4 exactly_8 convert_address convert_group
convert_avp_data_to_typed_data floats avp_data unsigned32 = do n ← exactly_4 avp_data; ok (uint32 n)
convert_avp_data_to_typed_data floats avp_data unsigned64 = do n ← exactly_8 avp_data; ok (uint64 n)
convert_avp_data_to_typed_data floats avp_data integer32 = do n ← exactly_4 avp_data; ok (int32 n)
convert_avp_data_to_typed_data floats avp_data integer64 = do n ← exactly_8 avp_data; ok (int64 n)
convert_avp_data_to_typed_data floats avp_data float32 = do
  n ← exactly_4 avp_data
  ok (float32_bits (floats.uint32_to_float32 n))
convert_avp_data_to_typed_data floats avp_data float64 = do
  n ← exactly_8 avp_data
  ok (float64_bits (floats.uint64_to_float64 n))
convert_avp_data_to_typed_data floats avp_data utf8_string = ok (string avp_data)
convert_avp_data_to_typed_data floats avp_data octet_string = ok (byte_slice avp_data)
convert_avp_data_to_typed_data floats avp_data enumerated = do n ← exactly_4 avp_data; ok (int32 n)
convert_avp_data_to_typed_data floats avp_data time = do n ← exactly_4 avp_data; ok (uint32 n)
convert_avp_data_to_typed_data floats avp_data Types.address = convert_address avp_data
convert_avp_data_to_typed_data floats avp_data diam_ident = ok (string avp_data)
convert_avp_data_to_typed_data floats avp_data grouped = convert_group avp_data
convert_avp_data_to_typed_data floats avp_data ip_filter_rule = ok (byte_slice avp_data)
convert_avp_data_to_typed_data floats avp_data diam_uri = err type_not_valid
convert_avp_data_to_typed_data floats avp_data type_or_avp_unknown = err type_not_valid

-- `MustConvertAVPDataToTypedData`
unfoldable pub must_convert_avp_data_to_typed_data :
    Floats → Bytes → AvpDataType → Outcome TypedValue
must_convert_avp_data_to_typed_data floats avp_data data_type =
    must (convert_avp_data_to_typed_data floats avp_data data_type)

-- `ConvertDataToTypedData`
unfoldable pub convert_data_to_typed_data : Floats → Avp → AvpDataType → Outcome TypedValue
convert_data_to_typed_data floats avp data_type =
    convert_avp_data_to_typed_data floats avp.payload data_type
