-- ===== src/Typed/Examples.antt =====
-- The typed values at concrete inputs.
use diameterapi.Common.{
  ◌≡◌, refl, true, false, [], ◌∷◌, ◌++◌, some, none, ok, panics, arith, replicate,
}
use diameterapi.Wire.{Bytes, put_uint16, put_uint32, join_24}
use diameterapi.Avp.Types.{
  Avp, AvpSlice, of_list, to_list, unsigned32, grouped, attributes, uint32, int, net_ip, avp_slice,
  address_type, other,
}
use diameterapi.Avp.Types
use diameterapi.Avp.Codec.{encode, encode_pointer, flags_of, same_bytes}
use diameterapi.Avp.RoundTrip.{IsWellFormed}
use diameterapi.Avp.Examples.{origin_host, origin_host-IsWellFormed, origin_host_bytes}
use diameterapi.Typed.Values.{
  Floats, typed_data, unsigned32_data, new_typed_avp_errorable, with_padding, grouped_data,
  encode_group, address_data, ip_data,
}
use diameterapi.Typed.Address.{
  to4, new_address_type_from_ip, new_address_type_errorable, is_an_ip, to_ip,
}
use diameterapi.Typed.Convert.{convert_avp_data_to_typed_data}
use diameterapi.Typed.Laws.{convert-typed_data, new_typed_avp_errorable-IsWellFormed}
use diameterapi.Typed.Kinds.{IsConverted}
use diameterapi.Typed.Converted.{typed_data-IsConverted}
use diameterapi.Typed.Refused.{convert-group_panics}
use diameterapi.Typed.Texts.{to_ip-new_address_type_from_ip}

-- Conversions that give the pattern of 0.
abbrev zeros : Floats
zeros = record {
  int_to_float32 = λ _. 0;
  int_to_float64 = λ _. 0;
  uint32_to_float32 = λ _. 0;
  uint64_to_float64 = λ _. 0;
}

result_code_written :
    typed_data zeros unsigned32 (int 2001) ≡ ok (0 ∷ 0 ∷ 7 ∷ 209 ∷ [], uint32 2001)
unfolding typed_data unsigned32_data put_uint32
result_code_written = refl

convert-typed_data_example :
    convert_avp_data_to_typed_data zeros (0 ∷ 0 ∷ 7 ∷ 209 ∷ []) unsigned32 ≡ ok (uint32 2001)
convert-typed_data_example =
    convert-typed_data zeros unsigned32 (int 2001) (0 ∷ 0 ∷ 7 ∷ 209 ∷ []) (uint32 2001) refl
      (omega arith) result_code_written

abbrev result_code : Avp
result_code = record {
  code = 268;
  vendor_specific = false;
  mandatory = true;
  protected = false;
  vendor_id = 0;
  payload = 0 ∷ 0 ∷ 7 ∷ 209 ∷ [];
  length = 12;
  padded_length = 12;
  extended_attributes = attributes [] unsigned32 (uint32 2001);
}

result_code_made : new_typed_avp_errorable zeros 268 0 true unsigned32 (int 2001) ≡ ok result_code
unfolding new_typed_avp_errorable with_padding typed_data unsigned32_data put_uint32
result_code_made = refl

new_typed_avp_errorable-IsWellFormed_example : IsWellFormed result_code
new_typed_avp_errorable-IsWellFormed_example =
    new_typed_avp_errorable-IsWellFormed zeros 268 0 true unsigned32 (int 2001) result_code
      (omega arith) (omega arith) result_code_made (omega arith)

abbrev group : AvpSlice
group = of_list (some origin_host ∷ [])

group_written : typed_data zeros grouped (avp_slice group) ≡ ok (origin_host_bytes, avp_slice group)
unfolding typed_data grouped_data encode_group encode_pointer encode flags_of put_uint32 join_24
    of_list to_list
group_written = refl

convert-group_panics_example :
    convert_avp_data_to_typed_data zeros origin_host_bytes grouped ≡ panics
convert-group_panics_example =
    convert-group_panics zeros origin_host origin_host_bytes (avp_slice group)
      origin_host-IsWellFormed group_written

-- 2001:db8::1, and 10.0.0.1
abbrev some_ip6 : Bytes
some_ip6 = 0x20 ∷ 0x01 ∷ 0x0d ∷ 0xb8 ∷ (replicate 11 0 ++ (1 ∷ []))

abbrev some_ip4 : Bytes
some_ip4 = 10 ∷ 0 ∷ 0 ∷ 1 ∷ []

some_ip6_is_long : to4 some_ip6 ≡ none
unfolding to4 same_bytes
some_ip6_is_long = refl

some_ip6_written :
    typed_data zeros Types.address (net_ip some_ip6)
    ≡ ok (0 ∷ 2 ∷ some_ip6, address_type (0 ∷ 2 ∷ some_ip6))
unfolding typed_data address_data ip_data new_address_type_from_ip to4 same_bytes put_uint16
some_ip6_written = refl

some_ip4_made : new_address_type_from_ip some_ip4 ≡ ok (0 ∷ 1 ∷ some_ip4)
unfolding new_address_type_from_ip to4 put_uint16
some_ip4_made = refl

to_ip-new_address_type_from_ip_example :
    (is_an_ip (0 ∷ 1 ∷ some_ip4) ≡ true) × (to_ip (0 ∷ 1 ∷ some_ip4) ≡ some some_ip4)
unfolding to4
to_ip-new_address_type_from_ip_example =
    to_ip-new_address_type_from_ip some_ip4 (0 ∷ 1 ∷ some_ip4) some_ip4_made

mac_made : new_address_type_errorable 16389 (1 ∷ 2 ∷ 3 ∷ []) ≡ ok (64 ∷ 5 ∷ 1 ∷ 2 ∷ 3 ∷ [])
unfolding new_address_type_errorable put_uint16
mac_made = refl

typed_data-IsConverted_example : IsConverted unsigned32 (int 2001) (uint32 2001)
typed_data-IsConverted_example =
    typed_data-IsConverted zeros unsigned32 (int 2001) (uint32 2001) (0 ∷ 0 ∷ 7 ∷ 209 ∷ [])
      result_code_written
