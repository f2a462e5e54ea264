-- ===== src/Typed/Refused.antt =====
-- Where the typed values of avp.go do not come back from their data.
use diameterapi.Common.{
  ◌≤◌, ◌<◌, ◌≡◌, refl, sym, ap, subst, length-append, ◌∙◌, [], ◌∷◌, ◌++◌, length, none, some, ok,
  err, panics, arith, bad_address, >>=-eq-ok,
}
use diameterapi.Wire.{Bytes, put_uint16}
use diameterapi.Avp.Types.{
  Avp, AvpDataType, TypedValue, of_list, to_list, unsigned32, unsigned64, integer32, integer64,
  float32, float64, enumerated, utf8_string, octet_string, time, diam_ident, diam_uri, grouped,
  ip_filter_rule, type_or_avp_unknown, uint32, uint64, uint, int, int32, int64, float32_bits,
  float64_bits, string, byte_slice, rune_slice, net_ip, net_ip_pointer, avp_slice,
}
use diameterapi.Avp.Types
use diameterapi.Avp.RoundTrip.{
  IsWellFormed, wire, length-wire, IsWellFormed-encode, decode-wire, padded_of_lem,
  header_length_bounds,
}
use diameterapi.Avp.Codec.{decode, encode_pointer}
use diameterapi.Typed.Values.{Floats, typed_data, grouped_data, encode_group, address_data, ip_data}
use diameterapi.Typed.Address.{to4, new_address_type_from_ip}
use diameterapi.Typed.Convert.{
  convert_avp_data_to_typed_data, convert_address, convert_group, decode_group,
}

convert_address_long : (bs : Bytes) → 10 < length bs → convert_address bs ≡ err bad_address
unfolding convert_address
convert_address_long (_ ∷ _ ∷ _ ∷ _ ∷ _ ∷ _ ∷ _ ∷ _ ∷ _ ∷ _ ∷ _ ∷ _) h = refl
convert_address_long _ h = absurd (omega arith)

group_panics :
    (bs : Bytes) (a : Avp)
    → 8 ≤ length bs
    → decode bs ≡ ok a
    → length bs ≤ a.padded_length
    → decode_group (length bs) bs ≡ panics
unfolding decode_group
group_panics [] a h d k = absurd (omega arith)
group_panics (b ∷ bs) a h d k = ground (arith, d)

group_of_one : (a : Avp) → IsWellFormed a → encode_group (some a ∷ []) ≡ ok (wire a ++ [])
unfolding encode_group encode_pointer
group_of_one a w = rw (IsWellFormed-encode a w)

grouped_of_one :
    (a : Avp) (bytes : Bytes) (c : TypedValue)
    → IsWellFormed a
    → grouped_data (avp_slice (of_list (some a ∷ []))) ≡ ok (bytes, c)
    → wire a ++ [] ≡ bytes
unfolding grouped_data of_list to_list
grouped_of_one a bytes c w e =
    let (b, p, q) = >>=-eq-ok (encode_group (some a ∷ [])) _ e in let g = group_of_one a w in cc

address_of_ip6 :
    (ip bytes : Bytes) (c : TypedValue)
    → length ip ≡ 16
    → to4 ip ≡ none
    → ip_data ip ≡ ok (bytes, c)
    → put_uint16 2 ++ ip ≡ bytes
unfolding ip_data new_address_type_from_ip
address_of_ip6 ip bytes c h n e = ground (arith, n, h)

module _ (floats : Floats) where
  -- A Grouped AVP cannot be read back: on the data of a group that holds one well-formed AVP, the
  -- conversion panics.
  pub convert-group_panics :
      (a : Avp) (bytes : Bytes) (c : TypedValue)
      → IsWellFormed a
      → typed_data floats grouped (avp_slice (of_list (some a ∷ []))) ≡ ok (bytes, c)
      → convert_avp_data_to_typed_data floats bytes grouped ≡ panics
  unfolding convert_avp_data_to_typed_data convert_group decode_group typed_data grouped_data
      encode_group
  convert-group_panics a bytes c w e =
      let same = grouped_of_one a bytes c w e in
      let long = length-wire a w in
      let size = length-append (wire a) [] in
      subst (λ (t : Bytes). convert_avp_data_to_typed_data floats t grouped ≡ panics) same
        (rw (
          group_panics (wire a ++ []) (record a { extended_attributes = Types.absent })
            (omega (
              arith,
              w.padded_exact,
              padded_of_lem a.length,
              w.length_exact,
              header_length_bounds a.vendor_specific,
            ))
            (decode-wire a [] w) (omega arith)))

  -- An IPv6 address cannot be read back: the data written for 16 bytes that are no IPv4 address are
  -- refused.
  pub convert-address_refused :
      (ip bytes : Bytes) (c : TypedValue)
      → length ip ≡ 16
      → to4 ip ≡ none
      → typed_data floats Types.address (net_ip ip) ≡ ok (bytes, c)
      → convert_avp_data_to_typed_data floats bytes Types.address ≡ err bad_address
  unfolding convert_avp_data_to_typed_data typed_data address_data ip_data new_address_type_from_ip
  convert-address_refused ip bytes c h n e =
      let same = address_of_ip6 ip bytes c h n e in
      ap convert_address (sym same)
      ∙ convert_address_long (put_uint16 2 ++ ip) (omega (arith, length-append (put_uint16 2) ip))
