-- ===== src/Typed/Laws.antt =====
-- What the typed values of avp.go promise: a value comes back from the data that it was written as.
use diameterapi.Common.{
  ok_injective, ℕ, ◌+◌, ◌^◌, ◌<◌, ◌≡◌, refl, sym, ap, subst, not, if◌then◌else◌, ◌==◌, Bool, true,
  false, [], length, Outcome, ok, arith, >>=-eq-ok,
}
use diameterapi.Wire.{Bytes, IsU32, u32, put_uint32, put_uint64, be32}
use diameterapi.Avp.Types.{
  Avp, AvpDataType, TypedValue, of_list, to_list, unsigned32, unsigned64, integer32, integer64,
  float32, float64, enumerated, utf8_string, octet_string, time, diam_ident, diam_uri, grouped,
  ip_filter_rule, type_or_avp_unknown, uint32, uint64, uint, int, int32, int64, float32_bits,
  float64_bits, string, byte_slice, rune_slice, net_ip, net_ip_pointer, avp_slice,
}
use diameterapi.Avp.Types
use diameterapi.Avp.RoundTrip.{IsWellFormed}
use diameterapi.Avp.Codec.{padded_of}
use diameterapi.Typed.Values.{
  Floats, typed_data, new_typed_avp_errorable, sign_extend, unsigned32_data, unsigned64_data,
  integer32_data, integer64_data, utf8_string_data, octet_string_data, diam_string_data,
  with_padding, checked_utf8,
}
use diameterapi.Typed.Utf8.{encode_runes}
use diameterapi.Typed.Convert.{convert_avp_data_to_typed_data, exactly_4, exactly_8}

-- An integer lies in the range of its type.
abbrev pub IsInRange : TypedValue → Type 0
IsInRange (uint32 n) = IsU32 n
IsInRange (int32 n) = IsU32 n
IsInRange (uint64 n) = n < 2 ^ 64
IsInRange (int64 n) = n < 2 ^ 64
IsInRange (uint n) = n < 2 ^ 64
IsInRange (int n) = n < 2 ^ 64
IsInRange _ = Unit {0}

-- The types whose values come back.
abbrev pub comes_back : AvpDataType → Bool
comes_back unsigned32 = true
comes_back unsigned64 = true
comes_back integer32 = true
comes_back integer64 = true
comes_back enumerated = true
comes_back utf8_string = true
comes_back octet_string = true
comes_back diam_ident = true
comes_back _ = false

exactly_4-put_uint32 : (n : ℕ) → IsU32 n → exactly_4 (put_uint32 n) ≡ ok n
unfolding exactly_4 put_uint32 be32
exactly_4-put_uint32 n h = ap ok (omega arith)

exactly_8-put_uint64 : (n : ℕ) → n < 2 ^ 64 → exactly_8 (put_uint64 n) ≡ ok n
unfolding exactly_8 put_uint64 put_uint32 be32
exactly_8-put_uint64 n h = ap ok (omega arith)

sign_extend_bound : (n : ℕ) → IsU32 n → sign_extend n < 2 ^ 64
unfolding sign_extend
sign_extend_bound n h = ground arith

came_back :
    (f : Bytes → Outcome TypedValue) {b bytes : Bytes} {v c : TypedValue}
    → ◌≡◌ {A = Outcome (Bytes × TypedValue)} (ok (b, v)) (ok (bytes, c))
    → f b ≡ ok v
    → f bytes ≡ ok c
came_back f e k = cc

-- What `NewTypedAVPErrorable` makes of the data and the coerced value.
abbrev made : ℕ → ℕ → Bool → AvpDataType → Bytes → TypedValue → Avp
made code vendor_id mandatory t bytes c =
    let header = if not (vendor_id == 0) then 12 else 8 in
    record {
      code = code;
      vendor_specific = not (vendor_id == 0);
      mandatory = mandatory;
      protected = false;
      vendor_id = vendor_id;
      payload = bytes;
      length = header + length bytes;
      padded_length = with_padding (header + length bytes);
      extended_attributes = Types.attributes [] t c;
    }

made-IsWellFormed :
    (code vendor_id : ℕ) (mandatory : Bool) (t : AvpDataType) (bytes : Bytes) (c : TypedValue)
    → IsU32 code
    → IsU32 vendor_id
    → (made code vendor_id mandatory t bytes c).length < 2 ^ 24
    → IsWellFormed (made code vendor_id mandatory t bytes c)
unfolding with_padding padded_of
made-IsWellFormed code vendor_id mandatory t bytes c hc hv short = record {
  code_fits = hc;
  vendor_fits = hv;
  vendor_absent = λ h. ground arith;
  length_exact = ground arith;
  length_fits = short;
  padded_exact = refl;
}

module _ (floats : Floats) where
  abbrev back : Bytes → AvpDataType → Outcome TypedValue
  back bytes t = convert_avp_data_to_typed_data floats bytes t

  back_unsigned32 :
      (v : TypedValue) (bytes : Bytes) (c : TypedValue)
      → IsInRange v
      → unsigned32_data v ≡ ok (bytes, c)
      → back bytes unsigned32 ≡ ok c
  unfolding unsigned32_data convert_avp_data_to_typed_data
  back_unsigned32 (uint32 n) bytes c h e =
      came_back (λ b. back b unsigned32) e (rw (exactly_4-put_uint32 n h))
  back_unsigned32 (int n) bytes c h e =
      came_back (λ b. back b unsigned32) e (rw (exactly_4-put_uint32 (u32 n) (omega arith)))
  back_unsigned32 _ bytes c h e = cc

  back_unsigned64 :
      (v : TypedValue) (bytes : Bytes) (c : TypedValue)
      → IsInRange v
      → unsigned64_data v ≡ ok (bytes, c)
      → back bytes unsigned64 ≡ ok c
  unfolding unsigned64_data convert_avp_data_to_typed_data
  back_unsigned64 (uint64 n) bytes c h e =
      came_back (λ b. back b unsigned64) e (rw (exactly_8-put_uint64 n h))
  back_unsigned64 (int n) bytes c h e =
      came_back (λ b. back b unsigned64) e (rw (exactly_8-put_uint64 n h))
  back_unsigned64 (uint n) bytes c h e =
      came_back (λ b. back b unsigned64) e (rw (exactly_8-put_uint64 n h))
  back_unsigned64 (uint32 n) bytes c h e =
      came_back (λ b. back b unsigned64) e (rw (exactly_8-put_uint64 n (omega arith)))
  back_unsigned64 _ bytes c h e = cc

  back_integer32 :
      (v : TypedValue) (bytes : Bytes) (c : TypedValue)
      → IsInRange v
      → integer32_data v ≡ ok (bytes, c)
      → back bytes integer32 ≡ ok c
  unfolding integer32_data convert_avp_data_to_typed_data
  back_integer32 (int32 n) bytes c h e =
      came_back (λ b. back b integer32) e (rw (exactly_4-put_uint32 n h))
  back_integer32 (int n) bytes c h e =
      came_back (λ b. back b integer32) e (rw (exactly_4-put_uint32 (u32 n) (omega arith)))
  back_integer32 _ bytes c h e = cc

  back_enumerated :
      (v : TypedValue) (bytes : Bytes) (c : TypedValue)
      → IsInRange v
      → integer32_data v ≡ ok (bytes, c)
      → back bytes enumerated ≡ ok c
  unfolding integer32_data convert_avp_data_to_typed_data
  back_enumerated (int32 n) bytes c h e =
      came_back (λ b. back b enumerated) e (rw (exactly_4-put_uint32 n h))
  back_enumerated (int n) bytes c h e =
      came_back (λ b. back b enumerated) e (rw (exactly_4-put_uint32 (u32 n) (omega arith)))
  back_enumerated _ bytes c h e = cc

  back_integer64 :
      (v : TypedValue) (bytes : Bytes) (c : TypedValue)
      → IsInRange v
      → integer64_data v ≡ ok (bytes, c)
      → back bytes integer64 ≡ ok c
  unfolding integer64_data convert_avp_data_to_typed_data
  back_integer64 (int64 n) bytes c h e =
      came_back (λ b. back b integer64) e (rw (exactly_8-put_uint64 n h))
  back_integer64 (int n) bytes c h e =
      came_back (λ b. back b integer64) e (rw (exactly_8-put_uint64 n h))
  back_integer64 (int32 n) bytes c h e =
      came_back (λ b. back b integer64) e
        (rw (exactly_8-put_uint64 (sign_extend n) (sign_extend_bound n h)))
  back_integer64 _ bytes c h e = cc

  back_octet_string :
      (v : TypedValue) (bytes : Bytes) (c : TypedValue)
      → IsInRange v
      → octet_string_data v ≡ ok (bytes, c)
      → back bytes octet_string ≡ ok c
  unfolding octet_string_data convert_avp_data_to_typed_data
  back_octet_string (byte_slice x) bytes c h e = came_back (λ b. back b octet_string) e refl
  back_octet_string (string x) bytes c h e = came_back (λ b. back b octet_string) e refl
  back_octet_string _ bytes c h e = cc

  back_diam_ident :
      (v : TypedValue) (bytes : Bytes) (c : TypedValue)
      → IsInRange v
      → diam_string_data v ≡ ok (bytes, c)
      → back bytes diam_ident ≡ ok c
  unfolding diam_string_data convert_avp_data_to_typed_data
  back_diam_ident (string x) bytes c h e = came_back (λ b. back b diam_ident) e refl
  back_diam_ident _ bytes c h e = cc

  back_checked :
      (v bytes : Bytes) (c : TypedValue)
      → checked_utf8 v ≡ ok (bytes, c)
      → back bytes utf8_string ≡ ok c
  unfolding convert_avp_data_to_typed_data
  back_checked v bytes c e = ground arith

  back_utf8_string :
      (v : TypedValue) (bytes : Bytes) (c : TypedValue)
      → utf8_string_data v ≡ ok (bytes, c)
      → back bytes utf8_string ≡ ok c
  unfolding utf8_string_data
  back_utf8_string (string x) bytes c e = back_checked x bytes c e
  back_utf8_string (byte_slice x) bytes c e = back_checked x bytes c e
  back_utf8_string (rune_slice x) bytes c e = back_checked (encode_runes x) bytes c e
  back_utf8_string _ bytes c e = cc

  -- For the integer types, Enumerated, UTF8String, OctetString and DiamIdent: where
  -- `NewTypedAVPErrorable` accepts a value in the range of its Go type, `ConvertAVPDataToTypedData`
  -- gives back the coerced value from the data that it wrote.
  pub convert-typed_data :
      (t : AvpDataType) (v : TypedValue) (bytes : Bytes) (c : TypedValue)
      → comes_back t ≡ true
      → IsInRange v
      → typed_data floats t v ≡ ok (bytes, c)
      → convert_avp_data_to_typed_data floats bytes t ≡ ok c
  unfolding typed_data
  convert-typed_data unsigned32 v bytes c k h e = back_unsigned32 v bytes c h e
  convert-typed_data unsigned64 v bytes c k h e = back_unsigned64 v bytes c h e
  convert-typed_data integer32 v bytes c k h e = back_integer32 v bytes c h e
  convert-typed_data integer64 v bytes c k h e = back_integer64 v bytes c h e
  convert-typed_data enumerated v bytes c k h e = back_enumerated v bytes c h e
  convert-typed_data utf8_string v bytes c k h e = back_utf8_string v bytes c e
  convert-typed_data octet_string v bytes c k h e = back_octet_string v bytes c h e
  convert-typed_data diam_ident v bytes c k h e = back_diam_ident v bytes c h e
  convert-typed_data _ v bytes c k h e = cc

  -- `NewTypedAVPErrorable` with a code and a vendor id of 32 bits makes a well-formed AVP wherever the
  -- length stays below 2 ^ 24.
  pub new_typed_avp_errorable-IsWellFormed :
      (code vendor_id : ℕ) (mandatory : Bool) (t : AvpDataType) (v : TypedValue) (a : Avp)
      → IsU32 code
      → IsU32 vendor_id
      → new_typed_avp_errorable floats code vendor_id mandatory t v ≡ ok a
      → a.length < 2 ^ 24
      → IsWellFormed a
  unfolding new_typed_avp_errorable
  new_typed_avp_errorable-IsWellFormed code vendor_id mandatory t v a hc hv e short =
      let ((bytes, c), _, built) = >>=-eq-ok (typed_data floats t v) _ e in
      subst IsWellFormed (ok_injective built) (
        made-IsWellFormed code vendor_id mandatory t bytes c hc hv
          (subst (λ (x : Avp). x.length < 2 ^ 24) (sym (ok_injective built)) short))
