-- ===== src/Typed/Kinds.antt =====
-- The Go types of the values of `NewTypedAVPErrorable`, as the comments on `AVPDataType` list them.
use diameterapi.Common.{
  ◌≡◌, refl, not, Bool, true, false, Outcome, [], ◌∷◌, Error, ok, guard, ◌>>◌, >>=-eq-ok,
  time_after_limit, time_before_epoch, ok_injective, subst,
}
use diameterapi.Wire.{Bytes}
use diameterapi.Avp.Types.{
  AvpDataType, TypedValue, AvpSlice, to_list, unsigned32, unsigned64, integer32, integer64, float32,
  float64, enumerated, utf8_string, octet_string, time, diam_ident, diam_uri, grouped,
  ip_filter_rule, type_or_avp_unknown, uint32, uint64, uint, int32, int64, int, float32_bits,
  float64_bits, string, byte_slice, rune_slice, time_value, time_pointer, address_type,
  address_type_pointer, net_ip, net_ip_pointer, net_ip_addr, net_ip_addr_pointer, avp_slice, other,
}
use diameterapi.Avp.Types
use diameterapi.Typed.Values.{time_instant, time_bytes, ip_data, grouped_data, encode_group}
use diameterapi.Typed.Address.{new_address_type_from_ip}
use diameterapi.Common.Int.{ℤ, pos, negsuc}

-- The source types that the comments allow for a data type. They list none for DiamIdent, DiamURI, Grouped
-- and IPFilterRule: there the types of the typed value, and for IPFilterRule also a string.
abbrev pub is_source : AvpDataType → TypedValue → Bool
is_source unsigned32 (uint32 _) = true
is_source unsigned32 (int _) = true
is_source unsigned64 (uint64 _) = true
is_source unsigned64 (uint32 _) = true
is_source unsigned64 (uint _) = true
is_source unsigned64 (int _) = true
is_source integer32 (int32 _) = true
is_source integer32 (int _) = true
is_source integer64 (int64 _) = true
is_source integer64 (int _) = true
is_source integer64 (int32 _) = true
is_source float32 (float32_bits _) = true
is_source float32 (int _) = true
is_source float64 (float32_bits _) = true
is_source float64 (float64_bits _) = true
is_source float64 (int _) = true
is_source enumerated (int32 _) = true
is_source enumerated (int _) = true
is_source utf8_string (string _) = true
is_source utf8_string (byte_slice _) = true
is_source utf8_string (rune_slice _) = true
is_source octet_string (byte_slice _) = true
is_source octet_string (string _) = true
is_source time (time_value _) = true
is_source time (time_pointer _) = true
is_source time (uint32 _) = true
is_source time (int _) = true
is_source Types.address (address_type _) = true
is_source Types.address (address_type_pointer _) = true
is_source Types.address (net_ip _) = true
is_source Types.address (net_ip_pointer _) = true
is_source Types.address (net_ip_addr _) = true
is_source Types.address (net_ip_addr_pointer _) = true
is_source diam_ident (string _) = true
is_source diam_uri (string _) = true
is_source grouped (avp_slice _) = true
is_source ip_filter_rule (string _) = true
is_source ip_filter_rule (byte_slice _) = true
is_source _ _ = false

-- The Go type of the typed value, as the comments have it
abbrev pub is_typed_value : AvpDataType → TypedValue → Bool
is_typed_value unsigned32 (uint32 _) = true
is_typed_value unsigned64 (uint64 _) = true
is_typed_value integer32 (int32 _) = true
is_typed_value integer64 (int64 _) = true
is_typed_value float32 (float32_bits _) = true
is_typed_value float64 (float64_bits _) = true
is_typed_value enumerated (int32 _) = true
is_typed_value utf8_string (string _) = true
is_typed_value octet_string (byte_slice _) = true
is_typed_value time (time_pointer _) = true
is_typed_value Types.address (address_type_pointer _) = true
is_typed_value diam_ident (string _) = true
is_typed_value diam_uri (string _) = true
is_typed_value grouped (avp_slice _) = true
is_typed_value ip_filter_rule (byte_slice _) = true
is_typed_value _ _ = false

-- Where the code takes a value that the comments do not allow: a byte slice for a Time, for which they
-- have `[4]byte`.
abbrev pub is_taken_too : AvpDataType → TypedValue → Bool
is_taken_too time (byte_slice _) = true
is_taken_too _ _ = false

-- Where the code keeps a typed value of another type: for a Float64 that is given as a float32, and for
-- every Address and IPFilterRule.
abbrev pub is_kept_otherwise : AvpDataType → TypedValue → Bool
is_kept_otherwise float64 (float32_bits _) = true
is_kept_otherwise Types.address _ = true
is_kept_otherwise ip_filter_rule _ = true
is_kept_otherwise _ _ = false

pub kept :
    (p : TypedValue → Bool) {b bytes : Bytes} {v c : TypedValue} {answer : Bool}
    → ◌≡◌ {A = Outcome (Bytes × TypedValue)} (ok (b, v)) (ok (bytes, c))
    → p v ≡ answer
    → p c ≡ answer
kept p {answer = answer} e h = subst (λ (x : Bytes × TypedValue). p x.1 ≡ answer) (ok_injective e) h

pub guarded :
    (p : TypedValue → Bool) (b : Bool) (cause : Error) (x : Bytes × TypedValue) {bytes : Bytes}
    {c : TypedValue}
    → (guard b cause >> ok x) ≡ ok (bytes, c)
    → p x.1 ≡ true
    → p c ≡ true
guarded p true cause x e h = kept p e h
guarded p false cause x e h = cc

pub time_instant-kind :
    (t : ℤ) (bytes : Bytes) (c : TypedValue)
    → time_instant t ≡ ok (bytes, c)
    → is_typed_value time c ≡ true
unfolding time_instant
time_instant-kind (pos n) bytes c e = guarded (is_typed_value time) _ time_after_limit _ e refl
time_instant-kind (negsuc n) bytes c e = guarded (is_typed_value time) _ time_before_epoch _ e refl

pub time_bytes-kind :
    (v bytes : Bytes) (c : TypedValue) → time_bytes v ≡ ok (bytes, c) → is_typed_value time c ≡ true
unfolding time_bytes
time_bytes-kind (a ∷ b ∷ d ∷ e ∷ []) bytes c h = kept (is_typed_value time) h refl
time_bytes-kind _ bytes c h = cc

pub ip_data-kind :
    (ip bytes : Bytes) (c : TypedValue)
    → ip_data ip ≡ ok (bytes, c)
    → is_typed_value Types.address c ≡ false
unfolding ip_data
ip_data-kind ip bytes c e =
    let (a, _, q) = >>=-eq-ok (new_address_type_from_ip ip) _ e in
    kept (is_typed_value Types.address) q refl

pub grouped-kind :
    (v : AvpSlice) (bytes : Bytes) (c : TypedValue)
    → grouped_data (avp_slice v) ≡ ok (bytes, c)
    → is_typed_value grouped c ≡ true
unfolding grouped_data
grouped-kind v bytes c e =
    let (b, _, q) = >>=-eq-ok (encode_group (to_list v)) _ e in kept (is_typed_value grouped) q refl

-- A value that was converted for a data type: it is allowed but for the values that are taken too, and what
-- is kept has the type of the comments but where it is kept otherwise.
abbrev pub IsConverted : AvpDataType → TypedValue → TypedValue → Type 0
IsConverted t v c =
    (is_source t v ≡ not (is_taken_too t v)) × (is_typed_value t c ≡ not (is_kept_otherwise t v))
