-- ===== src/Typed/Converted.antt =====
-- The values that `NewTypedAVPErrorable` takes, and those that it keeps, for each data type.
use diameterapi.Common.{◌≡◌, refl, ok, not_utf8, negative_time}
use diameterapi.Wire.{Bytes}
use diameterapi.Avp.Types.{
  AvpDataType, TypedValue, AvpSlice, to_list, unsigned32, unsigned64, integer32, integer64, float32,
  float64, enumerated, utf8_string, octet_string, time, diam_ident, diam_uri, grouped,
  ip_filter_rule, type_or_avp_unknown, uint32, uint64, uint, int32, int64, int, float32_bits,
  float64_bits, string, byte_slice, rune_slice, time_value, time_pointer, address_type,
  address_type_pointer, net_ip, net_ip_pointer, net_ip_addr, net_ip_addr_pointer, avp_slice, other,
}
use diameterapi.Avp.Types
use diameterapi.Typed.Values.{
  Floats, typed_data, unsigned32_data, unsigned64_data, integer32_data, integer64_data,
  float32_data, float64_data, utf8_string_data, octet_string_data, time_data, address_data,
  diam_string_data, grouped_data, ip_filter_rule_data,
}
use diameterapi.Typed.Kinds.{
  is_typed_value, IsConverted, kept, guarded, time_instant-kind, time_bytes-kind, ip_data-kind,
  grouped-kind,
}

unsigned32_kind :
    (v c : TypedValue) (bytes : Bytes)
    → unsigned32_data v ≡ ok (bytes, c)
    → IsConverted unsigned32 v c
unfolding unsigned32_data
unsigned32_kind (uint32 x) c bytes e = (refl, kept (is_typed_value unsigned32) e refl)
unsigned32_kind (int x) c bytes e = (refl, kept (is_typed_value unsigned32) e refl)
unsigned32_kind _ c bytes e = cc

unsigned64_kind :
    (v c : TypedValue) (bytes : Bytes)
    → unsigned64_data v ≡ ok (bytes, c)
    → IsConverted unsigned64 v c
unfolding unsigned64_data
unsigned64_kind (uint64 x) c bytes e = (refl, kept (is_typed_value unsigned64) e refl)
unsigned64_kind (uint32 x) c bytes e = (refl, kept (is_typed_value unsigned64) e refl)
unsigned64_kind (uint x) c bytes e = (refl, kept (is_typed_value unsigned64) e refl)
unsigned64_kind (int x) c bytes e = (refl, kept (is_typed_value unsigned64) e refl)
unsigned64_kind _ c bytes e = cc

integer32_kind :
    (v c : TypedValue) (bytes : Bytes)
    → integer32_data v ≡ ok (bytes, c)
    → IsConverted integer32 v c
unfolding integer32_data
integer32_kind (int32 x) c bytes e = (refl, kept (is_typed_value integer32) e refl)
integer32_kind (int x) c bytes e = (refl, kept (is_typed_value integer32) e refl)
integer32_kind _ c bytes e = cc

integer64_kind :
    (v c : TypedValue) (bytes : Bytes)
    → integer64_data v ≡ ok (bytes, c)
    → IsConverted integer64 v c
unfolding integer64_data
integer64_kind (int64 x) c bytes e = (refl, kept (is_typed_value integer64) e refl)
integer64_kind (int x) c bytes e = (refl, kept (is_typed_value integer64) e refl)
integer64_kind (int32 x) c bytes e = (refl, kept (is_typed_value integer64) e refl)
integer64_kind _ c bytes e = cc

float32_kind :
    (floats : Floats) (v c : TypedValue) (bytes : Bytes)
    → float32_data floats v ≡ ok (bytes, c)
    → IsConverted float32 v c
unfolding float32_data
float32_kind floats (float32_bits x) c bytes e = (refl, kept (is_typed_value float32) e refl)
float32_kind floats (int x) c bytes e = (refl, kept (is_typed_value float32) e refl)
float32_kind floats _ c bytes e = cc

float64_kind :
    (floats : Floats) (v c : TypedValue) (bytes : Bytes)
    → float64_data floats v ≡ ok (bytes, c)
    → IsConverted float64 v c
unfolding float64_data
float64_kind floats (float32_bits x) c bytes e = (refl, kept (is_typed_value float64) e refl)
float64_kind floats (float64_bits x) c bytes e = (refl, kept (is_typed_value float64) e refl)
float64_kind floats (int x) c bytes e = (refl, kept (is_typed_value float64) e refl)
float64_kind floats _ c bytes e = cc

utf8_string_kind :
    (v c : TypedValue) (bytes : Bytes)
    → utf8_string_data v ≡ ok (bytes, c)
    → IsConverted utf8_string v c
unfolding utf8_string_data
utf8_string_kind (string x) c bytes e =
    (refl, guarded (is_typed_value utf8_string) _ not_utf8 _ e refl)
utf8_string_kind (byte_slice x) c bytes e =
    (refl, guarded (is_typed_value utf8_string) _ not_utf8 _ e refl)
utf8_string_kind (rune_slice x) c bytes e =
    (refl, guarded (is_typed_value utf8_string) _ not_utf8 _ e refl)
utf8_string_kind _ c bytes e = cc

octet_string_kind :
    (v c : TypedValue) (bytes : Bytes)
    → octet_string_data v ≡ ok (bytes, c)
    → IsConverted octet_string v c
unfolding octet_string_data
octet_string_kind (byte_slice x) c bytes e = (refl, kept (is_typed_value octet_string) e refl)
octet_string_kind (string x) c bytes e = (refl, kept (is_typed_value octet_string) e refl)
octet_string_kind _ c bytes e = cc

time_kind : (v c : TypedValue) (bytes : Bytes) → time_data v ≡ ok (bytes, c) → IsConverted time v c
unfolding time_data
time_kind (time_value x) c bytes e = (refl, time_instant-kind x bytes c e)
time_kind (time_pointer x) c bytes e = (refl, time_instant-kind x bytes c e)
time_kind (byte_slice x) c bytes e = (refl, time_bytes-kind x bytes c e)
time_kind (uint32 x) c bytes e = (refl, kept (is_typed_value time) e refl)
time_kind (int x) c bytes e = (refl, guarded (is_typed_value time) _ negative_time _ e refl)
time_kind _ c bytes e = cc

address_kind :
    (v c : TypedValue) (bytes : Bytes)
    → address_data v ≡ ok (bytes, c)
    → IsConverted Types.address v c
unfolding address_data
address_kind (address_type x) c bytes e = (refl, kept (is_typed_value Types.address) e refl)
address_kind (address_type_pointer x) c bytes e = (refl, kept (is_typed_value Types.address) e refl)
address_kind (net_ip x) c bytes e = (refl, ip_data-kind x bytes c e)
address_kind (net_ip_pointer x) c bytes e = (refl, ip_data-kind x bytes c e)
address_kind (net_ip_addr x) c bytes e = (refl, ip_data-kind x bytes c e)
address_kind (net_ip_addr_pointer x) c bytes e = (refl, ip_data-kind x bytes c e)
address_kind _ c bytes e = cc

diam_ident_kind :
    (v c : TypedValue) (bytes : Bytes)
    → diam_string_data v ≡ ok (bytes, c)
    → IsConverted diam_ident v c
unfolding diam_string_data
diam_ident_kind (string x) c bytes e = (refl, kept (is_typed_value diam_ident) e refl)
diam_ident_kind _ c bytes e = cc

grouped_kind :
    (v c : TypedValue) (bytes : Bytes) → grouped_data v ≡ ok (bytes, c) → IsConverted grouped v c
unfolding grouped_data
grouped_kind (avp_slice x) c bytes e = (refl, grouped-kind x bytes c e)
grouped_kind _ c bytes e = cc

ip_filter_rule_kind :
    (v c : TypedValue) (bytes : Bytes)
    → ip_filter_rule_data v ≡ ok (bytes, c)
    → IsConverted ip_filter_rule v c
unfolding ip_filter_rule_data
ip_filter_rule_kind (string x) c bytes e = (refl, kept (is_typed_value ip_filter_rule) e refl)
ip_filter_rule_kind (byte_slice x) c bytes e = (refl, kept (is_typed_value ip_filter_rule) e refl)
ip_filter_rule_kind _ c bytes e = cc

-- Where `NewTypedAVPErrorable` takes a value for a data type, the value has one of the source types that
-- the comments on the data types allow, unless it is a byte slice for a Time; and the typed value that is
-- kept has the type of the comments exactly if the data type is neither Address nor IPFilterRule and the
-- value is not a float32 for a Float64.
pub typed_data-IsConverted :
    (floats : Floats) (t : AvpDataType) (v c : TypedValue) (bytes : Bytes)
    → typed_data floats t v ≡ ok (bytes, c)
    → IsConverted t v c
unfolding typed_data
typed_data-IsConverted floats unsigned32 v c bytes e = unsigned32_kind v c bytes e
typed_data-IsConverted floats unsigned64 v c bytes e = unsigned64_kind v c bytes e
typed_data-IsConverted floats integer32 v c bytes e = integer32_kind v c bytes e
typed_data-IsConverted floats integer64 v c bytes e = integer64_kind v c bytes e
typed_data-IsConverted floats float32 v c bytes e = float32_kind floats v c bytes e
typed_data-IsConverted floats float64 v c bytes e = float64_kind floats v c bytes e
typed_data-IsConverted floats enumerated v c bytes e = integer32_kind v c bytes e
typed_data-IsConverted floats utf8_string v c bytes e = utf8_string_kind v c bytes e
typed_data-IsConverted floats octet_string v c bytes e = octet_string_kind v c bytes e
typed_data-IsConverted floats time v c bytes e = time_kind v c bytes e
typed_data-IsConverted floats Types.address v c bytes e = address_kind v c bytes e
typed_data-IsConverted floats diam_ident v c bytes e = diam_ident_kind v c bytes e
typed_data-IsConverted floats diam_uri v c bytes e = diam_ident_kind v c bytes e
typed_data-IsConverted floats grouped v c bytes e = grouped_kind v c bytes e
typed_data-IsConverted floats ip_filter_rule v c bytes e = ip_filter_rule_kind v c bytes e
typed_data-IsConverted floats type_or_avp_unknown v c bytes e = cc
