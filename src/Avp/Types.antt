-- ===== src/Avp/Types.antt =====
-- The types of avp.go. A pointer that may be nil is an `Option`; a Go string is its bytes.
use diameterapi.Common.{ℕ, Bool, List, [], ◌∷◌, Option, none, some}
use diameterapi.Common.Int.{ℤ}
use diameterapi.Wire.{Bytes}

pub data AvpDataType : Type 0 where
  unsigned32 unsigned64 integer32 integer64 float32 float64 enumerated : AvpDataType
  utf8_string octet_string time address diam_ident diam_uri grouped : AvpDataType
  ip_filter_rule type_or_avp_unknown : AvpDataType

mutual
  -- The dynamic type and value of an `interface{}`. An integer is its two's complement bit
  -- pattern of the type's width (64 bits for `int` and `uint`), a float its IEEE 754 pattern, a
  -- time the nanoseconds since 1900. `other` is a value of any other type, nil among them.
  pub data TypedValue : Type 0 where
    uint32 : ℕ → TypedValue
    uint64 : ℕ → TypedValue
    uint : ℕ → TypedValue
    int32 : ℕ → TypedValue
    int64 : ℕ → TypedValue
    int : ℕ → TypedValue
    float32_bits : ℕ → TypedValue
    float64_bits : ℕ → TypedValue
    string : Bytes → TypedValue
    byte_slice : Bytes → TypedValue
    rune_slice : List ℕ → TypedValue
    time_value : ℤ → TypedValue
    time_pointer : ℤ → TypedValue
    address_type : Bytes → TypedValue
    address_type_pointer : Bytes → TypedValue
    net_ip : Bytes → TypedValue
    net_ip_pointer : Bytes → TypedValue
    net_ip_addr : Bytes → TypedValue
    net_ip_addr_pointer : Bytes → TypedValue
    avp_slice : AvpSlice → TypedValue
    other : TypedValue

  -- `*AVPExtendedAttributes`: nil, or the name, the data type and the typed value.
  pub data ExtendedAttributes : Type 0 where
    absent : ExtendedAttributes
    attributes : Bytes → AvpDataType → TypedValue → ExtendedAttributes

  -- `[]*AVP` inside a typed value: the fields of each AVP in the order of `Avp` below.
  pub data AvpSlice : Type 0 where
    empty : AvpSlice
    nil_pointer : AvpSlice → AvpSlice
    avp : ℕ → Bool → Bool → Bool → ℕ → Bytes → ℕ → ℕ → ExtendedAttributes → AvpSlice → AvpSlice

-- `AVP`. `Data` is `payload`. `Length` and `PaddedLength` are Go ints that every constructor and
-- the decoder set to numbers that are not negative.
pub record Avp : Type 0 where
  pub code : ℕ  -- uint32
  pub vendor_specific : Bool
  pub mandatory : Bool
  pub protected : Bool
  pub vendor_id : ℕ  -- uint32
  pub payload : Bytes
  pub length : ℕ
  pub padded_length : ℕ
  pub extended_attributes : ExtendedAttributes

-- The two forms of `[]*AVP`.
unfoldable pub to_list : AvpSlice → List (Option Avp)
to_list empty = []
to_list (nil_pointer rest) = none ∷ to_list rest
to_list (avp c v m p i d l pl e rest) =
    some (record {
      code = c;
      vendor_specific = v;
      mandatory = m;
      protected = p;
      vendor_id = i;
      payload = d;
      length = l;
      padded_length = pl;
      extended_attributes = e;
    })
    ∷ to_list rest

unfoldable pub of_list : List (Option Avp) → AvpSlice
of_list [] = empty
of_list (none ∷ rest) = nil_pointer (of_list rest)
of_list (some a ∷ rest) =
    avp a.code a.vendor_specific a.mandatory a.protected a.vendor_id a.payload a.length
      a.padded_length a.extended_attributes (of_list rest)
