-- ===== src/Message/Types.antt =====
-- The types of message.go.
use diameterapi.Common.{ℕ, List, Option, bit_and, Bool, not, ◌==◌}
use diameterapi.Wire.{Bytes}
use diameterapi.Avp.Types.{Avp}
use diameterapi.Avp.Lookup.{AvpMap}

abbrev pub msg_flag_none : ℕ
msg_flag_none = 0x00

abbrev pub msg_flag_request : ℕ
msg_flag_request = 0x80

abbrev pub msg_flag_proxiable : ℕ
msg_flag_proxiable = 0x40

abbrev pub msg_flag_error : ℕ
msg_flag_error = 0x20

abbrev pub msg_flag_potential_retransmit : ℕ
msg_flag_potential_retransmit = 0x10

abbrev pub msg_header_size : ℕ
msg_header_size = 20

pub record MessageExtendedAttributes : Type 0 where
  pub name : Bytes
  pub abbreviated_name : Bytes

-- `Message`. A `Uint24` is a uint32 in Go. `avp_map` is the cache `mapOfAvpsByVendorAndCode`, nil
-- until a lookup fills it.
pub record Message : Type 0 where
  pub version : ℕ  -- uint8
  pub length : ℕ  -- Uint24
  pub flags : ℕ  -- uint8
  pub code : ℕ  -- Uint24
  pub app_id : ℕ  -- uint32
  pub hop_by_hop_id : ℕ  -- uint32
  pub end_to_end_id : ℕ  -- uint32
  pub avps : List (Option Avp)
  pub extended_attributes : Option MessageExtendedAttributes
  pub avp_map : Option AvpMap

unfoldable pub is_request : Message → Bool
is_request m = not (bit_and m.flags msg_flag_request == 0)

unfoldable pub is_answer : Message → Bool
is_answer m = not (is_request m)

unfoldable pub is_proxiable : Message → Bool
is_proxiable m = not (bit_and m.flags msg_flag_proxiable == 0)

unfoldable pub is_error : Message → Bool
is_error m = not (bit_and m.flags msg_flag_error == 0)

unfoldable pub is_potentially_retransmitted : Message → Bool
is_potentially_retransmitted m = not (bit_and m.flags msg_flag_potential_retransmit == 0)
