-- ===== src/Typed/Address.antt =====
-- avp.go: `AddressType`, the bytes of an address family number and an address.
use diameterapi.Common.{
  ℕ, Bool, not, ◌&&◌, ◌||◌, ◌==◌, if◌then◌else◌, [], ◌∷◌, ◌++◌, length, take, drop, Option, none,
  some, Outcome, must, ok, panics, ◌>>◌, guard, bad_ip4_length, bad_ip6_length, replicate,
}
use diameterapi.Wire.{Bytes, put_uint16, be16}
use diameterapi.Avp.Codec.{same_bytes}

abbrev pub ip4 : ℕ
ip4 = 1

abbrev pub ip6 : ℕ
ip6 = 2

abbrev pub address_family_number_invalid : ℕ
address_family_number_invalid = 0

unfoldable pub new_address_type_errorable : ℕ → Bytes → Outcome Bytes
new_address_type_errorable family value = do
  guard (not (family == ip4) || length value == 4) bad_ip4_length
  guard (not (family == ip6) || length value == 16) bad_ip6_length
  ok (put_uint16 family ++ value)

-- `NewAddressType`
unfoldable pub new_address_type : ℕ → Bytes → Outcome Bytes
new_address_type family value = must (new_address_type_errorable family value)

abbrev pub ip4_prefix : Bytes
ip4_prefix = replicate 10 0 ++ (0xff ∷ 0xff ∷ [])

-- `net.IP.To4`: the four bytes of an IPv4 address in its short or its long form.
unfoldable pub to4 : Bytes → Option Bytes
to4 ip =
    if length ip == 4
    then some ip
    else if length ip == 16 && same_bytes (take 12 ip) ip4_prefix
    then some (drop 12 ip)
    else none

unfoldable pub new_address_type_from_ip : Bytes → Outcome Bytes
unfolding to4
new_address_type_from_ip ip = elim (to4 ip) [
  | some as_ip4 ↦ ok (put_uint16 ip4 ++ as_ip4)
  | none ↦ if length ip == 16 then ok (put_uint16 ip6 ++ ip) else panics
]

unfoldable pub address : Bytes → Option Bytes
address (_ ∷ _ ∷ rest) = some rest
address (_ ∷ []) = none
address [] = none

-- `Type`
unfoldable pub family_of : Bytes → ℕ
family_of (x ∷ y ∷ _) = be16 x y
family_of (_ ∷ []) = address_family_number_invalid
family_of [] = address_family_number_invalid

unfoldable pub is_an_ip : Bytes → Bool
unfolding family_of
is_an_ip a = family_of a == ip4 || family_of a == ip6

unfoldable pub is_not_an_ip : Bytes → Bool
is_not_an_ip a = not (is_an_ip a)

unfoldable pub to_ip : Bytes → Option Bytes
unfolding family_of
to_ip a =
    if family_of a == ip4
    then (if length a == 6 then some (drop 2 a) else none)
    else if family_of a == ip6
    then (if length a == 18 then some (drop 2 a) else none)
    else none
