-- ===== src/Typed/Texts.antt =====
-- Slices of runes and addresses, as avp.go writes and reads them.
use diameterapi.Common.{
  ℕ, ◌^◌, ◌<◌, ◌≡◌, refl, subst, length-drop, Option-cases, inl, inr, true, ◌++◌, length, none,
  some, ok, arith,
}
use diameterapi.Wire.{Bytes, put_uint16, be16, be16-put}
use diameterapi.Typed.Address.{
  to4, new_address_type_from_ip, new_address_type_errorable, address, family_of, is_an_ip, to_ip,
}

to4_length : (ip x : Bytes) → to4 ip ≡ some x → length x ≡ 4
unfolding to4
to4_length ip x e = ground (arith, length-drop 12 ip)

abbrev IsRead : Bytes → Bytes → Type 0
IsRead a ip = (is_an_ip a ≡ true) × (to_ip a ≡ some ip)

IsRead-ip4 : (x : Bytes) → length x ≡ 4 → IsRead (put_uint16 1 ++ x) x
unfolding to_ip is_an_ip family_of put_uint16 be16
IsRead-ip4 x h = (refl, ground (arith, h))

IsRead-ip6 : (x : Bytes) → length x ≡ 16 → IsRead (put_uint16 2 ++ x) x
unfolding to_ip is_an_ip family_of put_uint16 be16
IsRead-ip6 x h = (refl, ground (arith, h))

-- The address that an IP address is written as is an IP address again: the four bytes of an IPv4
-- address, in whichever form it was given, or else the sixteen bytes themselves.
pub to_ip-new_address_type_from_ip :
    (ip a : Bytes)
    → new_address_type_from_ip ip ≡ ok a
    → (is_an_ip a ≡ true) × (to_ip a ≡ some (elim (to4 ip) [ some as_ip4 ↦ as_ip4 | none ↦ ip ]))
unfolding new_address_type_from_ip
to_ip-new_address_type_from_ip ip a e = elim (Option-cases (to4 ip)) [
  | inl n ↦
      let (long, same) : (length ip ≡ 16) × (put_uint16 2 ++ ip ≡ a) = ground (arith, n, e) in
      rw n (subst (λ (t : Bytes). IsRead t ip) same (IsRead-ip6 ip long))
  | inr (x, n) ↦
      let same : put_uint16 1 ++ x ≡ a = ground (arith, n, e) in
      rw n (subst (λ (t : Bytes). IsRead t x) same (IsRead-ip4 x (to4_length ip x n)))
]

-- From the address that `NewAddressTypeErrorable` makes for a family number of 16 bits, `Type` gives
-- back the number and `Address` the value.
pub new_address_type_errorable_lem :
    (family : ℕ) (value a : Bytes)
    → family < 2 ^ 16
    → new_address_type_errorable family value ≡ ok a
    → (family_of a ≡ family) × (address a ≡ some value)
unfolding new_address_type_errorable family_of address put_uint16 be16
new_address_type_errorable_lem family value a h e = ground (arith, be16-put family h)
