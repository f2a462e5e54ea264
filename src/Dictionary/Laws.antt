-- ===== src/Dictionary/Laws.antt =====
-- What typing a message and making a message by its name leave as it was, and what they set.
use diameterapi.Common.{
  ℕ, ◌≡◌, refl, subst, Bool, true, false, not, ◌==◌, Option-cases, inl, inr, List, map, Option,
  none, some, Outcome, ok, >>=-eq-ok, ok_injective, bit_and,
}
use diameterapi.Common.Dict.{get, bytes_key}
use diameterapi.Wire.{Bytes, low_24}
use diameterapi.Avp.Types.{Avp, absent}
use diameterapi.Message.Types.{
  Message, is_request, is_proxiable, is_error, is_potentially_retransmitted, msg_flag_request,
  msg_flag_proxiable, msg_flag_error, msg_flag_potential_retransmit,
}
use diameterapi.Message.Build.{new_message, add_mandatory_avps, add_additional_avps}
use diameterapi.Dictionary.Types.{Dictionary, DictionaryMessageDescriptor, code_key}
use diameterapi.Dictionary.Queries.{MessageFlags, encode_flags, message_errorable}

-- An AVP pointer without the extended attributes, and a message without what a dictionary sets and
-- without its cache.
abbrev pub forget_avp : Option Avp → Option Avp
forget_avp none = none
forget_avp (some a) = some (record a { extended_attributes = absent })

abbrev pub forget : Message → Message
forget m = record m { avps = map forget_avp m.avps; extended_attributes = none; avp_map = none }

abbrev Forgets : Avp → Avp × Outcome (Unit {0}) → Type 0
Forgets a x = forget_avp (some x.0) ≡ forget_avp (some a)

-- The flags that `MessageErrorable` encodes, as `NewMessage` keeps them, read back.
encode_flags_lem :
    (p e t r : Bool)
    → let flags =
        bit_and
          (encode_flags (record { proxiable = p; error = e; potential_retransmit = t }) r)
          0xf0 in
      (not (bit_and flags msg_flag_request == 0) ≡ r)
      × (not (bit_and flags msg_flag_proxiable == 0) ≡ p)
      × (not (bit_and flags msg_flag_error == 0) ≡ e)
      × (not (bit_and flags msg_flag_potential_retransmit == 0) ≡ t)
unfolding encode_flags
encode_flags_lem true true true true = (refl, refl, refl, refl)
encode_flags_lem true true true false = (refl, refl, refl, refl)
encode_flags_lem true true false true = (refl, refl, refl, refl)
encode_flags_lem true true false false = (refl, refl, refl, refl)
encode_flags_lem true false true true = (refl, refl, refl, refl)
encode_flags_lem true false true false = (refl, refl, refl, refl)
encode_flags_lem true false false true = (refl, refl, refl, refl)
encode_flags_lem true false false false = (refl, refl, refl, refl)
encode_flags_lem false true true true = (refl, refl, refl, refl)
encode_flags_lem false true true false = (refl, refl, refl, refl)
encode_flags_lem false true false true = (refl, refl, refl, refl)
encode_flags_lem false true false false = (refl, refl, refl, refl)
encode_flags_lem false false true true = (refl, refl, refl, refl)
encode_flags_lem false false true false = (refl, refl, refl, refl)
encode_flags_lem false false false true = (refl, refl, refl, refl)
encode_flags_lem false false false false = (refl, refl, refl, refl)

-- A message that `NewMessage` returns has the four flags that it was given, and the code and the
-- application.
abbrev pub IsMade : ℕ → DictionaryMessageDescriptor → Message → Type 0
IsMade flags descriptor m =
    (m.flags ≡ bit_and flags 0xf0)
    × (m.code ≡ low_24 descriptor.code)
    × (m.app_id ≡ descriptor.app_id)

pub new_message-IsMade :
    (flags : ℕ) (descriptor : DictionaryMessageDescriptor) (xs ys : List (Option Avp)) (m : Message)
    → new_message flags descriptor.code descriptor.app_id 0 0 xs ys ≡ ok m
    → IsMade flags descriptor m
unfolding new_message
new_message-IsMade flags descriptor xs ys m e =
    let (x, _, p) = >>=-eq-ok (add_mandatory_avps 20 xs) _ e in
    let (y, _, q) = >>=-eq-ok (add_additional_avps x.0 ys) _ p in
    subst (IsMade flags descriptor) (ok_injective q) (refl, refl, refl)

-- Where `MessageErrorable` returns a message, the name or abbreviation is in the dictionary, and the
-- message is a request exactly if the descriptor is one of a request, has the flags that were asked
-- for, and has the descriptor's code (its low 24 bits) and application.
pub message_errorable_lem :
    (d : Dictionary) (name : Bytes) (flags : MessageFlags) (xs ys : List (Option Avp)) (m : Message)
    → message_errorable d name flags xs ys ≡ ok m
    → (descriptor : DictionaryMessageDescriptor) × (get name
          d.message_descriptor_by_name_or_abbreviation
        ≡ some descriptor)
      × (is_request m ≡ descriptor.is_request_type)
      × (is_proxiable m ≡ flags.proxiable)
      × (is_error m ≡ flags.error)
      × (is_potentially_retransmitted m ≡ flags.potential_retransmit)
      × (m.code ≡ low_24 descriptor.code)
      × (m.app_id ≡ descriptor.app_id)
unfolding message_errorable is_request is_proxiable is_error is_potentially_retransmitted
message_errorable_lem d name flags xs ys m e =
    elim (Option-cases (get name d.message_descriptor_by_name_or_abbreviation)) [
      | inl n ↦ cc (rw n at e)
      | inr (descriptor, n) ↦
          let (f, c, a) =
            new_message-IsMade (encode_flags flags descriptor.is_request_type) descriptor xs ys m
              (rw n at e) in
          let (r, p, w, t) =
            encode_flags_lem flags.proxiable flags.error flags.potential_retransmit
              descriptor.is_request_type in
          (descriptor, n, rw f r, rw f p, rw f w, rw f t, c, a)
    ]
