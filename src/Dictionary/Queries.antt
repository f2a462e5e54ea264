-- ===== src/Dictionary/Queries.antt =====
-- dictionary.go: lookups by name and by code, and the making of AVPs and messages.
use diameterapi.Common.{
  ℕ, bit_or, Bool, if◌then◌else◌, List, [], Option, none, some, must, Outcome, ok, err, ◌>>=◌,
  avp_not_in_dictionary, message_not_in_dictionary,
}
use diameterapi.Common.Dict.{get, bytes_key}
use diameterapi.Wire.{Bytes}
use diameterapi.Avp.Types.{Avp, AvpDataType, TypedValue, type_or_avp_unknown}
use diameterapi.Message.Types.{
  Message, is_request, msg_flag_request, msg_flag_proxiable, msg_flag_error,
  msg_flag_potential_retransmit,
}
use diameterapi.Message.Build.{new_message}
use diameterapi.Typed.Values.{Floats, new_typed_avp_errorable}
use diameterapi.Dictionary.Types.{
  Dictionary, DictionaryMessageDescriptor, DictionaryAvpDescriptor, FullyQualifiedCode, code_key,
}

abbrev pub avp_code : Avp → FullyQualifiedCode
avp_code a = record { owner = a.vendor_id; code = a.code }

abbrev pub message_code : Message → FullyQualifiedCode
message_code m = record { owner = m.app_id; code = m.code }

-- The descriptor of a message by its application, code and request flag
unfoldable pub descriptor_of_message : Dictionary → Message → Option DictionaryMessageDescriptor
descriptor_of_message d m =
    if is_request m
    then get (message_code m) d.request_message_descriptor_by_code
    else get (message_code m) d.answer_message_descriptor_by_code

abbrev name_or_empty : Option DictionaryMessageDescriptor → Bytes
name_or_empty (some descriptor) = descriptor.name
name_or_empty none = []

unfoldable pub message_code_as_a_string : Dictionary → Message → Bytes
unfolding descriptor_of_message
message_code_as_a_string d m = name_or_empty (descriptor_of_message d m)

abbrev found_avp : Option DictionaryAvpDescriptor → Outcome DictionaryAvpDescriptor
found_avp (some descriptor) = ok descriptor
found_avp none = err avp_not_in_dictionary

-- The type that stands beside the error is `TypeOrAvpUnknown`.
unfoldable pub data_type_for_avp_named : Dictionary → Bytes → Outcome AvpDataType
data_type_for_avp_named d name = do
  descriptor ← found_avp (get name d.avp_descriptor_by_name)
  ok descriptor.data_type

abbrev pub type_or_unknown : Option DictionaryAvpDescriptor → AvpDataType
type_or_unknown (some descriptor) = descriptor.data_type
type_or_unknown none = type_or_avp_unknown

unfoldable pub data_type_for_avp : Dictionary → Avp → AvpDataType
data_type_for_avp d avp =
    type_or_unknown (get (avp_code avp) d.avp_descriptor_by_fully_qualified_code)

module _ (floats : Floats) where
  unfoldable pub avp_errorable : Dictionary → Bytes → TypedValue → Outcome Avp
  avp_errorable d name value = do
    descriptor ← found_avp (get name d.avp_descriptor_by_name)
    new_typed_avp_errorable floats descriptor.code descriptor.vendor_id Bool.false
        descriptor.data_type value

  -- `AVP`
  unfoldable pub dictionary_avp : Dictionary → Bytes → TypedValue → Outcome Avp
  dictionary_avp d name value = must (avp_errorable d name value)

pub record MessageFlags : Type 0 where
  pub proxiable : Bool
  pub error : Bool
  pub potential_retransmit : Bool

abbrev pub set_if : Bool → ℕ → ℕ → ℕ
set_if b flag flags = if b then bit_or flags flag else flags

unfoldable pub encode_flags : MessageFlags → Bool → ℕ
encode_flags flags is_request_type = set_if is_request_type msg_flag_request (
    set_if flags.proxiable msg_flag_proxiable (
      set_if flags.error msg_flag_error
        (set_if flags.potential_retransmit msg_flag_potential_retransmit 0)))

abbrev pub found_message : Option DictionaryMessageDescriptor → Outcome DictionaryMessageDescriptor
found_message (some descriptor) = ok descriptor
found_message none = err message_not_in_dictionary

unfoldable pub message_errorable :
    Dictionary → Bytes → MessageFlags → List (Option Avp) → List (Option Avp) → Outcome Message
message_errorable d name flags mandatory_avps additional_avps = do
  descriptor ← found_message (get name d.message_descriptor_by_name_or_abbreviation)
  new_message (encode_flags flags descriptor.is_request_type) descriptor.code descriptor.app_id 0 0
      mandatory_avps additional_avps

-- `Message`
unfoldable pub dictionary_message :
    Dictionary → Bytes → MessageFlags → List (Option Avp) → List (Option Avp) → Outcome Message
dictionary_message d name flags mandatory_avps additional_avps =
    must (message_errorable d name flags mandatory_avps additional_avps)
