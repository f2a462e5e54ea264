-- ===== src/Dictionary/Examples.antt =====
-- The theorems on dictionaries at a small YAML form.
use diameterapi.Common.{
  ◌≡◌, ◌⊎◌, refl, false, [], ◌∷◌, some, none, Outcome, All, ok, err, yaml_type_invalid, arith,
}
use diameterapi.Common.Dict.{ascii, get, put, bytes_key, equal_bytes}
use diameterapi.Message.Types.{Message}
use diameterapi.Wire.{low_24}
use diameterapi.Message.Build.{new_message, add_mandatory_avps, add_additional_avps}
use diameterapi.Message.Examples.{request}
use diameterapi.Typed.Values.{Floats}
use diameterapi.Dictionary.Types.{
  same_code, DictionaryYaml, DictionaryYamlAvpType, DictionaryYamlMessageType, Dictionary,
  DictionaryMessageDescriptor,
}
use diameterapi.Dictionary.Build.{
  type_of_string, add_avp_type, add_avp_types, add_message_type, add_message_types, from_yaml_form,
}
use diameterapi.Dictionary.Queries.{
  MessageFlags, descriptor_of_message, message_code_as_a_string, encode_flags, message_errorable,
}
use diameterapi.Dictionary.Entries.{
  last_value, name_entries, IsDictionaryOf, IsRecognized, from_yaml_form-IsDictionaryOf,
  from_yaml_form_lem,
}
use diameterapi.Dictionary.Naming.{message_code_as_a_string-message_errorable}

abbrev result_code : DictionaryYamlAvpType
result_code = record {
  name = ascii "Result-Code";
  code = 268;
  type_string = ascii "Unsigned32";
  vendor_id = 0;
}

abbrev measured : DictionaryYamlAvpType
measured = record {
  name = ascii "Measured";
  code = 5000;
  type_string = ascii "Float32";
  vendor_id = 7;
}

abbrev capabilities_exchange : DictionaryYamlMessageType
capabilities_exchange = record {
  basename = ascii "Capabilities-Exchange";
  code = 257;
  application_id = 0;
  abbreviations = record { request = ascii "CER"; answer = ascii "CEA" };
}

abbrev device_watchdog : DictionaryYamlMessageType
device_watchdog = record {
  basename = ascii "Device-Watchdog";
  code = 280;
  application_id = 0;
  abbreviations = record { request = ascii "DWR"; answer = ascii "DWA" };
}

abbrev form : DictionaryYaml
form = record {
  avp_types = result_code ∷ [];
  message_types = capabilities_exchange ∷ device_watchdog ∷ [];
}

abbrev wrong_form : DictionaryYaml
wrong_form = record { avp_types = result_code ∷ measured ∷ []; message_types = [] }

abbrev value_of : Outcome Dictionary → Dictionary
value_of (ok d) = d
value_of _ = record {
  message_descriptor_by_name_or_abbreviation = [];
  request_message_descriptor_by_code = [];
  answer_message_descriptor_by_code = [];
  avp_descriptor_by_name = [];
  avp_descriptor_by_fully_qualified_code = [];
}

abbrev base_protocol : Dictionary
unfolding from_yaml_form
base_protocol = value_of (from_yaml_form form)

form_read : from_yaml_form form ≡ ok base_protocol
unfolding base_protocol from_yaml_form type_of_string get bytes_key equal_bytes
form_read = refl

from_yaml_form-IsDictionaryOf_example : IsDictionaryOf form base_protocol
from_yaml_form-IsDictionaryOf_example = from_yaml_form-IsDictionaryOf form base_protocol form_read

from_yaml_form_example :
    (((d : Dictionary) × (from_yaml_form wrong_form ≡ ok d))
      × All IsRecognized wrong_form.avp_types)
    ⊎ ((from_yaml_form wrong_form ≡ err yaml_type_invalid)
        × ¬ All IsRecognized wrong_form.avp_types)
from_yaml_form_example = from_yaml_form_lem wrong_form

abbrev no_flags : MessageFlags
no_flags = record { proxiable = false; error = false; potential_retransmit = false }

abbrev answer : Message
answer = record {
  version = 1;
  length = 20;
  flags = 0;
  code = 257;
  app_id = 0;
  hop_by_hop_id = 0;
  end_to_end_id = 0;
  avps = [];
  extended_attributes = none;
  avp_map = none;
}

answer_made : message_errorable base_protocol (ascii "CEA") no_flags [] [] ≡ ok answer
unfolding base_protocol from_yaml_form type_of_string get bytes_key equal_bytes message_errorable
    add_message_types add_message_type add_avp_types new_message encode_flags put add_avp_type
    add_mandatory_avps add_additional_avps low_24
answer_made = refl

message_code_as_a_string-message_errorable_example :
    (v : DictionaryMessageDescriptor) × (last_value (ascii "CEA") (name_entries form.message_types)
      ≡ some v)
    × (descriptor_of_message base_protocol answer ≡ some v)
    × (message_code_as_a_string base_protocol answer ≡ v.name)
unfolding same_code
message_code_as_a_string-message_errorable_example =
    message_code_as_a_string-message_errorable form base_protocol (ascii "CEA") no_flags [] []
      answer ((refl, tt), (tt, tt)) (omega arith, (omega arith, tt)) form_read answer_made

-- Conversions that give the pattern of 0
abbrev zeros : Floats
zeros = record {
  int_to_float32 = λ _. 0;
  int_to_float64 = λ _. 0;
  uint32_to_float32 = λ _. 0;
  uint64_to_float64 = λ _. 0;
}
