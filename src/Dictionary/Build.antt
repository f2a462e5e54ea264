-- ===== src/Dictionary/Build.antt =====
-- dictionary.go: `fromYamlForm`.
use diameterapi.Common.{
  true, false, not, ◌==◌, List, [], ◌∷◌, ◌++◌, Option, none, some, Outcome, ok, err, ◌>>=◌,
  yaml_type_invalid,
}
use diameterapi.Common.Dict.{Dict, get, put, bytes_key, ascii}
use diameterapi.Wire.{Bytes}
use diameterapi.Avp.Types.{
  AvpDataType, unsigned32, unsigned64, integer32, integer64, enumerated, octet_string, utf8_string,
  grouped, time, diam_ident, diam_uri,
}
use diameterapi.Avp.Types
use diameterapi.Dictionary.Types.{
  DictionaryYamlAvpType, DictionaryYamlMessageType, DictionaryYaml, DictionaryMessageDescriptor,
  DictionaryAvpDescriptor, FullyQualifiedCode, code_key, Dictionary,
}

-- Float32, Float64 and IPFilterRule are no types of a dictionary.
abbrev pub map_of_yaml_avp_type_string_to_avp_data_type : Dict Bytes AvpDataType
map_of_yaml_avp_type_string_to_avp_data_type =
    (ascii "Unsigned32", unsigned32)
    ∷ (ascii "Unsigned64", unsigned64)
    ∷ (ascii "Integer32", integer32)
    ∷ (ascii "Integer64", integer64)
    ∷ (ascii "Enumerated", enumerated)
    ∷ (ascii "OctetString", octet_string)
    ∷ (ascii "UTF8String", utf8_string)
    ∷ (ascii "Grouped", grouped)
    ∷ (ascii "Address", Types.address)
    ∷ (ascii "Time", time)
    ∷ (ascii "DiamIdent", diam_ident)
    ∷ (ascii "DiamURI", diam_uri)
    ∷ []

-- A type string in the map
unfoldable pub type_of_string : Bytes → Option AvpDataType
type_of_string s = get s map_of_yaml_avp_type_string_to_avp_data_type

abbrev pub avp_descriptor : DictionaryYamlAvpType → AvpDataType → DictionaryAvpDescriptor
avp_descriptor yaml_avp t = record {
  name = yaml_avp.name;
  code = yaml_avp.code;
  is_vendor_specific = not (yaml_avp.vendor_id == 0);
  vendor_id = yaml_avp.vendor_id;
  data_type = t;
}

abbrev pub described : DictionaryYamlAvpType → Option AvpDataType → Outcome DictionaryAvpDescriptor
described yaml_avp (some t) = ok (avp_descriptor yaml_avp t)
described yaml_avp none = err yaml_type_invalid

unfoldable pub convert_yaml_avp_to_dictionary_avp_descriptor :
    DictionaryYamlAvpType → Outcome DictionaryAvpDescriptor
convert_yaml_avp_to_dictionary_avp_descriptor yaml_avp =
    described yaml_avp (type_of_string yaml_avp.type_string)

abbrev pub avp_code_of : DictionaryYamlAvpType → FullyQualifiedCode
avp_code_of yaml_avp = record { owner = yaml_avp.vendor_id; code = yaml_avp.code }

abbrev pub message_code_of : DictionaryYamlMessageType → FullyQualifiedCode
message_code_of yaml_message = record {
  owner = yaml_message.application_id;
  code = yaml_message.code;
}

-- One round of the first loop, behind the conversion
unfoldable pub add_avp_type :
    DictionaryYamlAvpType → DictionaryAvpDescriptor → Dictionary → Dictionary
add_avp_type yaml_avp descriptor d = record d {
  avp_descriptor_by_name = put yaml_avp.name descriptor d.avp_descriptor_by_name;
  avp_descriptor_by_fully_qualified_code =
      put (avp_code_of yaml_avp) descriptor d.avp_descriptor_by_fully_qualified_code;
}

-- The first loop
unfoldable pub add_avp_types : List DictionaryYamlAvpType → Dictionary → Outcome Dictionary
unfolding convert_yaml_avp_to_dictionary_avp_descriptor
add_avp_types [] d = ok d
add_avp_types (yaml_avp ∷ avp_types) d = do
  descriptor ← convert_yaml_avp_to_dictionary_avp_descriptor yaml_avp
  add_avp_types avp_types (add_avp_type yaml_avp descriptor d)

abbrev pub request_name : DictionaryYamlMessageType → Bytes
request_name t = t.basename ++ ascii "-Request"

abbrev pub answer_name : DictionaryYamlMessageType → Bytes
answer_name t = t.basename ++ ascii "-Answer"

abbrev pub request_descriptor : DictionaryYamlMessageType → DictionaryMessageDescriptor
request_descriptor t = record {
  name = request_name t;
  abbreviation = t.abbreviations.request;
  code = t.code;
  app_id = t.application_id;
  is_request_type = true;
}

abbrev pub answer_descriptor : DictionaryYamlMessageType → DictionaryMessageDescriptor
answer_descriptor t = record {
  name = answer_name t;
  abbreviation = t.abbreviations.answer;
  code = t.code;
  app_id = t.application_id;
  is_request_type = false;
}

-- One round of the second loop: the request, and then the answer.
unfoldable pub add_message_type : DictionaryYamlMessageType → Dictionary → Dictionary
add_message_type t d =
    let by_name = d.message_descriptor_by_name_or_abbreviation in
    let with_request =
      put t.abbreviations.request (request_descriptor t)
        (put (request_name t) (request_descriptor t) by_name) in
    record d {
      message_descriptor_by_name_or_abbreviation =
          put t.abbreviations.answer (answer_descriptor t)
            (put (answer_name t) (answer_descriptor t) with_request);
      request_message_descriptor_by_code =
          put (message_code_of t) (request_descriptor t) d.request_message_descriptor_by_code;
      answer_message_descriptor_by_code =
          put (message_code_of t) (answer_descriptor t) d.answer_message_descriptor_by_code;
    }

unfoldable pub add_message_types : List DictionaryYamlMessageType → Dictionary → Dictionary
add_message_types [] d = d
add_message_types (t ∷ message_types) d = add_message_types message_types (add_message_type t d)

abbrev pub empty_dictionary : Dictionary
empty_dictionary = record {
  message_descriptor_by_name_or_abbreviation = [];
  request_message_descriptor_by_code = [];
  answer_message_descriptor_by_code = [];
  avp_descriptor_by_name = [];
  avp_descriptor_by_fully_qualified_code = [];
}

unfoldable pub from_yaml_form : DictionaryYaml → Outcome Dictionary
unfolding add_avp_types add_message_types
from_yaml_form yaml_form = do
  d ← add_avp_types yaml_form.avp_types empty_dictionary
  ok (add_message_types yaml_form.message_types d)

-- `DictionaryFromYamlString`, with the YAML parser as a parameter
unfoldable pub dictionary_from_yaml_string :
    (Bytes → Outcome DictionaryYaml) → Bytes → Outcome Dictionary
dictionary_from_yaml_string unmarshal yaml_string = do
  dictionary_yaml ← unmarshal yaml_string
  from_yaml_form dictionary_yaml

-- `DictionaryFromYamlFile`, with `os.ReadFile` as a parameter
unfoldable pub dictionary_from_yaml_file :
    (Bytes → Outcome Bytes) → (Bytes → Outcome DictionaryYaml) → Bytes → Outcome Dictionary
unfolding dictionary_from_yaml_string
dictionary_from_yaml_file read_file unmarshal filepath = do
  contents_of_file_as_string ← read_file filepath
  dictionary_from_yaml_string unmarshal contents_of_file_as_string
