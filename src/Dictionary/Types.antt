-- ===== src/Dictionary/Types.antt =====
-- The types of dictionary.go. The parsed YAML form is what `yaml.Unmarshal` fills; the metadata and
-- the enumerations are not read.
use diameterapi.Common.{ℕ, ◌≡◌, ◌↔◌, Bool, true, ◌&&◌, ◌==◌, List, arith}
use diameterapi.Common.Dict.{Key, Dict}
use diameterapi.Wire.{Bytes}
use diameterapi.Avp.Types.{AvpDataType}

pub record DictionaryYamlAvpType : Type 0 where
  pub name : Bytes
  pub code : ℕ  -- uint32
  pub type_string : Bytes
  pub vendor_id : ℕ  -- uint32

pub record DictionaryYamlMessageAbbreviation : Type 0 where
  pub request : Bytes
  pub answer : Bytes

pub record DictionaryYamlMessageType : Type 0 where
  pub basename : Bytes
  pub code : ℕ  -- uint32
  pub application_id : ℕ  -- uint32
  pub abbreviations : DictionaryYamlMessageAbbreviation

pub record DictionaryYaml : Type 0 where
  pub avp_types : List DictionaryYamlAvpType
  pub message_types : List DictionaryYamlMessageType

pub record DictionaryMessageDescriptor : Type 0 where
  pub name : Bytes
  pub abbreviation : Bytes
  pub code : ℕ
  pub app_id : ℕ
  pub is_request_type : Bool

pub record DictionaryAvpDescriptor : Type 0 where
  pub name : Bytes
  pub code : ℕ
  pub is_vendor_specific : Bool
  pub vendor_id : ℕ
  pub data_type : AvpDataType

-- `avpFullyQualifiedCodeType` with the vendor id, and `messageFullyQualifiedCodeType` with the
-- application id.
pub record FullyQualifiedCode : Type 0 where
  pub owner : ℕ
  pub code : ℕ

unfoldable pub same_code : FullyQualifiedCode → FullyQualifiedCode → Bool
same_code j k = j.owner == k.owner && j.code == k.code

pub same_code_iff : (j k : FullyQualifiedCode) → (same_code j k ≡ true) ↔ (j ≡ k)
unfolding same_code
same_code_iff j k = ground arith

instance unfoldable pub code_key : Key FullyQualifiedCode
code_key = record { test = same_code; test_iff = same_code_iff }

pub record Dictionary : Type 0 where
  pub message_descriptor_by_name_or_abbreviation : Dict Bytes DictionaryMessageDescriptor
  pub request_message_descriptor_by_code : Dict FullyQualifiedCode DictionaryMessageDescriptor
  pub answer_message_descriptor_by_code : Dict FullyQualifiedCode DictionaryMessageDescriptor
  pub avp_descriptor_by_name : Dict Bytes DictionaryAvpDescriptor
  pub avp_descriptor_by_fully_qualified_code : Dict FullyQualifiedCode DictionaryAvpDescriptor
