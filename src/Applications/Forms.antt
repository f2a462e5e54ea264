-- ===== src/Applications/Forms.antt =====
-- The dictionaries and the identity of the examples.
use diameterapi.Common.{[], ◌∷◌, Outcome, ok}
use diameterapi.Common.Dict.{ascii, bytes_key}
use diameterapi.Typed.Values.{Floats}
use diameterapi.Dictionary.Types.{DictionaryYaml, Dictionary, code_key}
use diameterapi.Dictionary.Build.{from_yaml_form, empty_dictionary}
use diameterapi.Agent.Identity.{DiameterEntity, empty_cache}

abbrev pub zeros : Floats
zeros = record {
  int_to_float32 = λ _. 0;
  int_to_float64 = λ _. 0;
  uint32_to_float32 = λ _. 0;
  uint64_to_float64 = λ _. 0;
}

abbrev pub client : DiameterEntity
client = record {
  origin_host = ascii "client.example.com";
  origin_realm = ascii "example.com";
  host_ip_addresses = [];
  vendor_id = 0;
  product_name = ascii "diameter-go";
  cache = empty_cache;
}

abbrev server_form : DictionaryYaml
server_form = record {
  avp_types =
      record {
        name = ascii "Origin-Host";
        code = 264;
        type_string = ascii "DiamIdent";
        vendor_id = 0;
      }
      ∷ record {
        name = ascii "Origin-Realm";
        code = 296;
        type_string = ascii "DiamIdent";
        vendor_id = 0;
      }
      ∷ record {
        name = ascii "Result-Code";
        code = 268;
        type_string = ascii "Unsigned32";
        vendor_id = 0;
      }
      ∷ [];
  message_types =
      record {
        basename = ascii "Credit-Control";
        code = 272;
        application_id = 0;
        abbreviations = record { request = ascii "CCR"; answer = ascii "CCA" };
      }
      ∷ [];
}

abbrev dictionary_of : Outcome Dictionary → Dictionary
dictionary_of (ok d) = d
dictionary_of _ = empty_dictionary

unfoldable pub server_dictionary : Dictionary
unfolding from_yaml_form
server_dictionary = dictionary_of (from_yaml_form server_form)

abbrev client_form : DictionaryYaml
client_form = record {
  avp_types =
      record {
        name = ascii "Session-Id";
        code = 263;
        type_string = ascii "UTF8String";
        vendor_id = 0;
      }
      ∷ record {
        name = ascii "Origin-Host";
        code = 264;
        type_string = ascii "DiamIdent";
        vendor_id = 0;
      }
      ∷ record {
        name = ascii "Origin-Realm";
        code = 296;
        type_string = ascii "DiamIdent";
        vendor_id = 0;
      }
      ∷ record {
        name = ascii "Destination-Realm";
        code = 283;
        type_string = ascii "DiamIdent";
        vendor_id = 0;
      }
      ∷ record {
        name = ascii "Auth-Application-Id";
        code = 258;
        type_string = ascii "Unsigned32";
        vendor_id = 0;
      }
      ∷ [];
  message_types = server_form.message_types;
}

unfoldable pub client_dictionary : Dictionary
unfolding from_yaml_form
client_dictionary = dictionary_of (from_yaml_form client_form)
