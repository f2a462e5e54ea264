-- ===== src/Agent/Greetings.antt =====
-- The first messages of a connection, and the answer to a watchdog request, at concrete inputs.
use diameterapi.Sequence.Generators.{
  next_hop_by_hop_id, next_end_to_end_id, hop_by_hop_next, end_to_end_next,
}
use diameterapi.Typed.Convert.{convert_avp_data_to_typed_data, exactly_4, convert_address}
use diameterapi.Avp.Lookup.{generate_map, lookup, insert, add_avp, add_avps, same_key}
use diameterapi.Message.Query.{
  number_of_top_level_avps_matching, top_level_avps_matching, first_avp_matching, with_map,
}
use diameterapi.Avp.Codec.{encode, encode_pointer, flags_of, same_bytes}
use diameterapi.Message.Codec.{encode_message, encode_avps}
use diameterapi.Wire.{low_24, put_uint32, put_uint16, join_24, be32, be16, u32}
use diameterapi.Message.Build.{
  new_message, add_mandatory_avps, add_additional_avps, generate_matching_response,
}
use diameterapi.Typed.Utf8.{utf8_valid, valid_from, lead}
use diameterapi.Typed.Address.{new_address_type_from_ip, to4}
use diameterapi.Common.{
  ℕ, ◌≡◌, refl, Bool, true, false, List, [], ◌∷◌, Option, some, none, Outcome, ok, value_or,
  succeeds, succeeds_lem, ap, ◌∙◌, arith,
}
use diameterapi.Wire.{Bytes}
use diameterapi.Avp.Types.{Avp, absent}
use diameterapi.Message.Types.{Message, is_request}
use diameterapi.Typed.Values.{
  Floats, new_typed_avp, new_typed_avp_errorable, typed_data, with_padding, diam_string_data,
  address_data, ip_data, unsigned32_data, utf8_string_data,
}
use diameterapi.Agent.Identity.{
  DiameterEntity, Peer, empty_cache, capabilities_exchange_mandatory_avps, origin_host_avp,
  origin_realm_avp, host_ip_address_avps, address_avps, vendor_id_avp, product_name_avp,
  diameter_entity_from_capabilities_exchange_message, exactly_one_of_each, addresses_of, ip_of,
}
use diameterapi.Agent.Manager.{
  PeerStateManager, connected, generate_cer, generate_request, write, written,
  message_is_a_diameter_connection_state_message, generate_dwa, generate_answer,
  origin_avps_with_result_code, origin_avps, cached_response_code_2001,
}
use diameterapi.Agent.States.{Reaction, stays, dwr, process_incoming, process_incoming_dwr}
use diameterapi.Agent.Accepting.{new_manager}
use diameterapi.Agent.Run.{
  incoming, transport_was_opened_locally, execute, execute_transport_opened_locally, receive_cea,
}
use diameterapi.Agent.Answering.{AnswersAtMost, process_incoming-AnswersAtMost}
use diameterapi.Agent.Establishing.{IsIdentified, execute-IsIdentified}

abbrev zeros : Floats
zeros = record {
  int_to_float32 = λ _. 0;
  int_to_float64 = λ _. 0;
  uint32_to_float32 = λ _. 0;
  uint64_to_float64 = λ _. 0;
}

abbrev client : DiameterEntity
client = record {
  origin_host = b'h' ∷ [];
  origin_realm = b'r' ∷ [];
  host_ip_addresses = (127 ∷ 0 ∷ 0 ∷ 1 ∷ []) ∷ [];
  vendor_id = 0;
  product_name = b'p' ∷ [];
  cache = empty_cache;
}

abbrev base_avp : ℕ → Bytes → Option Avp
base_avp code payload = some (record {
  code = code;
  vendor_specific = false;
  mandatory = true;
  protected = false;
  vendor_id = 0;
  payload = payload;
  length = 12;
  padded_length = 12;
  extended_attributes = absent;
})

abbrev base_message : ℕ → ℕ → List (Option Avp) → Message
base_message flags code avps = record {
  version = 1;
  length = 80;
  flags = flags;
  code = code;
  app_id = 0;
  hop_by_hop_id = 3;
  end_to_end_id = 4;
  avps = avps;
  extended_attributes = none;
  avp_map = none;
}

abbrev capabilities_exchange_answer : Message
capabilities_exchange_answer = base_message 0 257 (
    base_avp 264 (115 ∷ [])
    ∷ base_avp 296 (114 ∷ [])
    ∷ base_avp 257 (0 ∷ 1 ∷ 10 ∷ 0 ∷ 0 ∷ 2 ∷ [])
    ∷ base_avp 266 (0 ∷ 0 ∷ 0 ∷ 0 ∷ [])
    ∷ base_avp 269 (112 ∷ [])
    ∷ [])

abbrev new_one : PeerStateManager
new_one = new_manager client 1 2 []

abbrev executed : Outcome (PeerStateManager × Option Peer)
unfolding execute
executed =
    execute zeros transport_was_opened_locally (incoming capabilities_exchange_answer) new_one

abbrev greeted : PeerStateManager × Option Peer
unfolding executed
greeted = value_or (new_one, none) executed

abbrev peer_or : Peer → Option Peer → Peer
peer_or d (some p) = p
peer_or d none = d

abbrev is_some : Option Peer → Bool
is_some (some p) = true
is_some none = false

peer_or_lem : (d : Peer) (o : Option Peer) → is_some o ≡ true → o ≡ some (peer_or d o)
peer_or_lem d (some p) h = refl
peer_or_lem d none h = cc

abbrev greeted_peer : Peer
unfolding greeted
greeted_peer = peer_or (record { identity = client }) greeted.1

executed_ok : succeeds executed ≡ true
unfolding executed execute generate_cer generate_request capabilities_exchange_mandatory_avps
    origin_host_avp new_typed_avp new_typed_avp_errorable typed_data with_padding diam_string_data
    origin_realm_avp host_ip_address_avps address_avps address_data ip_data new_address_type_from_ip
    to4 vendor_id_avp unsigned32_data product_name_avp utf8_string_data utf8_valid valid_from lead
    new_message add_mandatory_avps add_additional_avps low_24 write written encode_message
    encode_avps encode encode_pointer flags_of put_uint32 put_uint16 join_24 is_request
    execute_transport_opened_locally receive_cea message_is_a_diameter_connection_state_message
    diameter_entity_from_capabilities_exchange_message exactly_one_of_each addresses_of ip_of
    number_of_top_level_avps_matching top_level_avps_matching first_avp_matching with_map
    generate_map lookup insert add_avp add_avps same_key convert_avp_data_to_typed_data exactly_4
    convert_address be32 be16 same_bytes next_hop_by_hop_id next_end_to_end_id hop_by_hop_next
    end_to_end_next u32
executed_ok = refl

is_greeted : is_some greeted.1 ≡ true
unfolding greeted executed execute generate_cer generate_request
    capabilities_exchange_mandatory_avps origin_host_avp new_typed_avp new_typed_avp_errorable
    typed_data with_padding diam_string_data origin_realm_avp host_ip_address_avps address_avps
    address_data ip_data new_address_type_from_ip to4 vendor_id_avp unsigned32_data product_name_avp
    utf8_string_data utf8_valid valid_from lead new_message add_mandatory_avps add_additional_avps
    low_24 write written encode_message encode_avps encode encode_pointer flags_of put_uint32
    put_uint16 join_24 is_request execute_transport_opened_locally receive_cea
    message_is_a_diameter_connection_state_message
    diameter_entity_from_capabilities_exchange_message exactly_one_of_each addresses_of ip_of
    number_of_top_level_avps_matching top_level_avps_matching first_avp_matching with_map
    generate_map lookup insert add_avp add_avps same_key convert_avp_data_to_typed_data exactly_4
    convert_address be32 be16 same_bytes next_hop_by_hop_id next_end_to_end_id hop_by_hop_next
    end_to_end_next u32
is_greeted = refl

executed_greets : executed ≡ ok (greeted.0, some greeted_peer)
unfolding executed greeted greeted_peer
executed_greets =
    succeeds_lem (new_one, none) executed executed_ok
    ∙ ap (λ (o : Option Peer). ok (greeted.0, o))
        (peer_or_lem (record { identity = client }) greeted.1 is_greeted)

execute-IsIdentified_example :
    IsIdentified zeros transport_was_opened_locally
      (incoming capabilities_exchange_answer)
      greeted_peer
execute-IsIdentified_example =
    execute-IsIdentified zeros transport_was_opened_locally (incoming capabilities_exchange_answer)
      new_one greeted.0 greeted_peer (unfold executed in executed_greets)

abbrev device_watchdog_request : Message
device_watchdog_request = base_message 0x80 280 []

abbrev answering : Outcome (PeerStateManager × Reaction)
unfolding process_incoming
answering = process_incoming zeros dwr connected device_watchdog_request new_one

abbrev answered : PeerStateManager × Reaction
unfolding answering
answered = value_or (new_one, stays connected) answering

abbrev sends : Option Message → Bool
sends (some m) = true
sends none = false

answer_sent : sends answered.1.message_to_send ≡ true
unfolding answered answering process_incoming process_incoming_dwr generate_dwa generate_answer
    generate_matching_response origin_avps_with_result_code origin_avps cached_response_code_2001
    origin_host_avp new_typed_avp new_typed_avp_errorable typed_data with_padding diam_string_data
    unsigned32_data new_message add_mandatory_avps add_additional_avps low_24 put_uint32 u32
answer_sent = refl

answering_ok : succeeds answering ≡ true
unfolding answering process_incoming process_incoming_dwr generate_dwa generate_answer
    generate_matching_response origin_avps_with_result_code origin_avps cached_response_code_2001
    origin_host_avp new_typed_avp new_typed_avp_errorable typed_data with_padding diam_string_data
    unsigned32_data new_message add_mandatory_avps add_additional_avps low_24 put_uint32 u32
answering_ok = refl

process_incoming-AnswersAtMost_example : AnswersAtMost device_watchdog_request answered.1
process_incoming-AnswersAtMost_example =
    process_incoming-AnswersAtMost zeros dwr connected device_watchdog_request new_one answered
      (omega arith) (omega arith)
      (unfold answering answered in succeeds_lem (new_one, stays connected) answering answering_ok)
