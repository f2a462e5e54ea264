-- ===== src/Applications/Examples.antt =====
-- The theorems on the example programs at concrete inputs.
use diameterapi.Common.{
  Bool, map, ℕ, suc, ◌≡◌, refl, true, false, List, [], ◌∷◌, Option, some, none, Outcome, ok, arith,
}
use diameterapi.Common.Dict.{remove, ascii, get, bytes_key, equal_bytes, put}
use diameterapi.Message.Query.{with_map, first_avp_matching}
use diameterapi.Avp.Lookup.{generate_map, lookup, add_avp, insert, add_avps, same_key}
use diameterapi.Dictionary.Queries.{
  dictionary_avp, avp_errorable, dictionary_message, encode_flags, message_errorable,
}
use diameterapi.Message.Build.{add_additional_avps, add_mandatory_avps, new_message}
use diameterapi.Typed.Utf8.{utf8_valid, valid_from, lead}
use diameterapi.Wire.{low_24, put_uint32}
use diameterapi.Message.Types.{Message, is_answer, is_request}
use diameterapi.Typed.Values.{
  diam_string_data, utf8_string_data, integer32_data, new_typed_avp, new_typed_avp_errorable,
  typed_data, unsigned32_data, with_padding,
}
use diameterapi.Avp.Types.{Avp, absent}
use diameterapi.Dictionary.Types.{code_key, same_code}
use diameterapi.Dictionary.Build.{
  from_yaml_form, empty_dictionary, type_of_string, add_avp_type, add_avp_types, add_message_type,
  add_message_types, convert_yaml_avp_to_dictionary_avp_descriptor,
}
use diameterapi.Agent.Manager.{
  PeerStateEvent, message_received_from_peer, PeerStateManager, cached_response_code_2001,
}
use diameterapi.Sequence.SessionIds.{generate_session_id, print_uint32, digits}
use diameterapi.Agent.Accepting.{new_manager}
use diameterapi.Avp.Codec
use diameterapi.Applications.Sessions.{
  DiameterSession, terminating, was_terminating, new_diameter_session, messages_for_session,
  next_message_for_session, generate_ccr, generate_ccr_i, generate_ccr_u, generate_ccr_t,
}
use diameterapi.Applications.Client.{logged_received, initiated_disconnect, Outside}
use diameterapi.Applications.Client
use diameterapi.Applications.Ending.{IsJustified, on_peer_message-IsJustified}
use diameterapi.Applications.Order.{request_of, messages_for_session_lem}
use diameterapi.Applications.Server.{ServerAction, ServerReaction, sent_answer, on_event}
use diameterapi.Applications.Forms.{zeros, server_dictionary, client_dictionary, client}

abbrev is_made : Outcome (Option Message) → Bool
is_made (ok (some m)) = true
is_made _ = false

-- A session that is made with 0 updates makes one, and each of its requests can be made.
abbrev short_session : DiameterSession
short_session = new_diameter_session 1 client client_dictionary 0

requests_are_made :
    map is_made (messages_for_session zeros 4 short_session) ≡ true ∷ true ∷ true ∷ false ∷ []
unfolding messages_for_session next_message_for_session generate_ccr generate_ccr_i generate_ccr_u
    generate_ccr_t cached_response_code_2001 generate_session_id print_uint32 digits
    client_dictionary from_yaml_form dictionary_avp avp_errorable get type_of_string bytes_key
    equal_bytes put add_avp_type add_avp_types add_message_type add_message_types
    convert_yaml_avp_to_dictionary_avp_descriptor dictionary_message encode_flags message_errorable
    code_key same_code add_additional_avps add_mandatory_avps new_message utf8_valid valid_from lead
    diam_string_data new_typed_avp new_typed_avp_errorable typed_data unsigned32_data
    utf8_string_data integer32_data with_padding low_24 put_uint32
requests_are_made = refl

messages_for_session_example :
    messages_for_session zeros 4 short_session
    ≡ request_of zeros short_session 1 0
      ∷ request_of zeros short_session 2 1
      ∷ request_of zeros short_session 3 2
      ∷ ok none
      ∷ []
messages_for_session_example =
    messages_for_session_lem zeros 1 client client_dictionary 0 1 (omega arith)

abbrev small_avp : ℕ → Option Avp
small_avp code = some (record {
  code = code;
  vendor_specific = false;
  mandatory = true;
  protected = false;
  vendor_id = 0;
  payload = 0 ∷ 0 ∷ 0 ∷ 1 ∷ [];
  length = 12;
  padded_length = 12;
  extended_attributes = absent;
})

abbrev ccr : Message
ccr = record {
  version = 1;
  length = 68;
  flags = 0x80;
  code = 272;
  app_id = 0;
  hop_by_hop_id = 7;
  end_to_end_id = 9;
  avps = small_avp 263 ∷ small_avp 258 ∷ small_avp 416 ∷ small_avp 415 ∷ [];
  extended_attributes = none;
  avp_map = none;
}

abbrev ccr_received : PeerStateEvent
ccr_received = record {
  event_type = message_received_from_peer;
  peer = none;
  error = none;
  message = some ccr;
}

abbrev manager : PeerStateManager
manager = new_manager client 5 6 []

abbrev reaction_of : Outcome ServerReaction → ServerReaction
reaction_of (ok r) = r
reaction_of _ = (manager, [])

abbrev reaction : ServerReaction
unfolding on_event
reaction =
    reaction_of
      (on_event zeros manager (ascii "server") (ascii "realm") server_dictionary ccr_received)

abbrev count_answers : List ServerAction → ℕ
count_answers [] = 0
count_answers (sent_answer m ∷ actions) = suc (count_answers actions)
count_answers (_ ∷ actions) = count_answers actions

-- The last session, whose termination was sent, and its answer
abbrev last_session : DiameterSession
last_session = record (new_diameter_session 1 client empty_dictionary 3) {
  session_id = ascii "s";
  phase = terminating;
}

abbrev session_avp : Option Avp
session_avp = some (record {
  code = 263;
  vendor_specific = false;
  mandatory = true;
  protected = false;
  vendor_id = 0;
  payload = ascii "s";
  length = 9;
  padded_length = 12;
  extended_attributes = absent;
})

abbrev last_answer : Message
last_answer = record ccr { flags = 0; avps = session_avp ∷ [] }

abbrev all_goes_well : Outside
all_goes_well = record { send = λ m. (m, none); disconnect = none }

last_answer_disconnects :
    Client.on_peer_message zeros all_goes_well last_answer ((ascii "s", last_session) ∷ [])
    ≡ ok ([], logged_received last_answer ∷ initiated_disconnect ∷ [], true)
unfolding Client.on_peer_message is_answer is_request first_avp_matching with_map generate_map
    lookup add_avps add_avp insert same_key get remove bytes_key equal_bytes was_terminating
last_answer_disconnects = refl

on_peer_message-IsJustified_example :
    IsJustified ([], logged_received last_answer ∷ initiated_disconnect ∷ [], true)
on_peer_message-IsJustified_example =
    on_peer_message-IsJustified all_goes_well zeros last_answer ((ascii "s", last_session) ∷ [])
      ([], logged_received last_answer ∷ initiated_disconnect ∷ [], true) last_answer_disconnects
