-- ===== src/Applications/Server.antt =====
-- examples/applications/base_application_server/main.go: `generateCCAFromCCR`, and the loop's reaction to
-- one event, on the manager of the peer that the event names. `SendMessage` is `SendMessageViaPeer` of that
-- manager; the result of `InitiateDisconnect` is dropped.
use diameterapi.Common.{
  ℕ, not, ◌&&◌, ◌==◌, if◌then◌else◌, List, [], ◌∷◌, Option, some, none, Error, expected_ccr,
  missing_avp_in_ccr, Outcome, ok, err, panics, stuck, ◌>>=◌, ◌>>◌, guard,
}
use diameterapi.Common.Dict.{ascii}
use diameterapi.Wire.{Bytes}
use diameterapi.Avp.Types.{string, uint32}
use diameterapi.Message.Types.{Message, is_answer}
use diameterapi.Message.Build.{become_an_answer}
use diameterapi.Message.Query.{first_avp_matching, does_not_have_a_top_level_avp_matching}
use diameterapi.Typed.Values.{Floats}
use diameterapi.Dictionary.Types.{Dictionary}
use diameterapi.Dictionary.Queries.{dictionary_avp, dictionary_message}
use diameterapi.Agent.Manager.{
  PeerEventType, state_machine_message_received_from_peer, state_machine_message_sent_to_peer,
  message_received_from_peer, error_occurred, PeerStateEvent, PeerStateManager, with_end_to_end_id,
  with_hop_by_hop_id, message_is_a_diameter_connection_state_message, send_message_via_peer,
}
use diameterapi.Applications.Sessions.{no_flags}

-- The loop over the codes that a request must have; the message keeps its cache.
unfoldable pub has_each : List ℕ → Message → Outcome Message
has_each [] ccr = ok ccr
has_each (code ∷ codes) ccr = do
  (ccr', lacks) ← does_not_have_a_top_level_avp_matching ccr 0 code
  guard (not lacks) missing_avp_in_ccr
  has_each codes ccr'

-- What the server does: it logs, it sends an answer, and it initiates a disconnect.
pub data ServerAction : Type 0 where
  logged_event : PeerEventType → ServerAction
  logged_received logged_sent : Message → ServerAction
  logged_error : Option Error → ServerAction
  sent_answer : Message → ServerAction
  initiated_disconnect : ServerAction

-- The manager as it is left, and the actions in order
abbrev pub ServerReaction : Type 0
ServerReaction = PeerStateManager × List ServerAction

module _ (floats : Floats) where
  -- The message that `generateCCAFromCCR` builds of the request before it becomes an answer
  unfoldable pub new_cca : Message → Bytes → Bytes → Dictionary → Outcome Message
  new_cca ccr local_origin_host local_origin_realm dictionary = do
    (ccr₁, session_id) ← first_avp_matching ccr 0 263
    result_code ← dictionary_avp floats dictionary (ascii "Result-Code") (uint32 2000)
    host ← dictionary_avp floats dictionary (ascii "Origin-Host") (string local_origin_host)
    realm ← dictionary_avp floats dictionary (ascii "Origin-Realm") (string local_origin_realm)
    (ccr₂, application) ← first_avp_matching ccr₁ 0 258
    (ccr₃, request_type) ← first_avp_matching ccr₂ 0 416
    dictionary_message dictionary (ascii "CCA") no_flags
        (session_id ∷ some result_code ∷ some host ∷ some realm ∷ application ∷ request_type ∷ [])
        []

  unfoldable pub generate_cca_from_ccr : Message → Bytes → Bytes → Dictionary → Outcome Message
  unfolding new_cca has_each
  generate_cca_from_ccr ccr local_origin_host local_origin_realm dictionary = do
    guard (not (is_answer ccr)) expected_ccr
    ccr' ← has_each (263 ∷ 258 ∷ 416 ∷ 415 ∷ []) ccr
    cca ← new_cca ccr' local_origin_host local_origin_realm dictionary
    ok (become_an_answer cca ccr')

  -- The message as `SendMessageViaPeer` leaves it, which it also writes to the transport
  unfoldable pub as_sent : Message → PeerStateManager → Message
  as_sent m s =
      if message_is_a_diameter_connection_state_message m
      then m
      else (with_hop_by_hop_id (with_end_to_end_id (m, s))).0

  -- What follows the result of `SendMessage`
  abbrev pub after_sending : Message → PeerStateManager × Option Error → ServerReaction
  after_sending cca (s, some e) =
      (s, sent_answer cca ∷ logged_error (some e) ∷ initiated_disconnect ∷ [])
  after_sending cca (s, none) = (s, sent_answer cca ∷ logged_sent cca ∷ [])

  abbrev pub send_answer : PeerStateManager → Outcome Message → Outcome ServerReaction
  send_answer s (err e) = ok (s, logged_error (some e) ∷ [])
  send_answer s panics = panics
  send_answer s stuck = stuck
  send_answer s (ok cca) = do r ← send_message_via_peer cca s; ok (after_sending (as_sent cca s) r)

  unfoldable pub on_message_received :
      PeerStateManager → Bytes → Bytes → Dictionary → Message → Outcome ServerReaction
  unfolding generate_cca_from_ccr send_answer
  on_message_received s host realm dictionary m =
      if m.app_id == 0 && m.code == 272
      then (do
        (s', actions) ← send_answer s (generate_cca_from_ccr m host realm dictionary)
        ok (s', logged_received m ∷ actions))
      else ok (s, logged_received m ∷ [])

  -- The `switch`, with the message and the error of the event; a message that is nil is dereferenced.
  abbrev pub react :
      PeerStateManager
      → Bytes
      → Bytes
      → Dictionary
      → PeerEventType
      → Option Message
      → Option Error
      → Outcome ServerReaction
  react s host realm d state_machine_message_received_from_peer (some m) e =
      ok (s, logged_received m ∷ [])
  react s host realm d state_machine_message_received_from_peer none e = panics
  react s host realm d state_machine_message_sent_to_peer (some m) e = ok (s, logged_sent m ∷ [])
  react s host realm d state_machine_message_sent_to_peer none e = panics
  react s host realm d message_received_from_peer (some m) e = on_message_received s host realm d m
  react s host realm d message_received_from_peer none e = panics
  react s host realm d error_occurred m e = ok (s, logged_error e ∷ [])
  react s host realm d t m e = ok (s, logged_event t ∷ [])

  -- One round of the loop of `main`
  unfoldable pub on_event :
      PeerStateManager → Bytes → Bytes → Dictionary → PeerStateEvent → Outcome ServerReaction
  unfolding on_message_received
  on_event s host realm dictionary event =
      react s host realm dictionary event.event_type event.message event.error
