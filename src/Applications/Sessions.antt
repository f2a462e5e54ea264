-- ===== src/Applications/Sessions.antt =====
-- examples/applications/base_application_client/sessions.go: the requests of a Credit-Control session. A
-- call of `NextMessageForSession` gives the session as it leaves it beside the message; a request that
-- cannot be made is a panic there.
use diameterapi.Common.{
  ℕ, zero, suc, ◌+◌, ◌%◌, ◌^◌, Bool, true, false, leb, if◌then◌else◌, List, [], ◌∷◌, map, Option,
  some, none, Outcome, ok, ◌>>=◌,
}
use diameterapi.Common.Dict.{ascii}
use diameterapi.Wire.{Bytes, u32}
use diameterapi.Avp.Types.{string, uint32, int32, unsigned32, utf8_string, enumerated}
use diameterapi.Message.Types.{Message}
use diameterapi.Sequence.SessionIds.{generate_session_id}
use diameterapi.Typed.Values.{Floats, new_typed_avp}
use diameterapi.Dictionary.Types.{Dictionary}
use diameterapi.Dictionary.Queries.{MessageFlags, dictionary_avp, dictionary_message}
use diameterapi.Agent.Identity.{DiameterEntity}
use diameterapi.Agent.Manager.{cached_response_code_2001}

pub data Phase : Type 0 where
  initial updates terminate terminating : Phase

pub record DiameterSession : Type 0 where
  pub session_id : Bytes
  pub diameter_entity : DiameterEntity
  pub dictionary : Dictionary
  pub phase : Phase
  pub number_of_updates_to_send : ℕ  -- uint
  pub update_sequence_number : ℕ  -- uint

-- `NewDiameterSession` at the time `now`
abbrev pub new_diameter_session : ℕ → DiameterEntity → Dictionary → ℕ → DiameterSession
new_diameter_session now entity dictionary number_of_updates_to_send = record {
  session_id = generate_session_id now entity.origin_host;
  diameter_entity = entity;
  dictionary = dictionary;
  phase = initial;
  number_of_updates_to_send = number_of_updates_to_send;
  update_sequence_number = 0;
}

abbrev pub no_flags : MessageFlags
no_flags = record { proxiable = false; error = false; potential_retransmit = false }

module _ (floats : Floats) where
  -- What `generateCCRi`, `generateCCRu` and `generateCCRt` have in common
  unfoldable pub generate_ccr : Bytes → ℕ → ℕ → Dictionary → Bytes → Bytes → Outcome Message
  generate_ccr session_id request_type request_number dictionary origin_host origin_realm = do
    result_code ← cached_response_code_2001 floats
    session ← dictionary_avp floats dictionary (ascii "Session-Id") (string session_id)
    host ← dictionary_avp floats dictionary (ascii "Origin-Host") (string origin_host)
    realm ← dictionary_avp floats dictionary (ascii "Origin-Realm") (string origin_realm)
    destination ← dictionary_avp floats dictionary (ascii "Destination-Realm") (string origin_realm)
    application ← dictionary_avp floats dictionary (ascii "Auth-Application-Id") (uint32 4)
    context ← new_typed_avp floats 461 0 true utf8_string (string (ascii "service@example.com"))
    kind ← new_typed_avp floats 416 0 true enumerated (int32 request_type)
    number ← new_typed_avp floats 415 0 true unsigned32 (uint32 request_number)
    dictionary_message dictionary (ascii "CCR") no_flags
        (map some (
          result_code ∷ session ∷ host ∷ realm ∷ destination ∷ application ∷ context ∷ kind ∷ number
          ∷ []))
        []

  unfoldable pub generate_ccr_i : Bytes → Dictionary → Bytes → Bytes → Outcome Message
  unfolding generate_ccr
  generate_ccr_i session_id dictionary origin_host origin_realm =
      generate_ccr session_id 1 0 dictionary origin_host origin_realm

  unfoldable pub generate_ccr_u : Bytes → ℕ → Dictionary → Bytes → Bytes → Outcome Message
  unfolding generate_ccr
  generate_ccr_u session_id request_number dictionary origin_host origin_realm =
      generate_ccr session_id 2 (u32 request_number) dictionary origin_host origin_realm

  unfoldable pub generate_ccr_t : Bytes → ℕ → Dictionary → Bytes → Bytes → Outcome Message
  unfolding generate_ccr
  generate_ccr_t session_id request_number dictionary origin_host origin_realm =
      generate_ccr session_id 3 (u32 request_number) dictionary origin_host origin_realm

  abbrev pub sent : Outcome Message → Outcome (Option Message)
  sent message = do m ← message; ok (some m)

  -- The phase behind the update with the given number
  abbrev pub phase_after_update : ℕ → ℕ → Phase
  phase_after_update number number_of_updates_to_send =
      if leb number_of_updates_to_send number then terminate else updates

  abbrev next_in_phase : Phase → DiameterSession → DiameterSession × Outcome (Option Message)
  next_in_phase initial s = (
    record s { phase = updates },
    sent (
        generate_ccr_i s.session_id s.dictionary s.diameter_entity.origin_host
          s.diameter_entity.origin_realm),
  )
  next_in_phase updates s =
      let number = (s.update_sequence_number + 1) % 2 ^ 64 in
      (
        record s {
          update_sequence_number = number;
          phase = phase_after_update number s.number_of_updates_to_send;
        },
        sent (
            generate_ccr_u s.session_id number s.dictionary s.diameter_entity.origin_host
              s.diameter_entity.origin_realm),
      )
  next_in_phase terminate s = (
    record s { phase = terminating },
    sent (
        generate_ccr_t s.session_id ((s.update_sequence_number + 1) % 2 ^ 64) s.dictionary
          s.diameter_entity.origin_host s.diameter_entity.origin_realm),
  )
  next_in_phase terminating s = (s, ok none)

  unfoldable pub next_message_for_session :
      DiameterSession → DiameterSession × Outcome (Option Message)
  unfolding next_in_phase
  next_message_for_session s = next_in_phase s.phase s

  -- What a number of calls one after the other return
  unfoldable pub messages_for_session : ℕ → DiameterSession → List (Outcome (Option Message))
  unfolding next_message_for_session
  messages_for_session zero s = []
  messages_for_session (suc calls) s =
      let (s', message) = next_message_for_session s in message ∷ messages_for_session calls s'

abbrev is_terminating : Phase → Bool
is_terminating terminating = true
is_terminating _ = false

unfoldable pub was_terminating : DiameterSession → Bool
was_terminating s = is_terminating s.phase
