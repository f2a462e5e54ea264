-- ===== src/Agent/Manager.antt =====
-- agent/event.go, and the parts of agent/peer_state_manager.go that send: the manager's state with a
-- log of what it did to the outside, in order.
use diameterapi.Common.{
  ℕ, Bool, true, false, ◌&&◌, ◌||◌, ◌==◌, if◌then◌else◌, List, [], ◌∷◌, ◌++◌, map, Option, none,
  some, Error, eof, state_machine_message_from_client, Outcome, ok, ◌>>=◌,
}
use diameterapi.Avp.Types.{Avp, int, int32, unsigned32, enumerated}
use diameterapi.Message.Types.{Message, msg_flag_request}
use diameterapi.Message.Build.{new_message, generate_matching_response}
use diameterapi.Message.Codec.{encode_message}
use diameterapi.Sequence.Generators.{SequenceGenerator, next_hop_by_hop_id, next_end_to_end_id}
use diameterapi.Typed.Values.{Floats, new_typed_avp}
use diameterapi.Agent.Identity.{
  DiameterEntity, Peer, capabilities_exchange_code, device_watchdog_code, disconnect_peer_code,
  origin_host_avp, capabilities_exchange_mandatory_avps,
  capabilities_exchange_mandatory_avps_with_result_code,
}

pub data PeerEventType : Type 0 where
  listener_accepted_transport peer_closed_transport closed_transport_to_peer : PeerEventType
  diameter_connection_established diameter_connection_closed : PeerEventType
  state_machine_message_received_from_peer state_machine_message_sent_to_peer : PeerEventType
  message_received_from_peer error_occurred : PeerEventType

-- `PeerStateEvent`: the fields that are set for more than one connection. The connection is always the
-- transport of the manager.
pub record PeerStateEvent : Type 0 where
  pub event_type : PeerEventType
  pub peer : Option Peer
  pub error : Option Error
  pub message : Option Message

-- What the outside sees: an event on the channel, bytes of a message on the transport, the answer to a
-- caller of `InitiateDisconnect`, and the `Close` of the transport.
pub data Output : Type 0 where
  event : PeerStateEvent → Output
  wrote : Message → Output
  replied : Option Error → Output
  closed_transport : Output

pub data PeerState : Type 0 where
  connected half_closed disconnected : PeerState

-- `PeerStateManager` with the notifier's peer, the next state, and the time. `write_results` are the
-- results of the writes to come, none for success; further ones succeed.
pub record PeerStateManager : Type 0 where
  pub local_identity : DiameterEntity
  pub sequence_generator : SequenceGenerator
  pub peer : Option Peer
  pub notifier_peer : Option Peer
  pub next_state : PeerState
  pub now : ℕ
  pub write_results : List (Option Error)
  pub log : List Output

abbrev pub output : Output → PeerStateManager → PeerStateManager
output o s = record s { log = s.log ++ (o ∷ []) }

-- The methods of `PeerStateNotifier`
abbrev pub notify :
    PeerEventType → Option Error → Option Message → PeerStateManager → PeerStateManager
notify t e m s =
    output (event (record { event_type = t; peer = s.notifier_peer; error = e; message = m })) s

abbrev pub notify_error : Error → PeerStateManager → PeerStateManager
notify_error e s = notify error_occurred (some e) none s

abbrev pub notify_message : PeerEventType → Message → PeerStateManager → PeerStateManager
notify_message t m s = notify t none (some m) s

-- An event that the manager sends itself, with its own peer.
abbrev pub emit : PeerEventType → Option Message → PeerStateManager → PeerStateManager
emit t m s = output (event (record { event_type = t; peer = s.peer; error = none; message = m })) s

-- One result of a write, on the results to come.
unfoldable pub written :
    Message → List (Option Error) → PeerStateManager → PeerStateManager × Option Error
written m [] s = (output (wrote m) s, none)
written m (none ∷ results) s = (output (wrote m) (record s { write_results = results }), none)
written m (some e ∷ results) s = (record s { write_results = results }, some e)

-- `transport.Write(msg.Encode())`
unfoldable pub write : Message → PeerStateManager → Outcome (PeerStateManager × Option Error)
unfolding written
write m s = do bytes ← encode_message m; ok (written m s.write_results s)

abbrev pub is_eof : Error → Bool
is_eof eof = true
is_eof _ = false

-- What `sendMessage` makes of the result of the write.
unfoldable pub after_write : PeerStateManager × Option Error → PeerStateManager × Option Error
after_write (s, none) = (s, none)
after_write (s, some e) =
    if is_eof e then (emit peer_closed_transport none s, none) else (s, some e)

unfoldable pub send_message : Message → PeerStateManager → Outcome (PeerStateManager × Option Error)
unfolding after_write
send_message m s = do r ← write m s; ok (after_write r)

unfoldable pub after_send :
    Message → PeerStateManager × Option Error → PeerStateManager × Option Error
after_send m (s, some e) = (s, some e)
after_send m (s, none) = (emit state_machine_message_sent_to_peer (some m) s, none)

unfoldable pub send_state_machine_message :
    Message → PeerStateManager → Outcome (PeerStateManager × Option Error)
unfolding after_send
send_state_machine_message m s = do r ← send_message m s; ok (after_send m r)

unfoldable pub message_is_a_diameter_connection_state_message : Message → Bool
message_is_a_diameter_connection_state_message m =
    m.app_id == 0
    && (m.code == capabilities_exchange_code
        || m.code == device_watchdog_code
        || m.code == disconnect_peer_code)

abbrev pub with_end_to_end_id : Message × PeerStateManager → Message × PeerStateManager
with_end_to_end_id (m, s) =
    if m.end_to_end_id == 0
    then (let (g, n) = next_end_to_end_id s.now s.sequence_generator in
        (record m { end_to_end_id = n }, record s { sequence_generator = g }))
    else (m, s)

abbrev pub with_hop_by_hop_id : Message × PeerStateManager → Message × PeerStateManager
with_hop_by_hop_id (m, s) =
    if m.hop_by_hop_id == 0
    then (let (g, n) = next_hop_by_hop_id s.sequence_generator in
        (record m { hop_by_hop_id = n }, record s { sequence_generator = g }))
    else (m, s)

-- `SendMessageViaPeer`
unfoldable pub send_message_via_peer :
    Message → PeerStateManager → Outcome (PeerStateManager × Option Error)
send_message_via_peer m s =
    let (m', s') = with_hop_by_hop_id (with_end_to_end_id (m, s)) in
    if message_is_a_diameter_connection_state_message m
    then ok (s, some state_machine_message_from_client)
    else send_message m' s'

module _ (floats : Floats) where
  -- `cachedResponseCode2001`
  unfoldable pub cached_response_code_2001 : Outcome Avp
  cached_response_code_2001 = new_typed_avp floats 268 0 true unsigned32 (int 2001)

  -- A request of the state machine with fresh identifiers, on the AVPs of the local identity.
  unfoldable pub generate_request :
      ℕ
      → (DiameterEntity → Outcome (DiameterEntity × List Avp))
      → PeerStateManager
      → Outcome (PeerStateManager × Message)
  generate_request code avps s =
      let (g, hop) = next_hop_by_hop_id s.sequence_generator in
      let (g', end) = next_end_to_end_id s.now g in
      do
        (e, mandatory) ← avps s.local_identity
        m ← new_message msg_flag_request code 0 hop end (map some mandatory) []
        ok (record s { sequence_generator = g'; local_identity = e }, m)

  unfoldable pub generate_answer :
      Message
      → (DiameterEntity → Outcome (DiameterEntity × List Avp))
      → PeerStateManager
      → Outcome (PeerStateManager × Message)
  generate_answer request avps s = do
    (e, mandatory) ← avps s.local_identity
    m ← generate_matching_response request (map some mandatory) []
    ok (record s { local_identity = e }, m)

  -- The Origin-Host AVP stands twice, in the place of the Origin-Realm AVP too.
  unfoldable pub origin_avps : DiameterEntity → Outcome (DiameterEntity × List Avp)
  origin_avps e = do
    (e₁, a) ← origin_host_avp floats e
    (e₂, b) ← origin_host_avp floats e₁
    ok (e₂, a ∷ b ∷ [])

  unfoldable pub origin_avps_with_result_code : DiameterEntity → Outcome (DiameterEntity × List Avp)
  unfolding origin_avps cached_response_code_2001
  origin_avps_with_result_code e = do
    result_code ← cached_response_code_2001
    (e', avps) ← origin_avps e
    ok (e', result_code ∷ avps)

  unfoldable pub disconnect_avps : DiameterEntity → Outcome (DiameterEntity × List Avp)
  unfolding origin_avps
  disconnect_avps e = do
    (e', avps) ← origin_avps e
    cause ← new_typed_avp floats 273 0 true enumerated (int32 2)
    ok (e', avps ++ (cause ∷ []))

  unfoldable pub answer_avps : DiameterEntity → Outcome (DiameterEntity × List Avp)
  unfolding cached_response_code_2001
  answer_avps e = do
    result_code ← cached_response_code_2001
    capabilities_exchange_mandatory_avps_with_result_code floats result_code e

  unfoldable pub generate_cer : PeerStateManager → Outcome (PeerStateManager × Message)
  unfolding generate_request
  generate_cer s =
      generate_request capabilities_exchange_code (capabilities_exchange_mandatory_avps floats) s

  unfoldable pub generate_cea : Message → PeerStateManager → Outcome (PeerStateManager × Message)
  unfolding generate_answer answer_avps
  generate_cea cer s = generate_answer cer answer_avps s

  unfoldable pub generate_dwr : PeerStateManager → Outcome (PeerStateManager × Message)
  unfolding generate_request origin_avps
  generate_dwr s = generate_request device_watchdog_code origin_avps s

  unfoldable pub generate_dwa : Message → PeerStateManager → Outcome (PeerStateManager × Message)
  unfolding generate_answer origin_avps_with_result_code
  generate_dwa dwr s = generate_answer dwr origin_avps_with_result_code s

  unfoldable pub generate_dpr : PeerStateManager → Outcome (PeerStateManager × Message)
  unfolding generate_request disconnect_avps
  generate_dpr s = generate_request disconnect_peer_code disconnect_avps s

  unfoldable pub generate_dpa : Message → PeerStateManager → Outcome (PeerStateManager × Message)
  unfolding generate_answer origin_avps_with_result_code
  generate_dpa dpr s = generate_answer dpr origin_avps_with_result_code s
