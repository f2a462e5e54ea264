-- ===== src/Agent/States.antt =====
-- agent/peer_state_manager.go: the states of a connection. Each method is given the manager, for the
-- notifier and the message builder, and returns it with the next state, the message to send and the
-- error.
use diameterapi.Common.{
  Bool, true, false, ◌==◌, if◌then◌else◌, Option, none, some, Error, Outcome, ok, ◌>>=◌,
  cer_when_connected, cea_when_connected, dpa_unsolicited, cer_when_half_closed,
  cea_when_half_closed, dpr_when_half_closed, message_when_disconnected,
}
use diameterapi.Message.Types.{Message, is_request}
use diameterapi.Typed.Values.{Floats}
use diameterapi.Agent.Identity.{
  capabilities_exchange_code, device_watchdog_code, disconnect_peer_code,
}
use diameterapi.Agent.Manager.{
  PeerState, connected, half_closed, disconnected, PeerStateManager, notify,
  diameter_connection_closed, generate_dwa, generate_dpa,
}

pub data StateMachineMessageType : Type 0 where
  cer cea dwr dwa dpr dpa not_a_state_machine_message : StateMachineMessageType

unfoldable pub state_machine_message_type_for_message : Message → StateMachineMessageType
state_machine_message_type_for_message m =
    if m.app_id == 0
    then (if m.code == capabilities_exchange_code
        then (if is_request m then cer else cea)
        else if m.code == device_watchdog_code
        then (if is_request m then dwr else dwa)
        else if m.code == disconnect_peer_code
        then (if is_request m then dpr else dpa)
        else not_a_state_machine_message)
    else not_a_state_machine_message

-- `PeerStateError`
pub record PeerStateError : Type 0 where
  pub error : Error
  pub initiate_disconnect_peer : Bool

pub record Reaction : Type 0 where
  pub next_state : PeerState
  pub message_to_send : Option Message
  pub failure : Option PeerStateError

abbrev pub stays : PeerState → Reaction
stays state = record { next_state = state; message_to_send = none; failure = none }

-- `NewPeerStateDisconnected` notifies that the connection is closed.
abbrev pub closing : PeerStateManager → PeerStateManager
closing s = notify diameter_connection_closed none none s

abbrev pub closes : Option Message → Reaction
closes m = record { next_state = disconnected; message_to_send = m; failure = none }

abbrev pub fails : Error → Bool → Reaction
fails e disconnect = record {
  next_state = disconnected;
  message_to_send = none;
  failure = some (record { error = e; initiate_disconnect_peer = disconnect });
}

abbrev pub Reacts : Type 0
Reacts = Outcome (PeerStateManager × Reaction)

unfoldable pub diameter_connection_is_closed : PeerState → Bool
diameter_connection_is_closed connected = false
diameter_connection_is_closed half_closed = false
diameter_connection_is_closed disconnected = true

unfoldable pub can_initiate_disconnect : PeerState → Bool
can_initiate_disconnect connected = true
can_initiate_disconnect half_closed = false
can_initiate_disconnect disconnected = false

unfoldable pub process_incoming_cer : PeerState → Message → PeerStateManager → Reacts
process_incoming_cer connected m s = ok (closing s, fails cer_when_connected true)
process_incoming_cer half_closed m s = ok (closing s, fails cer_when_half_closed false)
process_incoming_cer disconnected m s = ok (closing s, fails message_when_disconnected false)

unfoldable pub process_incoming_cea : PeerState → Message → PeerStateManager → Reacts
process_incoming_cea connected m s = ok (closing s, fails cea_when_connected true)
process_incoming_cea half_closed m s = ok (closing s, fails cea_when_half_closed false)
process_incoming_cea disconnected m s = ok (closing s, fails message_when_disconnected false)

unfoldable pub process_incoming_dwa : PeerState → Message → PeerStateManager → Reacts
process_incoming_dwa connected m s = ok (s, stays connected)
process_incoming_dwa half_closed m s = ok (s, stays half_closed)
process_incoming_dwa disconnected m s = ok (closing s, fails message_when_disconnected false)

unfoldable pub process_incoming_dpa : PeerState → Message → PeerStateManager → Reacts
process_incoming_dpa connected m s = ok (closing s, fails dpa_unsolicited true)
process_incoming_dpa half_closed m s = ok (closing s, closes none)
process_incoming_dpa disconnected m s = ok (closing s, fails message_when_disconnected false)

unfoldable pub process_incoming_non_state_machine_message :
    PeerState → Message → PeerStateManager → Reacts
process_incoming_non_state_machine_message connected m s = ok (s, stays connected)
process_incoming_non_state_machine_message half_closed m s = ok (s, stays half_closed)
process_incoming_non_state_machine_message disconnected m s =
    ok (closing s, fails message_when_disconnected false)

module _ (floats : Floats) where
  unfoldable pub process_incoming_dwr : PeerState → Message → PeerStateManager → Reacts
  process_incoming_dwr connected m s = do
    (s', answer) ← generate_dwa floats m s
    ok (s', record (stays connected) { message_to_send = some answer })
  process_incoming_dwr half_closed m s = ok (s, stays half_closed)
  process_incoming_dwr disconnected m s = ok (closing s, fails message_when_disconnected false)

  unfoldable pub process_incoming_dpr : PeerState → Message → PeerStateManager → Reacts
  process_incoming_dpr connected m s = do
    (s', answer) ← generate_dpa floats m (closing s)
    ok (s', closes (some answer))
  process_incoming_dpr half_closed m s = ok (closing s, fails dpr_when_half_closed false)
  process_incoming_dpr disconnected m s = ok (closing s, fails message_when_disconnected false)

  -- The inner switch of the loop, and its other branch
  unfoldable pub process_incoming :
      StateMachineMessageType → PeerState → Message → PeerStateManager → Reacts
  unfolding process_incoming_cer process_incoming_cea process_incoming_dwr process_incoming_dwa
      process_incoming_dpr process_incoming_dpa process_incoming_non_state_machine_message
  process_incoming cer state m s = process_incoming_cer state m s
  process_incoming cea state m s = process_incoming_cea state m s
  process_incoming dwr state m s = process_incoming_dwr state m s
  process_incoming dwa state m s = process_incoming_dwa state m s
  process_incoming dpr state m s = process_incoming_dpr state m s
  process_incoming dpa state m s = process_incoming_dpa state m s
  process_incoming not_a_state_machine_message state m s =
      process_incoming_non_state_machine_message state m s
