-- ===== src/Agent/Examples.antt =====
-- A connection at concrete inputs.
use diameterapi.Common.{
  Option, eof, All, no_local_address, Error, Bool, true, not, ◌+◌, ◌*◌, ◌^◌, ◌<◌, ◌≤◌, map, take,
  drop, take-append-drop, append-nil, ◌⊎◌, inl, ◌++◌, ap, ◌∙◌, arith, ℕ, ◌≡◌, refl, false, List, [],
  ◌∷◌, some, none, ok, cannot_initiate_disconnect,
}
use diameterapi.Message.Types.{Message, is_request}
use diameterapi.Typed.Values.{Floats}
use diameterapi.Sequence.Generators.{new_sequence_generator_set}
use diameterapi.Agent.Identity.{DiameterEntity, empty_cache}
use diameterapi.Agent.Manager.{
  PeerStateManager, connected, half_closed, disconnected, output, replied, notify_message,
  message_is_a_diameter_connection_state_message, state_machine_message_received_from_peer,
}
use diameterapi.Agent.States.{
  closing, state_machine_message_type_for_message, process_incoming, process_incoming_dpa,
  diameter_connection_is_closed, can_initiate_disconnect,
}
use diameterapi.Agent.Run.{
  Input, disconnect_initiated, from_reader, incoming, loop, round, on_disconnect_initiated,
  on_message, after_reaction, send_reaction, deferred, notify_reader_error, new_run, execute,
  after_execute, peer_opened_transport, execute_peer_opened_transport, reader_error,
}
use diameterapi.Wire.{Bytes}
use diameterapi.Message.Examples.{request, request-IsWellFormed, two_avps}
use diameterapi.Message.RoundTrip.{IsWellFormed}
use diameterapi.Reader.Sent.{Sent, stream, length_stream}
use diameterapi.Reader.Stream.{new_message_stream_reader}
use diameterapi.Agent.Receiver.{incoming_message_stream_receiver}
use diameterapi.Agent.Reports.{at, IsEnd, loop-incoming_message_stream_receiver}
use diameterapi.Agent.Watchdog.{
  WatchdogIntervalTimer, IsReached, take_value, restarted, restart, stop_and_restart,
  start_new_watchdog_interval_timer, new_watchdog_interval_with_jitter, watchdog_interval_timer_lem,
}
use diameterapi.Typed.Utf8.{utf8_valid}
use diameterapi.Agent.Accepting.{
  Accepted, accepted, started_manager, closed_connection, notify_of_incoming_transport,
  notify_of_receiver_error, run_receiver_handler,
}
use diameterapi.Agent.Starting.{IsMade, run_receiver_handler-IsMade}
use diameterapi.Agent.Loop.{IsKept}
use diameterapi.Message.Codec.{encode_message, encode_avps}
use diameterapi.Agent.Clients.{AddsOnlyAllowed, send_message_via_peer-AddsOnlyAllowed}
use diameterapi.Agent.Manager.{
  write, written, wrote, send_message, after_write, send_message_via_peer,
}
use diameterapi.Agent.Connection.{loop-IsKept}
use diameterapi.Agent.Closing.{IsRun, new_run-IsRun}

-- Conversions that give the pattern of 0.
abbrev some_floats : Floats
some_floats = record {
  int_to_float32 = λ _. 0;
  int_to_float64 = λ _. 0;
  uint32_to_float32 = λ _. 0;
  uint64_to_float64 = λ _. 0;
}

abbrev local_entity : DiameterEntity
local_entity = record {
  origin_host = b'h' ∷ [];
  origin_realm = b'r' ∷ [];
  host_ip_addresses = (127 ∷ 0 ∷ 0 ∷ 1 ∷ []) ∷ [];
  vendor_id = 0;
  product_name = b'p' ∷ [];
  cache = empty_cache;
}

-- A manager that has sent a Disconnect-Peer-Request.
abbrev waiting_manager : PeerStateManager
waiting_manager = record {
  local_identity = local_entity;
  sequence_generator = new_sequence_generator_set 1 1;
  peer = some (record { identity = local_entity });
  notifier_peer = some (record { identity = local_entity });
  next_state = half_closed;
  now = 0;
  write_results = [];
  log = [];
}

abbrev disconnect_peer_answer : Message
disconnect_peer_answer = record {
  version = 1;
  length = 20;
  flags = 0;
  code = 282;
  app_id = 0;
  hop_by_hop_id = 7;
  end_to_end_id = 8;
  avps = [];
  extended_attributes = none;
  avp_map = none;
}

-- A second attempt to disconnect, and then the peer's answer to the first.
abbrev some_inputs : List (ℕ × Input)
some_inputs = (5, disconnect_initiated) ∷ (6, from_reader (incoming disconnect_peer_answer)) ∷ []

abbrev ended_manager : PeerStateManager
ended_manager =
    record (closing (
      notify_message state_machine_message_received_from_peer disconnect_peer_answer (
        output (replied (some cannot_initiate_disconnect)) (record waiting_manager { now = 6 })))) {
          next_state = disconnected;
        }

some_inputs_run : loop some_floats some_inputs waiting_manager ≡ ok (ended_manager, false)
unfolding loop round on_disconnect_initiated on_message after_reaction send_reaction
    process_incoming process_incoming_dpa state_machine_message_type_for_message is_request
    can_initiate_disconnect diameter_connection_is_closed
some_inputs_run = refl

loop-IsKept_example : IsKept waiting_manager (ended_manager, false)
unfolding diameter_connection_is_closed
loop-IsKept_example =
    loop-IsKept some_floats some_inputs waiting_manager (ended_manager, false) refl some_inputs_run

abbrev client_request : Message
client_request = record disconnect_peer_answer { flags = 0x80; code = 271; app_id = 4 }

client_request_sent :
    send_message_via_peer client_request waiting_manager
    ≡ ok (output (wrote client_request) waiting_manager, none)
unfolding send_message_via_peer send_message write written after_write encode_message encode_avps
    message_is_a_diameter_connection_state_message
client_request_sent = refl

send_message_via_peer-AddsOnlyAllowed_example :
    AddsOnlyAllowed waiting_manager (output (wrote client_request) waiting_manager)
send_message_via_peer-AddsOnlyAllowed_example =
    send_message_via_peer-AddsOnlyAllowed client_request waiting_manager
      (output (wrote client_request) waiting_manager, none) client_request_sent

-- The peer closes the transport before its first message.
abbrev closed_manager : PeerStateManager
closed_manager = (deferred some_floats (notify_reader_error eof waiting_manager, false)).0

closed_early :
    new_run some_floats peer_opened_transport (reader_error eof) [] waiting_manager
    ≡ ok (closed_manager, false)
unfolding new_run execute execute_peer_opened_transport after_execute
closed_early = refl

new_run-IsRun_example : IsRun waiting_manager (closed_manager, false)
new_run-IsRun_example =
    new_run-IsRun some_floats peer_opened_transport (reader_error eof) [] waiting_manager
      (closed_manager, false) closed_early

-- A message of another application, cut in two
abbrev foreign_request : Message
foreign_request = record request { app_id = 4; code = 272 }

foreign_request-IsWellFormed : IsWellFormed foreign_request two_avps
foreign_request-IsWellFormed = record {
  version_fits = request-IsWellFormed.version_fits;
  flags_fit = request-IsWellFormed.flags_fit;
  code_fits = omega arith;
  app_id_fits = omega arith;
  hop_by_hop_id_fits = request-IsWellFormed.hop_by_hop_id_fits;
  end_to_end_id_fits = request-IsWellFormed.end_to_end_id_fits;
  holds = refl;
  avps_are = request-IsWellFormed.avps_are;
  length_exact = request-IsWellFormed.length_exact;
  length_fits = request-IsWellFormed.length_fits;
}

abbrev one_sent : List Sent
one_sent = (foreign_request, two_avps) ∷ []

abbrev list_read : ℕ → List Bytes → List Bytes × Bytes × Option Error
list_read n [] = ([], [], some eof)
list_read n (piece ∷ pieces) = (pieces, piece, none)

abbrev two_pieces : List Bytes
two_pieces = take 7 (stream one_sent) ∷ drop 7 (stream one_sent) ∷ []

abbrev open_manager : PeerStateManager
open_manager = record waiting_manager { next_state = connected }

loop-incoming_message_stream_receiver_example :
    (r : PeerStateManager × Bool) × (loop some_floats
        (map
          (at (λ _. 5))
          (incoming_message_stream_receiver list_read 3 2 (new_message_stream_reader two_pieces)))
        open_manager
      ≡ ok r)
    × IsEnd open_manager (foreign_request ∷ []) r
unfolding state_machine_message_type_for_message
loop-incoming_message_stream_receiver_example =
    loop-incoming_message_stream_receiver some_floats list_read (λ _. 5) one_sent two_pieces 3
      two_pieces open_manager refl (refl, tt) ((foreign_request-IsWellFormed, refl), tt)
      (_, refl, (_, refl, (_, refl)))
      (ap (λ (t : Bytes). take 7 (stream one_sent) ++ t) (append-nil _)
        ∙ take-append-drop 7 (stream one_sent))
      (unfold stream in
        omega (arith, length_stream foreign_request two_avps [] foreign_request-IsWellFormed))
      (omega arith)

-- The timer of 30 seconds, which has expired once.
abbrev timer_at : Bool → ℕ → WatchdogIntervalTimer
timer_at running milliseconds = record {
  timer = record {
    active = running;
    fired = not running;
    duration = (30000 + milliseconds) * 10 ^ 6;
  };
  tw_floor_before_jitter = 30 * 10 ^ 9;
}

timer_at-IsReached : IsReached 30 (timer_at false 100)
unfolding start_new_watchdog_interval_timer new_watchdog_interval_with_jitter
timer_at-IsReached =
    IsReached.expires (timer_at true 100)
      (IsReached.begins 100 (timer_at true 100) (omega arith) refl) refl

watchdog_interval_timer_example :
    (30 * 10 ^ 9 ≤ 30100 * 10 ^ 6)
    × (30100 * 10 ^ 6 < 30 * 10 ^ 9 + 4 * 10 ^ 9)
    × ((t : WatchdogIntervalTimer) × (stop_and_restart 7 (timer_at false 100) ≡ restarted t))
    × ((true ≡ false)
        ⊎ ((t : WatchdogIntervalTimer) × (restart 7
                (record (timer_at false 100) { timer = take_value (timer_at false 100).timer })
              ≡ restarted t)))
watchdog_interval_timer_example =
    watchdog_interval_timer_lem 30 7 (timer_at false 100) (omega arith) (omega arith)
      timer_at-IsReached

-- An identity without addresses, and three connections, the second without a local IP address.
abbrev some_accepts : List Accepted
some_accepts = accepted 1 (some (10 ∷ 0 ∷ 0 ∷ 1 ∷ [])) ∷ accepted 2 none ∷ accepted 3 none ∷ []

abbrev bare_entity : DiameterEntity
bare_entity = record local_entity { host_ip_addresses = [] }

one_started :
    run_receiver_handler bare_entity some_accepts
    ≡ notify_of_incoming_transport 1
      ∷ started_manager (record bare_entity { host_ip_addresses = (10 ∷ 0 ∷ 0 ∷ 1 ∷ []) ∷ [] }) 1
      ∷ notify_of_incoming_transport 2
      ∷ notify_of_receiver_error (some 2) no_local_address
      ∷ closed_connection 2
      ∷ []
unfolding run_receiver_handler
one_started = refl

run_receiver_handler-IsMade_example :
    All
      (IsMade some_floats 1 2 [] bare_entity some_accepts)
      (run_receiver_handler bare_entity some_accepts)
unfolding utf8_valid
run_receiver_handler-IsMade_example =
    run_receiver_handler-IsMade some_floats 1 2 [] bare_entity some_accepts refl tt
      (inl refl, (tt, (tt, tt)))
