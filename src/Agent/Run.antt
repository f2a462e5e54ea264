-- ===== src/Agent/Run.antt =====
-- agent/peer_state_manager.go: the initial states and `NewRun`. One round of the loop is a step on one
-- ready case of the `select`; the cases come in any order. The watchdog's timer only says when its case
-- is ready.
use diameterapi.Common.{
  ℕ, Bool, true, false, not, ◌||◌, ◌==◌, if◌then◌else◌, List, [], ◌∷◌, Option, none, some, Error,
  cannot_initiate_disconnect, expected_cer, expected_cea, write_cea_failure, Outcome, ok, err,
  panics, stuck, ◌>>=◌,
}
use diameterapi.Message.Types.{Message, is_request, is_answer}
use diameterapi.Typed.Values.{Floats}
use diameterapi.Agent.Identity.{
  DiameterEntity, Peer, capabilities_exchange_code,
  diameter_entity_from_capabilities_exchange_message,
}
use diameterapi.Agent.Manager.{
  PeerState, connected, half_closed, PeerStateManager, output, replied, closed_transport, notify,
  notify_error, notify_message, emit, peer_closed_transport, closed_transport_to_peer,
  diameter_connection_established, state_machine_message_received_from_peer,
  state_machine_message_sent_to_peer, message_received_from_peer, is_eof, write,
  send_state_machine_message, message_is_a_diameter_connection_state_message, generate_cer,
  generate_cea, generate_dwr, generate_dpr,
}
use diameterapi.Agent.States.{
  StateMachineMessageType, not_a_state_machine_message, state_machine_message_type_for_message,
  PeerStateError, Reaction, diameter_connection_is_closed, can_initiate_disconnect,
  process_incoming,
}

-- `messageReaderEvent`
pub data MessageReaderEvent : Type 0 where
  incoming : Message → MessageReaderEvent
  reader_error : Error → MessageReaderEvent

pub data InitialPeerState : Type 0 where
  peer_opened_transport transport_was_opened_locally : InitialPeerState

-- A ready case of the `select`
pub data Input : Type 0 where
  disconnect_initiated : Input
  from_reader : MessageReaderEvent → Input
  watchdog_expired : Input
  quit : Input

-- A round ends with the loop going on (`true`) or with a return (`false`).
abbrev pub Round : Type 0
Round = Outcome (PeerStateManager × Bool)

abbrev pub goes_on : PeerStateManager → Round
goes_on s = ok (s, true)

abbrev pub returns : PeerStateManager → Round
returns s = ok (s, false)

-- `if messageReaderEvent.Error == io.EOF { … } else { … }`
abbrev pub notify_reader_error : Error → PeerStateManager → PeerStateManager
notify_reader_error e s =
    if is_eof e then notify peer_closed_transport none none s else notify_error e s

-- The messages of the state machine are reported as such.
abbrev pub notify_received : Message → Bool → PeerStateManager → PeerStateManager
notify_received m of_state_machine s =
    if of_state_machine
    then notify_message state_machine_message_received_from_peer m s
    else notify_message message_received_from_peer m s

abbrev pub is_state_machine_type : StateMachineMessageType → Bool
is_state_machine_type not_a_state_machine_message = false
is_state_machine_type _ = true

-- The error of an attempt to send, where there is one.
abbrev pub notify_if_error : PeerStateManager × Option Error → PeerStateManager
notify_if_error (s, none) = s
notify_if_error (s, some e) = notify_error e s

module _ (floats : Floats) where
  -- `manager.SendStateMachineMessage(manager.generateDPR())`
  unfoldable pub send_dpr : PeerStateManager → Outcome (PeerStateManager × Option Error)
  send_dpr s = do (s', dpr) ← generate_dpr floats s; send_state_machine_message dpr s'

  abbrev pub disconnect_reply : PeerStateManager × Option Error → PeerStateManager × Bool
  disconnect_reply (s, some e) = (output (replied (some e)) s, false)
  disconnect_reply (s, none) = (output (replied none) (record s { next_state = half_closed }), true)

  unfoldable pub on_disconnect_initiated : PeerStateManager → Round
  unfolding send_dpr
  on_disconnect_initiated s =
      if can_initiate_disconnect s.next_state
      then (do r ← send_dpr s; ok (disconnect_reply r))
      else goes_on (output (replied (some cannot_initiate_disconnect)) s)

  -- `if psErr != nil { … }`
  unfoldable pub on_failure : PeerStateError → PeerStateManager → Round
  unfolding send_dpr
  on_failure failure s =
      let s' = notify_error failure.error s in
      if failure.initiate_disconnect_peer
      then (do r ← send_dpr s'; returns (notify_if_error r))
      else returns s'

  abbrev pub loop_end : PeerState → PeerStateManager → PeerStateManager × Bool
  loop_end state s = (s, not (diameter_connection_is_closed state))

  abbrev pub after_answer : PeerState → PeerStateManager × Option Error → PeerStateManager × Bool
  after_answer state (s, none) = loop_end state s
  after_answer state (s, some e) = (notify_error e s, false)

  -- `if messageToSend != nil { … }`, and the test that ends the loop
  unfoldable pub send_reaction : PeerState → Option Message → PeerStateManager → Round
  send_reaction state none s = ok (loop_end state s)
  send_reaction state (some m) s = do r ← send_state_machine_message m s; ok (after_answer state r)

  unfoldable pub after_reaction : Reaction → PeerStateManager → Round
  unfolding on_failure send_reaction
  after_reaction reaction s =
      let s' = record s { next_state = reaction.next_state } in
      elim reaction.failure [
        | some failure ↦ on_failure failure s'
        | none ↦ send_reaction reaction.next_state reaction.message_to_send s'
      ]

  unfoldable pub on_message : Message → PeerStateManager → Round
  unfolding after_reaction process_incoming state_machine_message_type_for_message
  on_message m s = do
    let message_type = state_machine_message_type_for_message m
    let s' = notify_received m (is_state_machine_type message_type) s
    (s'', reaction) ← process_incoming floats message_type s.next_state m s'
    after_reaction reaction s''

  unfoldable pub on_watchdog : PeerStateManager → Round
  on_watchdog s = do
    (s', dwr) ← generate_dwr floats s
    r ← send_state_machine_message dwr s'
    goes_on (notify_if_error r)

  -- One round of the loop at the time `now`
  unfoldable pub round : ℕ × Input → PeerStateManager → Round
  unfolding on_disconnect_initiated on_message on_watchdog
  round (now, disconnect_initiated) s = on_disconnect_initiated (record s { now = now })
  round (now, from_reader (incoming m)) s = on_message m (record s { now = now })
  round (now, from_reader (reader_error e)) s =
      returns (notify_reader_error e (record s { now = now }))
  round (now, watchdog_expired) s = on_watchdog (record s { now = now })
  round (now, quit) s = returns (record s { now = now })

  -- The loop on the ready cases in their order, until it returns or they end.
  unfoldable pub loop : List (ℕ × Input) → PeerStateManager → Round
  unfolding round
  loop [] s = goes_on s
  loop (input ∷ inputs) s = do
    (s', on) ← round input s
    let rest = loop inputs s'
    if on then rest else returns s'

  -- `Execute` of both initial states returns the peer, or none where a fatal error occurred.
  abbrev pub Executed : Type 0
  Executed = Outcome (PeerStateManager × Option Peer)

  -- The peer of a message with an identity; an error of the extraction is reported.
  abbrev pub identified :
      (PeerStateManager → Peer → Executed)
      → Outcome (Message × DiameterEntity)
      → PeerStateManager
      → Executed
  identified next (ok (m, e)) s = next s (record { identity = e })
  identified next (err e) s = ok (notify_error e s, none)
  identified next panics s = panics
  identified next stuck s = stuck

  abbrev pub cea_written :
      Message → Peer → PeerStateManager × Option Error → PeerStateManager × Option Peer
  cea_written cea peer (s, none) =
      (notify_message state_machine_message_sent_to_peer cea s, some peer)
  cea_written cea peer (s, some e) = (notify_error write_cea_failure s, none)

  -- The Capabilities-Exchange-Answer to the peer
  unfoldable pub answer_cer : Message → PeerStateManager → Peer → Executed
  answer_cer m s peer = do
    (s', cea) ← generate_cea floats m s
    r ← write cea s'
    ok (cea_written cea peer r)

  -- `(*InitialPeerStatePeerOpenedTransport).Execute`
  unfoldable pub execute_peer_opened_transport : MessageReaderEvent → PeerStateManager → Executed
  unfolding answer_cer
  execute_peer_opened_transport (reader_error e) s = ok (notify_reader_error e s, none)
  execute_peer_opened_transport (incoming m) s =
      let s' = notify_received m (message_is_a_diameter_connection_state_message m) s in
      if not (m.app_id == 0) || not (m.code == capabilities_exchange_code) || is_answer m
      then ok (notify_error expected_cer s', none)
      else identified (answer_cer m) (diameter_entity_from_capabilities_exchange_message floats m)
          s'

  -- The rest of the other `Execute`, behind the Capabilities-Exchange-Request
  unfoldable pub receive_cea : MessageReaderEvent → PeerStateManager → Executed
  receive_cea (reader_error e) s = ok (notify_reader_error e s, none)
  receive_cea (incoming m) s =
      let s' = notify_received m (message_is_a_diameter_connection_state_message m) s in
      if not (m.app_id == 0) || not (m.code == capabilities_exchange_code) || is_request m
      then ok (notify_error expected_cea s', none)
      else identified (λ s''. λ peer. ok (s'', some peer))
          (diameter_entity_from_capabilities_exchange_message floats m) s'

  abbrev pub cer_written : Message → MessageReaderEvent → PeerStateManager × Option Error → Executed
  cer_written cer event (s, some e) = ok (notify_error e s, none)
  cer_written cer event (s, none) =
      receive_cea event (notify_message state_machine_message_sent_to_peer cer s)

  -- `(*InitialPeerStatePeerTransportWasOpenedLocally).Execute`
  unfoldable pub execute_transport_opened_locally : MessageReaderEvent → PeerStateManager → Executed
  unfolding receive_cea
  execute_transport_opened_locally event s = do
    (s', cer) ← generate_cer floats s
    r ← write cer s'
    cer_written cer event r

  unfoldable pub execute : InitialPeerState → MessageReaderEvent → PeerStateManager → Executed
  unfolding execute_peer_opened_transport execute_transport_opened_locally
  execute peer_opened_transport event s = execute_peer_opened_transport event s
  execute transport_was_opened_locally event s = execute_transport_opened_locally event s

  -- The deferred function of `NewRun`
  abbrev pub deferred : PeerStateManager × Bool → PeerStateManager × Bool
  deferred (s, true) = (s, true)
  deferred (s, false) = (emit closed_transport_to_peer none (output closed_transport s), false)

  abbrev pub established : Peer → PeerStateManager → PeerStateManager
  established peer s =
      notify diameter_connection_established none none
        (record s { peer = some peer; notifier_peer = some peer; next_state = connected })

  unfoldable pub after_execute : List (ℕ × Input) → PeerStateManager × Option Peer → Round
  unfolding loop
  after_execute inputs (s, none) = returns s
  after_execute inputs (s, some peer) = loop inputs (established peer s)

  -- `NewRun`, on the first event of the reader and the ready cases of the rounds.
  unfoldable pub new_run :
      InitialPeerState → MessageReaderEvent → List (ℕ × Input) → PeerStateManager → Round
  unfolding after_execute execute
  new_run initial event inputs s = do
    executed ← execute initial event s
    r ← after_execute inputs executed
    ok (deferred r)
