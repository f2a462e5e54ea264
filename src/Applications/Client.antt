-- ===== src/Applications/Client.antt =====
-- examples/applications/base_application_client/main.go: the loop around the sessions. The results of
-- `SendMessage` and `InitiateDisconnect` are parameters, and so is the order in which `range` goes through
-- the map of sessions. A reaction is the sessions that it leaves, what was done, and whether the loop goes
-- on.
use diameterapi.Common.{
  ℕ, Bool, true, false, ◌&&◌, ◌==◌, if◌then◌else◌, List, [], ◌∷◌, ◌++◌, Option, some, none, Error,
  cca_without_session, cca_of_unknown_session, unexpected_cca, Outcome, ok, err, panics, stuck,
  ◌>>=◌,
}
use diameterapi.Common.Dict.{Dict, get, put, remove, bytes_key}
use diameterapi.Wire.{Bytes}
use diameterapi.Avp.Types.{Avp}
use diameterapi.Message.Types.{Message, is_answer}
use diameterapi.Message.Query.{first_avp_matching}
use diameterapi.Typed.Values.{Floats}
use diameterapi.Dictionary.Types.{Dictionary}
use diameterapi.Agent.Identity.{DiameterEntity}
use diameterapi.Agent.Manager.{
  PeerEventType, closed_transport_to_peer, diameter_connection_established,
  state_machine_message_received_from_peer, state_machine_message_sent_to_peer,
  message_received_from_peer, error_occurred, listener_accepted_transport,
}
use diameterapi.Applications.Sessions.{
  DiameterSession, new_diameter_session, next_message_for_session, was_terminating,
}

pub data ClientAction : Type 0 where
  logged_event : PeerEventType → ClientAction
  logged_received logged_sent : Message → ClientAction
  logged_error : Option Error → ClientAction
  sent_request : Message → ClientAction
  initiated_disconnect : ClientAction
  exited : ℕ → ClientAction

abbrev pub Sessions : Type 0
Sessions = Dict Bytes DiameterSession

-- The sessions, the actions, and whether the loop goes on
abbrev pub ClientReaction : Type 0
ClientReaction = Sessions × List ClientAction × Bool

-- The loop that generates the sessions, at the times of the calls. Two equal identifiers end the program.
unfoldable pub generate_sessions : DiameterEntity → Dictionary → List ℕ → Sessions → Option Sessions
generate_sessions entity dictionary [] sessions = some sessions
generate_sessions entity dictionary (now ∷ times) sessions =
    let s = new_diameter_session now entity dictionary 3 in
    let rest = generate_sessions entity dictionary times (put s.session_id s sessions) in
    elim (get s.session_id sessions) [ some other ↦ none | none ↦ rest ]

-- What `SendMessage` and `InitiateDisconnect` return, and the message as `SendMessage` leaves it
pub record Outside : Type 0 where
  pub send : Message → Message × Option Error
  pub disconnect : Option Error

-- `tryToSendMessageToPeer` and what follows it: the exit, or the log.
abbrev pub after_disconnect : Option Error → List ClientAction
after_disconnect (some e) = initiated_disconnect ∷ logged_error (some e) ∷ exited 4 ∷ []
after_disconnect none = initiated_disconnect ∷ exited 2 ∷ []

abbrev pub after_attempt : Message × Option Error → Option Error → List ClientAction × Bool
after_attempt (m, some e) disconnect =
    (sent_request m ∷ logged_error (some e) ∷ after_disconnect disconnect, false)
after_attempt (m, none) disconnect = (sent_request m ∷ logged_sent m ∷ [], true)

unfoldable pub try_to_send : Outside → Message → List ClientAction × Bool
try_to_send outside m = after_attempt (outside.send m) outside.disconnect

-- `if len(sessionBySessionId) == 0 { … }`
abbrev pub disconnect_if_empty : Outside → Sessions → List ClientAction × Bool
disconnect_if_empty outside (s ∷ sessions) = ([], true)
disconnect_if_empty outside [] = elim outside.disconnect [
  | some e ↦ (initiated_disconnect ∷ logged_error (some e) ∷ exited 3 ∷ [], false)
  | none ↦ (initiated_disconnect ∷ [], true)
]

-- The next request of a session in reaction to an answer, where there is one
abbrev pub send_next : Outside → Sessions → Outcome (Option Message) → Outcome ClientReaction
send_next outside sessions (ok (some ccr)) =
    let (actions, on) = try_to_send outside ccr in ok (sessions, actions, on)
send_next outside sessions (ok none) = ok (sessions, logged_error (some unexpected_cca) ∷ [], true)
send_next outside sessions (err e) = err e
send_next outside sessions panics = panics
send_next outside sessions stuck = stuck

module _ (floats : Floats) where
  -- The session that an answer names, found or not
  unfoldable pub on_session :
      Outside → Bytes → Option DiameterSession → Sessions → Outcome ClientReaction
  unfolding send_next disconnect_if_empty
  on_session outside id none sessions =
      ok (sessions, logged_error (some cca_of_unknown_session) ∷ [], true)
  on_session outside id (some session) sessions =
      if was_terminating session
      then (let left = remove id sessions in
          let (actions, on) = disconnect_if_empty outside left in ok (left, actions, on))
      else (let (session', ccr) = next_message_for_session floats session in
          send_next outside (put id session' sessions) ccr)

  abbrev pub on_session_avp : Outside → Sessions → Option Avp → Outcome ClientReaction
  on_session_avp outside sessions none =
      ok (sessions, logged_error (some cca_without_session) ∷ [], true)
  on_session_avp outside sessions (some a) =
      on_session outside a.payload (get a.payload sessions) sessions

  unfoldable pub on_peer_message : Outside → Message → Sessions → Outcome ClientReaction
  unfolding on_session on_session_avp
  on_peer_message outside m sessions =
      if m.app_id == 0 && m.code == 272 && is_answer m
      then (do
        (m', avp) ← first_avp_matching m 0 263
        (sessions', actions, on) ← on_session_avp outside sessions avp
        ok (sessions', logged_received m ∷ actions, on))
      else ok (sessions, logged_received m ∷ [], true)

  -- The first requests, for the sessions in the order of `range`. A message that is nil is dereferenced
  -- by `SendMessage`.
  abbrev pub start_further :
      (Sessions → Outcome ClientReaction)
      → Outside
      → Sessions
      → Outcome (Option Message)
      → Outcome ClientReaction
  start_further more outside sessions (ok (some ccr)) =
      let (actions, on) = try_to_send outside ccr in
      let rest = more sessions in
      if on
      then (do (sessions', actions', on') ← rest; ok (sessions', actions ++ actions', on'))
      else ok (sessions, actions, false)
  start_further more outside sessions (ok none) = panics
  start_further more outside sessions (err e) = err e
  start_further more outside sessions panics = panics
  start_further more outside sessions stuck = stuck

  unfoldable pub start_sessions : Outside → List Bytes → Sessions → Outcome ClientReaction
  unfolding start_further
  start_sessions outside [] sessions = ok (sessions, [], true)
  start_sessions outside (id ∷ ids) sessions = elim (get id sessions) [
    | none ↦ start_sessions outside ids sessions
    | some s ↦
        let (s', ccr) = next_message_for_session floats s in
        start_further (start_sessions outside ids) outside (put id s' sessions) ccr
  ]

  -- The `switch`, with the order of `range`, and the message and the error of the event
  unfoldable pub react_as_client :
      Outside
      → List Bytes
      → PeerEventType
      → Option Message
      → Option Error
      → Sessions
      → Outcome ClientReaction
  unfolding on_peer_message start_sessions
  react_as_client outside order closed_transport_to_peer m e sessions =
      ok (sessions, logged_event closed_transport_to_peer ∷ [], false)
  react_as_client outside order state_machine_message_received_from_peer (some m) e sessions =
      ok (sessions, logged_received m ∷ [], true)
  react_as_client outside order state_machine_message_received_from_peer none e sessions = panics
  react_as_client outside order state_machine_message_sent_to_peer (some m) e sessions =
      ok (sessions, logged_sent m ∷ [], true)
  react_as_client outside order state_machine_message_sent_to_peer none e sessions = panics
  react_as_client outside order diameter_connection_established m e sessions = do
    (sessions', actions, on) ← start_sessions outside order sessions
    ok (sessions', logged_event diameter_connection_established ∷ actions, on)
  react_as_client outside order message_received_from_peer (some m) e sessions =
      on_peer_message outside m sessions
  react_as_client outside order message_received_from_peer none e sessions = panics
  react_as_client outside order error_occurred m e sessions =
      ok (sessions, logged_error e ∷ [], true)
  react_as_client outside order listener_accepted_transport m e sessions = ok (sessions, [], true)
  react_as_client outside order t m e sessions = ok (sessions, logged_event t ∷ [], true)
