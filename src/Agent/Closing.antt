-- ===== src/Agent/Closing.antt =====
-- Whole runs of `NewRun`.
use diameterapi.Common.{
  ℕ, ◌+◌, ◌≤◌, ◌≡◌, refl, ◌∙◌, subst, inl, inr, Bool, true, false, not, ◌||◌, ◌==◌, Bool-cases,
  List, [], ◌∷◌, ◌++◌, append_assoc, Option, none, some, Error, Outcome, ok, err, panics, stuck,
  ok_injective, >>=-eq-ok, arith,
}
use diameterapi.Message.Types.{Message, is_request, is_answer}
use diameterapi.Typed.Values.{Floats}
use diameterapi.Agent.Identity.{
  DiameterEntity, Peer, capabilities_exchange_code, capabilities_exchange_mandatory_avps,
  diameter_entity_from_capabilities_exchange_message,
}
use diameterapi.Agent.Manager.{
  PeerStateManager, Output, event, closed_transport, closed_transport_to_peer,
  message_is_a_diameter_connection_state_message, write, generate_cer, generate_cea, answer_avps,
}
use diameterapi.Agent.States.{diameter_connection_is_closed}
use diameterapi.Agent.Run.{
  Input, InitialPeerState, peer_opened_transport, transport_was_opened_locally, MessageReaderEvent,
  incoming, reader_error, Executed, identified, cea_written, answer_cer, notify_received,
  execute_peer_opened_transport, receive_cea, cer_written, execute_transport_opened_locally,
  execute, established, after_execute, deferred, new_run,
}
use diameterapi.Agent.Sending.{
  closed_events, IsAfter, IsAfter-trans, Quiet, write-Quiet, generate_request-Quiet,
  generate_answer-Quiet,
}
use diameterapi.Agent.Loop.{IsOpen, IsKept, IsKept-returned}
use diameterapi.Agent.Quiet.{
  notify_one, notify_received_quiet, notify_reader_error_quiet, from_quiet, from_quiet_log,
}
use diameterapi.Agent.Connection.{loop-IsKept}

-- The connection is open and no event has said that it was closed, or `NewRun` has returned: one event
-- at most has, and then the transport was closed and the event of that was sent, at the end.
abbrev pub IsRun : PeerStateManager → PeerStateManager × Bool → Type 0
IsRun s (s', true) = IsOpen s'.next_state × (closed_events s'.log ≡ closed_events s.log)
IsRun s (s', false) =
    (before : List Output) × (s'.log
      ≡ before
        ++ (closed_transport
            ∷ event (record {
              event_type = closed_transport_to_peer;
              peer = s'.peer;
              error = none;
              message = none;
            })
            ∷ []))
    × (closed_events before ≤ closed_events s.log + 1)

module _ (floats : Floats) where
  -- What quiet steps lead to is quiet.
  abbrev Quietly : PeerStateManager → Executed floats → Type 0
  Quietly s r = (x : PeerStateManager × Option Peer) → r ≡ ok x → Quiet s x

  here : (s : PeerStateManager) (y : PeerStateManager × Option Peer) → Quiet s y → Quietly s (ok y)
  here s y h x e = subst (Quiet s) (ok_injective e) h

  identified-Quiet :
      (s : PeerStateManager) (next : PeerStateManager → Peer → Executed floats)
      (r : Outcome (Message × DiameterEntity)) (s' : PeerStateManager)
      → IsAfter 0 s s'
      → ((peer : Peer) → Quietly s (next s' peer))
      → Quietly s (identified floats next r s')
  identified-Quiet s next (ok (m, e)) s' h k x p = k (record { identity = e }) x p
  identified-Quiet s next (err c) s' h k x p =
      here s _ (IsAfter-trans h (notify_one s' _ (some c) none refl)) x p
  identified-Quiet s next panics s' h k x p = cc
  identified-Quiet s next stuck s' h k x p = cc

  cea_written-Quiet :
      (s : PeerStateManager) (cea : Message) (peer : Peer) (r : PeerStateManager × Option Error)
      → Quiet s r
      → Quiet s (cea_written floats cea peer r)
  cea_written-Quiet s cea peer (s', none) h = IsAfter-trans h (notify_one s' _ none (some cea) refl)
  cea_written-Quiet s cea peer (s', some e) h = IsAfter-trans h (notify_one s' _ (some _) none refl)

  answer_cer-Quiet :
      (s s' : PeerStateManager) (m : Message) (peer : Peer)
      → IsAfter 0 s s'
      → Quietly s (answer_cer floats m s' peer)
  unfolding answer_cer generate_cea
  answer_cer-Quiet s s' m peer h x e =
      let (y, p, q) = >>=-eq-ok (generate_cea floats m s') _ e in
      let (r, w, k) = >>=-eq-ok (write y.1 y.0) _ q in
      let made = generate_answer-Quiet floats m (answer_avps floats) s' y p in
      here s _
        (cea_written-Quiet s y.1 peer r
          (IsAfter-trans h (IsAfter-trans made (write-Quiet y.1 y.0 r w))))
        x k

  opened-Quiet :
      (first : MessageReaderEvent) (s : PeerStateManager)
      → Quietly s (execute_peer_opened_transport floats first s)
  unfolding execute_peer_opened_transport
  opened-Quiet (reader_error c) s x e = here s _ (notify_reader_error_quiet c s) x e
  opened-Quiet (incoming m) s x e =
      let b = message_is_a_diameter_connection_state_message m in
      let told = notify_received_quiet m b s in
      elim (Bool-cases
        (not (m.app_id == 0) || not (m.code == capabilities_exchange_code) || is_answer m)) [
          | inl k ↦
              here s _
                (IsAfter-trans told (notify_one (notify_received m b s) _ (some _) none refl)) x
                (rw k at e)
          | inr k ↦
              identified-Quiet s (answer_cer floats m)
                (diameter_entity_from_capabilities_exchange_message floats m)
                (notify_received m b s) told
                (λ peer. answer_cer-Quiet s (notify_received m b s) m peer told) x (rw k at e)
        ]

  receive_cea-Quiet :
      (first : MessageReaderEvent) (s s' : PeerStateManager)
      → IsAfter 0 s s'
      → Quietly s (receive_cea floats first s')
  unfolding receive_cea
  receive_cea-Quiet (reader_error c) s s' h x e =
      here s _ (IsAfter-trans h (notify_reader_error_quiet c s')) x e
  receive_cea-Quiet (incoming m) s s' h x e =
      let b = message_is_a_diameter_connection_state_message m in
      let told = IsAfter-trans h (notify_received_quiet m b s') in
      elim (Bool-cases
        (not (m.app_id == 0) || not (m.code == capabilities_exchange_code) || is_request m)) [
          | inl k ↦
              here s _
                (IsAfter-trans told (notify_one (notify_received m b s') _ (some _) none refl)) x
                (rw k at e)
          | inr k ↦
              identified-Quiet s (λ s''. λ peer. ok (s'', some peer))
                (diameter_entity_from_capabilities_exchange_message floats m)
                (notify_received m b s') told (λ peer. here s _ told) x (rw k at e)
        ]

  cer_written-Quiet :
      (s : PeerStateManager) (cer : Message) (first : MessageReaderEvent)
      (r : PeerStateManager × Option Error)
      → Quiet s r
      → Quietly s (cer_written floats cer first r)
  cer_written-Quiet s cer first (s', some e) h =
      here s _ (IsAfter-trans h (notify_one s' _ (some e) none refl))
  cer_written-Quiet s cer first (s', none) h =
      receive_cea-Quiet first s _ (IsAfter-trans h (notify_one s' _ none (some cer) refl))

  -- The initial states report no end of a Diameter connection.
  execute-Quiet :
      (initial : InitialPeerState) (first : MessageReaderEvent) (s : PeerStateManager)
      → Quietly s (execute floats initial first s)
  unfolding execute execute_transport_opened_locally generate_cer
  execute-Quiet peer_opened_transport first s x e = opened-Quiet first s x e
  execute-Quiet transport_was_opened_locally first s x e =
      let (y, p, q) = >>=-eq-ok (generate_cer floats s) _ e in
      let (r, w, k) = >>=-eq-ok (write y.1 y.0) _ q in
      let made =
        generate_request-Quiet floats capabilities_exchange_code
          (capabilities_exchange_mandatory_avps floats) s y p in
      cer_written-Quiet s y.1 first r (IsAfter-trans made (write-Quiet y.1 y.0 r w)) x k

  established-log :
      (peer : Peer) (s : PeerStateManager)
      → closed_events (established floats peer s).log ≡ closed_events s.log
  established-log peer s =
      (notify_one (record s { peer = some peer; notifier_peer = some peer }) _ none none
        refl).closed
      ∙ omega arith

  after_execute-IsKept :
      (s : PeerStateManager) (inputs : List (ℕ × Input)) (y : PeerStateManager × Option Peer)
      (x : PeerStateManager × Bool)
      → Quiet s y
      → after_execute floats inputs y ≡ ok x
      → IsKept s x
  unfolding after_execute diameter_connection_is_closed
  after_execute-IsKept s inputs (s', none) x h e =
      subst (IsKept s) (ok_injective e) (IsKept-returned s s' (omega (arith, h.closed)))
  after_execute-IsKept s inputs (s', some peer) x h e = from_quiet s s' x h (
      from_quiet_log s' (established floats peer s') x (established-log peer s')
        (loop-IsKept floats inputs (established floats peer s') x refl e))

  deferred-IsRun :
      (s : PeerStateManager) (x : PeerStateManager × Bool)
      → IsKept s x
      → IsRun s (deferred floats x)
  deferred-IsRun s (s', true) k = (k.still_open refl, k.none_closed refl)
  deferred-IsRun s (s', false) k =
      (s'.log, append_assoc s'.log (closed_transport ∷ []) _, k.at_most_one)

  -- On whatever first event and ready cases, from either initial state: as long as `NewRun` goes on, the
  -- connection is open and no event says that it was closed. When it has returned, with or without a Diameter
  -- connection in between, the end of the Diameter connection was reported once at most, and the last that
  -- it did was to close the transport and to send the event of that.
  pub new_run-IsRun :
      (initial : InitialPeerState) (first : MessageReaderEvent) (inputs : List (ℕ × Input))
      (s : PeerStateManager) (x : PeerStateManager × Bool)
      → new_run floats initial first inputs s ≡ ok x
      → IsRun s x
  unfolding new_run
  new_run-IsRun initial first inputs s x e =
      let (y, p, q) = >>=-eq-ok (execute floats initial first s) _ e in
      let (z, w, k) = >>=-eq-ok (after_execute floats inputs y) (λ r. ok (deferred floats r)) q in
      subst (IsRun s) (ok_injective k) (
        deferred-IsRun s z
          (after_execute-IsKept s inputs y z (execute-Quiet initial first s y p) w))
