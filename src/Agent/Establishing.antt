-- ===== src/Agent/Establishing.antt =====
-- The peer that the initial states let in.
use diameterapi.Common.{
  ◌≡◌, refl, ap, ◌∙◌, inl, inr, Bool, true, false, not, ◌||◌, ◌==◌, Bool-cases, Option, none, some,
  Error, Outcome, ok, err, panics, stuck, >>=-eq-ok, ok_injective, arith,
}
use diameterapi.Message.Types.{Message, is_request, is_answer}
use diameterapi.Typed.Values.{Floats}
use diameterapi.Agent.Identity.{
  DiameterEntity, Peer, capabilities_exchange_code,
  diameter_entity_from_capabilities_exchange_message,
}
use diameterapi.Agent.Manager.{PeerStateManager, generate_cer, generate_cea, write}
use diameterapi.Agent.Run.{
  MessageReaderEvent, incoming, reader_error, InitialPeerState, peer_opened_transport,
  transport_was_opened_locally, Executed, identified, cea_written, answer_cer,
  execute_peer_opened_transport, receive_cea, cer_written, execute_transport_opened_locally,
  execute,
}

-- The first message of the peer is a request exactly if the peer opened the transport.
abbrev pub expects_request : InitialPeerState → Bool
expects_request peer_opened_transport = true
expects_request transport_was_opened_locally = false

module _ (floats : Floats) where
  -- The event is a Capabilities-Exchange message with the identity of the peer.
  pub record IsIdentified (initial : InitialPeerState) (event : MessageReaderEvent) (peer : Peer)
      : Type 0 where
    pub message : Message
    pub received : event ≡ incoming message
    pub base : message.app_id ≡ 0
    pub code : message.code ≡ capabilities_exchange_code
    pub direction : is_request message ≡ expects_request initial
    pub identity :
        (m : Message) × (diameter_entity_from_capabilities_exchange_message floats message
          ≡ ok (m, peer.identity))

  identified-some :
      (next : PeerStateManager → Peer → Executed floats) (x : Outcome (Message × DiameterEntity))
      (s s' : PeerStateManager) (peer : Peer)
      → identified floats next x s ≡ ok (s', some peer)
      → (m : Message) × (e : DiameterEntity) × (x ≡ ok (m, e))
        × (next s (record { identity = e }) ≡ ok (s', some peer))
  identified-some next (ok (m, e)) s s' peer h = (m, e, refl, h)
  identified-some next (err e) s s' peer h = cc
  identified-some next panics s s' peer h = cc
  identified-some next stuck s s' peer h = cc

  cea_written-some :
      (cea : Message) (p : Peer) (r : PeerStateManager × Option Error) (s' : PeerStateManager)
      (peer : Peer)
      → cea_written floats cea p r ≡ (s', some peer)
      → p ≡ peer
  cea_written-some cea p (s, none) s' peer h = cc
  cea_written-some cea p (s, some e) s' peer h = cc

  answer_cer-some :
      (m : Message) (s s' : PeerStateManager) (p peer : Peer)
      → answer_cer floats m s p ≡ ok (s', some peer)
      → p ≡ peer
  unfolding answer_cer
  answer_cer-some m s s' p peer h =
      let (x, _, q) = >>=-eq-ok (generate_cea floats m s) _ h in
      let (r, _, w) = >>=-eq-ok (write x.1 x.0) _ q in
      cea_written-some x.1 p r s' peer (ok_injective w)

  opened-IsIdentified :
      (event : MessageReaderEvent) (s s' : PeerStateManager) (peer : Peer)
      → execute_peer_opened_transport floats event s ≡ ok (s', some peer)
      → IsIdentified peer_opened_transport event peer
  unfolding execute_peer_opened_transport is_answer
  opened-IsIdentified (reader_error e) s s' peer h = cc
  opened-IsIdentified (incoming m) s s' peer h =
      elim (Bool-cases
        (not (m.app_id == 0) || not (m.code == capabilities_exchange_code) || is_answer m)) [
          | inl wrong ↦ cc (rw wrong at h)
          | inr right ↦
              let (m', e, p, q) =
                identified-some (answer_cer floats m)
                  (diameter_entity_from_capabilities_exchange_message floats m) _ s' peer
                  (rw right at h) in
              let same = answer_cer-some m _ s' (record { identity = e }) peer q in
              record {
                message = m;
                received = refl;
                base = ground (arith, right);
                code = ground (arith, right);
                direction = ground (arith, right);
                identity = (m', p ∙ ap (λ (t : Peer). ok (m', t.identity)) same);
              }
        ]

  receive_cea-IsIdentified :
      (event : MessageReaderEvent) (s s' : PeerStateManager) (peer : Peer)
      → receive_cea floats event s ≡ ok (s', some peer)
      → IsIdentified transport_was_opened_locally event peer
  unfolding receive_cea
  receive_cea-IsIdentified (reader_error e) s s' peer h = cc
  receive_cea-IsIdentified (incoming m) s s' peer h =
      elim (Bool-cases
        (not (m.app_id == 0) || not (m.code == capabilities_exchange_code) || is_request m)) [
          | inl wrong ↦ cc (rw wrong at h)
          | inr right ↦
              let (m', e, p, q) =
                identified-some (λ s''. λ peer. ok (s'', some peer))
                  (diameter_entity_from_capabilities_exchange_message floats m) _ s' peer
                  (rw right at h) in
              let same : record { identity = e } ≡ peer = cc in
              record {
                message = m;
                received = refl;
                base = ground (arith, right);
                code = ground (arith, right);
                direction = ground (arith, right);
                identity = (m', p ∙ ap (λ (t : Peer). ok (m', t.identity)) same);
              }
        ]

  cer_written-IsIdentified :
      (cer : Message) (event : MessageReaderEvent) (r : PeerStateManager × Option Error)
      (s' : PeerStateManager) (peer : Peer)
      → cer_written floats cer event r ≡ ok (s', some peer)
      → IsIdentified transport_was_opened_locally event peer
  cer_written-IsIdentified cer event (s, none) s' peer h =
      receive_cea-IsIdentified event _ s' peer h
  cer_written-IsIdentified cer event (s, some e) s' peer h = cc

  -- An initial state lets a peer in only if the first event of the reader is a message of the base
  -- application with the code of the Capabilities-Exchange, a request where the peer opened the transport
  -- and an answer where it was opened locally, from which the identity of the peer was extracted.
  pub execute-IsIdentified :
      (initial : InitialPeerState) (event : MessageReaderEvent) (s s' : PeerStateManager)
      (peer : Peer)
      → execute floats initial event s ≡ ok (s', some peer)
      → IsIdentified initial event peer
  unfolding execute execute_transport_opened_locally
  execute-IsIdentified peer_opened_transport event s s' peer h =
      opened-IsIdentified event s s' peer h
  execute-IsIdentified transport_was_opened_locally event s s' peer h =
      let (x, _, q) = >>=-eq-ok (generate_cer floats s) _ h in
      let (r, _, w) = >>=-eq-ok (write x.1 x.0) _ q in
      cer_written-IsIdentified x.1 event r s' peer w
