-- ===== src/Agent/Reports.antt =====
-- What the loop reports of the messages that a transport delivers.
use diameterapi.Common.{
  ℕ, zero, suc, ◌<◌, ◌^◌, ◌≡◌, refl, ap, ◌∙◌, Bool, true, false, List, [], ◌∷◌, ◌++◌, length, map,
  append_assoc, Option, none, some, All, Error, eof, Outcome, ok, err, panics, stuck,
}
use diameterapi.Wire.{Bytes}
use diameterapi.Message.Types.{Message}
use diameterapi.Typed.Values.{Floats}
use diameterapi.Reader.Stream.{
  MessageStreamReader, new_message_stream_reader, read_next_message, read_until_error, collect,
}
use diameterapi.Reader.Sent.{Sent, IsSent, stream, received}
use diameterapi.Reader.Chunks.{joined}
use diameterapi.Reader.Delivery.{Delivers, read_until_error_lem}
use diameterapi.Agent.Manager.{
  connected, PeerStateManager, Output, event, notify_message, message_received_from_peer,
  peer_closed_transport,
}
use diameterapi.Agent.States.{
  not_a_state_machine_message, state_machine_message_type_for_message, process_incoming,
  process_incoming_non_state_machine_message, diameter_connection_is_closed,
}
use diameterapi.Agent.Run.{
  MessageReaderEvent, incoming, reader_error, Input, from_reader, loop, round, on_message,
  after_reaction, send_reaction,
}
use diameterapi.Agent.Receiver.{receive_further, incoming_message_stream_receiver}

module _ {ℓ} {S : Type ℓ} (read : ℕ → S → S × Bytes × Option Error) where
  further-collect :
      (more : MessageStreamReader S → List Message × Option Error)
      (further : MessageStreamReader S → List MessageReaderEvent)
      (r : MessageStreamReader S × Outcome Message) (ms : List Message) (e : Error)
      → ((reader : MessageStreamReader S) (ns : List Message)
          → more reader ≡ (ns, some e)
          → further reader ≡ map incoming ns ++ (reader_error e ∷ []))
      → collect read more r ≡ (ms, some e)
      → receive_further read further r ≡ map incoming ms ++ (reader_error e ∷ [])
  unfolding collect
  further-collect more further (reader, ok m) ms e h k =
      let same : m ∷ (more reader).0 ≡ ms = ap (λ (x : List Message × Option Error). x.0) k in
      let ends : (more reader).1 ≡ some e = ap (λ (x : List Message × Option Error). x.1) k in
      ap (◌∷◌ (incoming m))
        (h reader (more reader).0 (ap (λ (x : Option Error). ((more reader).0, x)) ends))
      ∙ ap (λ (ns : List Message). map incoming ns ++ (reader_error e ∷ [])) same
  further-collect more further (reader, err x) ms e h k =
      let none_read : [] ≡ ms = ap (λ (x : List Message × Option Error). x.0) k in
      let same : x ≡ e = cc in
      ap (λ (y : Error). reader_error y ∷ []) same
      ∙ ap (λ (ns : List Message). map incoming ns ++ (reader_error e ∷ [])) none_read
  further-collect more further (reader, panics) ms e h k = cc
  further-collect more further (reader, stuck) ms e h k = cc

  -- The events are the messages that the calls return, and their error.
  receiver-read_until_error :
      (fuel calls : ℕ) (reader : MessageStreamReader S) (ms : List Message) (e : Error)
      → read_until_error read fuel calls reader ≡ (ms, some e)
      → incoming_message_stream_receiver read fuel calls reader
        ≡ map incoming ms ++ (reader_error e ∷ [])
  unfolding read_until_error incoming_message_stream_receiver
  receiver-read_until_error fuel zero reader ms e h = cc
  receiver-read_until_error fuel (suc calls) reader ms e h =
      further-collect (read_until_error read fuel calls)
        (incoming_message_stream_receiver read fuel calls) (read_next_message read fuel reader) ms e
        (λ reader'. λ ns. receiver-read_until_error fuel calls reader' ns e) h

-- The event that says that a message was received, and the manager behind it
abbrev pub report : PeerStateManager → Message → Output
report s m = event (record {
  event_type = message_received_from_peer;
  peer = s.notifier_peer;
  error = none;
  message = some m;
})

abbrev pub report_closed : PeerStateManager → Output
report_closed s = event (record {
  event_type = peer_closed_transport;
  peer = s.notifier_peer;
  error = none;
  message = none;
})

abbrev reported : ℕ → Message → PeerStateManager → PeerStateManager
reported now m s = notify_message message_received_from_peer m (record s { now = now })

-- The ready cases of the loop that events of the reader make, at the times that `clock` gives
abbrev pub at : (MessageReaderEvent → ℕ) → MessageReaderEvent → ℕ × Input
at clock e = (clock e, from_reader e)

-- The loop has returned, and the log tells the messages and the end.
abbrev pub IsEnd : PeerStateManager → List Message → PeerStateManager × Bool → Type 0
IsEnd s ms r = (r.1 ≡ false) × (r.0.log ≡ s.log ++ (map (report s) ms ++ (report_closed s ∷ [])))

module _ (floats : Floats) where
  round-reported :
      (now : ℕ) (m : Message) (s : PeerStateManager)
      → s.next_state ≡ connected
      → state_machine_message_type_for_message m ≡ not_a_state_machine_message
      → round floats (now, from_reader (incoming m)) s ≡ ok (reported now m s, true)
  unfolding round on_message after_reaction send_reaction process_incoming
      process_incoming_non_state_machine_message diameter_connection_is_closed
  round-reported now m s h t = rw (t, h) refl

  loop-reports :
      (clock : MessageReaderEvent → ℕ) (ms : List Message) (s : PeerStateManager)
      → s.next_state ≡ connected
      → All
          (λ (m : Message). state_machine_message_type_for_message m ≡ not_a_state_machine_message)
          ms
      → (r : PeerStateManager × Bool) × (loop floats
            (map (at clock) (map incoming ms ++ (reader_error eof ∷ [])))
            s
          ≡ ok r)
        × IsEnd s ms r
  unfolding loop
  loop-reports clock [] s h k = (_, refl, (refl, refl))
  loop-reports clock (m ∷ ms) s h (t, k) =
      let s' = reported (clock (incoming m)) m s in
      let (r, p, (b, l)) = loop-reports clock ms s' h k in
      (
        r,
        rw (round-reported (clock (incoming m)) m s h t) p,
        (b, l ∙ append_assoc s.log (report s m ∷ []) (map (report s) ms ++ (report_closed s ∷ []))),
      )

  -- If the transport delivers, in pieces of any sizes, well-formed messages of version 1 that are none of
  -- the state machine and together shorter than 2 ^ 32 bytes, and then ends, then the loop of an open
  -- connection that gets nothing but the events of the receiver reports exactly these messages, in order
  -- and without the attributes of a dictionary, then that the peer closed the transport, and returns.
  pub loop-incoming_message_stream_receiver {ℓ} :
      {S : Type ℓ} (read : ℕ → S → S × Bytes × Option Error) (clock : MessageReaderEvent → ℕ)
      (sent : List Sent) (pieces : List Bytes) (fuel : ℕ) (transport : S) (s : PeerStateManager)
      → s.next_state ≡ connected
      → All
          (λ (m : Message). state_machine_message_type_for_message m ≡ not_a_state_machine_message)
          (received sent)
      → All IsSent sent
      → Delivers read transport pieces
      → joined pieces ≡ stream sent
      → length (stream sent) < 2 ^ 32
      → length pieces < fuel
      → (r : PeerStateManager × Bool) × (loop floats
            (map (at clock) (
              incoming_message_stream_receiver read fuel
                (suc (length sent))
                (new_message_stream_reader transport)))
            s
          ≡ ok r)
        × IsEnd s (received sent) r
  loop-incoming_message_stream_receiver read clock sent pieces fuel transport s h plain well
        delivers whole small f =
      rw
        (receiver-read_until_error read fuel (suc (length sent))
          (new_message_stream_reader transport) (received sent) eof
          (read_until_error_lem read sent pieces fuel transport well delivers whole small f))
        (loop-reports clock (received sent) s h plain)
