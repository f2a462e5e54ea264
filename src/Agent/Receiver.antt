-- ===== src/Agent/Receiver.antt =====
-- agent/peer_state_manager.go: `incomingMessageStreamReceiver`, and what the loop reports of the
-- messages that it reads.
use diameterapi.Common.{ℕ, zero, suc, List, [], ◌∷◌, Error, Option, Outcome, ok, err, panics, stuck}
use diameterapi.Wire.{Bytes}
use diameterapi.Message.Types.{Message}
use diameterapi.Reader.Stream.{MessageStreamReader, read_next_message}
use diameterapi.Agent.Run.{MessageReaderEvent, incoming, reader_error}

module _ {ℓ} {S : Type ℓ} (read : ℕ → S → S × Bytes × Option Error) where
  -- The event of one call of `ReadNextMessage`, and those of the calls to come, on fuel for one call
  abbrev pub receive_further :
      (MessageStreamReader S → List MessageReaderEvent)
      → MessageStreamReader S × Outcome Message
      → List MessageReaderEvent
  receive_further more (reader, ok m) = incoming m ∷ more reader
  receive_further more (reader, err e) = reader_error e ∷ []
  receive_further more (reader, panics) = []
  receive_further more (reader, stuck) = []

  -- What the loop of `incomingMessageStreamReceiver` puts on its channel in a number of rounds
  unfoldable pub incoming_message_stream_receiver :
      ℕ → ℕ → MessageStreamReader S → List MessageReaderEvent
  unfolding receive_further
  incoming_message_stream_receiver fuel zero reader = []
  incoming_message_stream_receiver fuel (suc rounds) reader =
      receive_further (incoming_message_stream_receiver fuel rounds)
        (read_next_message read fuel reader)
