-- ===== src/Lib.antt =====
-- A model of the Go library diameter: encoding and decoding of Diameter messages, the readers of
-- message streams, dictionaries, the generators of identifiers, the state of a connection to a peer, and
-- the example programs.
--
-- The parts, and where they are modelled:
-- - Common: the names that the other modules share. `Outcome` is what a Go function hands back, a
--   value, an error or a run-time panic; `stuck` is a loop of the model that ran out of fuel.
-- - Wire: bytes as lists of numbers and big-endian words, for bytes.Buffer and encoding/binary.
-- - Avp (avp.go): `NewAVP`, `Encode`, `DecodeAVP`, `Equal`, `Clone` (Avp.Codec), and the map of AVPs
--   by vendor and code (Avp.Lookup). `Data` is the field `payload`.
-- - Typed (avp.go): `NewTypedAVPErrorable` (Typed.Values), `ConvertAVPDataToTypedData`
--   (Typed.Convert), `AddressType` (Typed.Address), and the UTF-8 that they use (Typed.Utf8).
-- - Message (message.go): header flags (Message.Types), `Encode`, `DecodeMessage` and the extraction
--   of the next message (Message.Codec), `NewMessage`, `Clone`, `Equals` and answers (Message.Build),
--   and the lookups through the cached map (Message.Query).
-- - Reader (message.go): `MessageByteReader` (Reader.Bytewise) and `MessageStreamReader`
--   (Reader.Stream).
-- - Sequence (sequence_generator.go): the generators of identifiers, and `GenerateSessionId`
--   (Sequence.SessionIds).
-- - Dictionary (dictionary.go): the types of the YAML form and of the maps (Dictionary.Types),
--   `fromYamlForm` (Dictionary.Build), the lookups and the making of AVPs and messages
--   (Dictionary.Queries), `TypeAnAvp` and `TypeAMessage` (Dictionary.Typing).
-- - Agent (agent/): `DiameterEntity` of peer.go (Agent.Identity), the events of event.go and the
--   sending of messages (Agent.Manager), the states of a connection (Agent.States), the initial
--   states and `NewRun` of peer_state_manager.go (Agent.Run), the receiver that feeds the loop
--   (Agent.Receiver), the watchdog timer (Agent.Watchdog), and agent.go (Agent.Accepting).
-- - Applications (examples/applications/): the sessions of base_application_client
--   (Applications.Sessions), the reactions of its loop (Applications.Client), and the reactions of
--   base_application_server (Applications.Server).
-- The readers call the extraction of message.go, which calls `DecodeMessage`, which calls `DecodeAVP`;
-- the manager sends what `NewMessage` makes of typed AVPs and identifiers of the generators. Modules
-- named Examples hold tests and the theorems at concrete inputs.
--
-- Conventions: a method that changes its receiver returns the receiver as it leaves it. A pointer that
-- may be nil is an `Option`, and following nil is a panic. Integers are natural numbers with their
-- wrap-around written out; a signed integer is its two's complement pattern, a float its IEEE 754
-- pattern. Pointers are values: an AVP that stands in two messages is two AVPs.
--
-- Fuel: `DecodeMessage` and the conversion of a group take eight bytes at least for an AVP, and
-- `ReceiveBytes` twenty for a message, so their fuel is the number of bytes (and one more round).
-- `ReadNextMessage` may read for ever; its fuel is an argument.
--
-- What comes from outside is a parameter: the `io.Reader` (which may return bytes together with an
-- error), the random seeds, the clock, Go's conversions from integers to floats (`Floats`), and for
-- the manager the results of the writes to the transport and the order in which the cases of its
-- `select` get ready. The manager keeps a log of its events, its writes, its answers to callers and
-- the closing of the transport, in order. The server of the example sends by `SendMessageViaPeer` of
-- that manager; for the client the results of `SendMessage` and `InitiateDisconnect` are parameters.
--
-- Not modelled: the texts of errors and of the logs of the programs; the YAML parser and the files it
-- reads, which are parameters; the scheduling of goroutines and channels, of which each is seen on its
-- own, on the sequence of what it receives; the command lines and the start-up of the example programs.
pub mod Common
pub mod Wire
pub mod Avp
pub mod Message
pub mod Reader
pub mod Typed
pub mod Dictionary
pub mod Sequence
pub mod Agent
pub mod Applications
