-- ===== src/Agent/Accepting.antt =====
-- agent/agent.go, and `newPeerStateManager` of agent/peer_state_manager.go. A connection is a number, with
-- the local IP address where its local address is one of TCP; what `Accept` returns is given, in order.
-- The goroutines of the managers run on their own: they are started here.
use diameterapi.Common.{
  ℕ, true, List, [], ◌∷◌, Option, none, some, Error, no_local_address, Outcome, ok, panics, ◌>>=◌,
}
use diameterapi.Wire.{Bytes}
use diameterapi.Avp.Types.{string, uint32, net_ip_pointer, diam_ident, unsigned32, utf8_string}
use diameterapi.Avp.Types
use diameterapi.Message.Types.{Message}
use diameterapi.Sequence.Generators.{new_sequence_generator_set}
use diameterapi.Typed.Values.{Floats, new_typed_avp}
use diameterapi.Agent.Identity.{DiameterEntity, Peer}
use diameterapi.Agent.Manager.{
  PeerEventType, listener_accepted_transport, error_occurred, PeerStateEvent, connected,
  PeerStateManager,
}

-- `AgentEvent`. The receiver that an error names is the one that runs.
pub record AgentEvent : Type 0 where
  pub event_type : PeerEventType
  pub peer : Option Peer
  pub error : Option Error
  pub message : Option Message
  pub connection : Option ℕ

-- One round of the loop of `Run`: an event of a manager is handed on.
abbrev pub forward : ℕ → PeerStateEvent → AgentEvent
forward connection event = record {
  event_type = event.event_type;
  peer = event.peer;
  error = event.error;
  message = event.message;
  connection = some connection;
}

-- The result of `Accept`
pub data Accepted : Type 0 where
  accepted : ℕ → Option Bytes → Accepted
  failed : Error → Accepted

pub data AgentAction : Type 0 where
  sent_event : AgentEvent → AgentAction
  started_manager : DiameterEntity → ℕ → AgentAction
  closed_connection : ℕ → AgentAction

abbrev pub notify_of_receiver_error : Option ℕ → Error → AgentAction
notify_of_receiver_error connection e = sent_event (record {
  event_type = error_occurred;
  peer = none;
  error = some e;
  message = none;
  connection = connection;
})

abbrev pub notify_of_incoming_transport : ℕ → AgentAction
notify_of_incoming_transport connection = sent_event (record {
  event_type = listener_accepted_transport;
  peer = none;
  error = none;
  message = none;
  connection = some connection;
})

-- The identity that is asserted on a connection, where it has or gets a host address
abbrev pub identity_to_assert : DiameterEntity → List Bytes → Option Bytes → Option DiameterEntity
identity_to_assert e (ip ∷ ips) local_ip = some e
identity_to_assert e [] (some ip) = some (record e { host_ip_addresses = ip ∷ [] })
identity_to_assert e [] none = none

-- The rest of a round on an accepted connection, before the further rounds
abbrev pub assert_on : ℕ → Option DiameterEntity → List AgentAction → List AgentAction
assert_on c (some e) further = started_manager e c ∷ further
assert_on c none further =
    notify_of_receiver_error (some c) no_local_address ∷ closed_connection c ∷ []

-- `runReceiverHandler`
unfoldable pub run_receiver_handler : DiameterEntity → List Accepted → List AgentAction
run_receiver_handler e [] = []
run_receiver_handler e (failed x ∷ accepts) = notify_of_receiver_error none x ∷ []
run_receiver_handler e (accepted c local_ip ∷ accepts) =
    notify_of_incoming_transport c
    ∷ assert_on c (identity_to_assert e e.host_ip_addresses local_ip)
        (run_receiver_handler e accepts)

-- What `newPeerStateManager` returns. The results of the writes to come are no part of it.
abbrev pub new_manager : DiameterEntity → ℕ → ℕ → List (Option Error) → PeerStateManager
new_manager e hop_seed end_seed write_results = record {
  local_identity = e;
  sequence_generator = new_sequence_generator_set hop_seed end_seed;
  peer = none;
  notifier_peer = none;
  next_state = connected;
  now = 0;
  write_results = write_results;
  log = [];
}

module _ (floats : Floats) where
  -- The AVPs that are cached, of which there must be one address at least
  abbrev pub make_cached_avps : DiameterEntity → List Bytes → Outcome (Unit {0})
  make_cached_avps e [] = panics
  make_cached_avps e (ip ∷ ips) = do
    result_code ← new_typed_avp floats 268 0 true unsigned32 (uint32 2000)
    host ← new_typed_avp floats 264 0 true diam_ident (string e.origin_host)
    realm ← new_typed_avp floats 296 0 true diam_ident (string e.origin_realm)
    address ← new_typed_avp floats 257 0 true Types.address (net_ip_pointer ip)
    vendor ← new_typed_avp floats 266 0 true unsigned32 (uint32 e.vendor_id)
    product ← new_typed_avp floats 269 0 true utf8_string (string e.product_name)
    ok tt

  -- `newPeerStateManager` on an identity and a connection that may be nil, and the seeds that
  -- `NewSequenceGeneratorSet` draws.
  unfoldable pub new_peer_state_manager :
      Option DiameterEntity → Option ℕ → ℕ → ℕ → List (Option Error) → Outcome PeerStateManager
  unfolding make_cached_avps
  new_peer_state_manager none conn hop_seed end_seed write_results = panics
  new_peer_state_manager (some e) none hop_seed end_seed write_results = panics
  new_peer_state_manager (some e) (some c) hop_seed end_seed write_results = do
    made ← make_cached_avps e e.host_ip_addresses
    ok (new_manager e hop_seed end_seed write_results)
