-- ===== src/Applications/Answers.antt =====
-- What the server of the example sends.
use diameterapi.Common.{◌≡◌, ◌⊎◌, true, some, All}
use diameterapi.Message.Types.{Message, is_request, is_answer}
use diameterapi.Dictionary.Types.{Dictionary}
use diameterapi.Common.Dict.{bytes_key}
use diameterapi.Agent.Manager.{message_received_from_peer, PeerStateEvent}
use diameterapi.Applications.Server.{ServerAction, sent_answer, ServerReaction}

-- An answer, as it is sent: an identifier that is 0 in the request may be another one.
abbrev pub AnswersWith : Message → Message → Type 0
AnswersWith ccr cca =
    (is_answer cca ≡ true)
    × ((ccr.hop_by_hop_id ≡ 0) ⊎ (cca.hop_by_hop_id ≡ ccr.hop_by_hop_id))
    × ((ccr.end_to_end_id ≡ 0) ⊎ (cca.end_to_end_id ≡ ccr.end_to_end_id))
    × (cca.app_id ≡ ccr.app_id)
    × (cca.code ≡ ccr.code)

-- The event is a Credit-Control request, which `cca` answers by `Matches`.
abbrev pub IsAnswerBy : (Message → Message → Type 0) → PeerStateEvent → Message → Type 0
IsAnswerBy Matches event cca =
    (ccr : Message) × (event.event_type ≡ message_received_from_peer)
    × (event.message ≡ some ccr)
    × (is_request ccr ≡ true)
    × (ccr.app_id ≡ 0)
    × (ccr.code ≡ 272)
    × Matches ccr cca

abbrev pub IsAllowed : PeerStateEvent → ServerAction → Type 0
IsAllowed event (sent_answer cca) = IsAnswerBy AnswersWith event cca
IsAllowed event _ = Unit {0}

abbrev pub AllAllowed : PeerStateEvent → ServerReaction → Type 0
AllAllowed event r = All (IsAllowed event) r.1
