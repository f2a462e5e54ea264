-- ===== src/Agent/Answering.antt =====
-- The messages that the states of a connection hand over to be sent, and the peer that the initial states
-- let in.
use diameterapi.Common.{
  ◌^◌, ◌<◌, ◌≡◌, refl, subst, ◌⊎◌, inl, inr, true, List, [], map, Option, none, some, Outcome, ok,
  >>=-eq-ok, ok_injective, arith,
}
use diameterapi.Wire.{IsByte, low_24}
use diameterapi.Avp.Types.{Avp}
use diameterapi.Message.Types.{Message, is_request, is_answer}
use diameterapi.Message.Build.{
  new_message, add_mandatory_avps, add_additional_avps, generate_matching_response,
}
use diameterapi.Message.Answers.{response_flags}
use diameterapi.Typed.Values.{Floats}
use diameterapi.Agent.Identity.{DiameterEntity}
use diameterapi.Agent.Manager.{
  PeerState, connected, half_closed, disconnected, PeerStateManager, generate_answer, generate_dwa,
  generate_dpa, origin_avps_with_result_code,
}
use diameterapi.Agent.States.{
  StateMachineMessageType, cer, cea, dwr, dwa, dpr, dpa, not_a_state_machine_message, Reaction,
  closing, process_incoming, process_incoming_cer, process_incoming_cea, process_incoming_dwr,
  process_incoming_dwa, process_incoming_dpr, process_incoming_dpa,
  process_incoming_non_state_machine_message,
}

-- The answer to a request, as far as the header says
abbrev pub IsAnswerTo : Message → Message → Type 0
IsAnswerTo request m =
    (is_answer m ≡ true)
    × (m.hop_by_hop_id ≡ request.hop_by_hop_id)
    × (m.end_to_end_id ≡ request.end_to_end_id)
    × (m.app_id ≡ request.app_id)
    × (m.code ≡ request.code)

response-IsAnswerTo :
    (request m : Message) (xs ys : List (Option Avp))
    → IsByte request.flags
    → request.code < 2 ^ 24
    → generate_matching_response request xs ys ≡ ok m
    → IsAnswerTo request m
unfolding generate_matching_response new_message is_answer is_request low_24
response-IsAnswerTo request m xs ys f c e =
    let (x, _, p) = >>=-eq-ok (add_mandatory_avps 20 xs) _ e in
    let (y, _, q) = >>=-eq-ok (add_additional_avps x.0 ys) _ p in
    let (r, _, _, _) = response_flags request.flags f in
    subst (IsAnswerTo request) (ok_injective q) (rw r refl, refl, refl, refl, omega arith)

-- What a state hands over in reaction to a message is nothing, or an answer to the message.
abbrev pub AnswersAtMost : Message → Reaction → Type 0
AnswersAtMost m r =
    (r.message_to_send ≡ none) ⊎ ((a : Message) × (r.message_to_send ≡ some a) × IsAnswerTo m a)

silent :
    (m : Message) {s : PeerStateManager} {r : Reaction} {x : PeerStateManager × Reaction}
    → ◌≡◌ {A = Outcome (PeerStateManager × Reaction)} (ok (s, r)) (ok x)
    → r.message_to_send ≡ none
    → AnswersAtMost m x.1
silent m e h =
    subst (λ (y : PeerStateManager × Reaction). AnswersAtMost m y.1) (ok_injective e) (inl h)

module _ (floats : Floats) where
  generate_answer-IsAnswerTo :
      (request : Message) (avps : DiameterEntity → Outcome (DiameterEntity × List Avp))
      (s : PeerStateManager) (x : PeerStateManager × Message)
      → IsByte request.flags
      → request.code < 2 ^ 24
      → generate_answer floats request avps s ≡ ok x
      → IsAnswerTo request x.1
  unfolding generate_answer
  generate_answer-IsAnswerTo request avps s x f c e =
      let (y, _, p) = >>=-eq-ok (avps s.local_identity) _ e in
      let (m, q, r) = >>=-eq-ok (generate_matching_response request (map some y.1) []) _ p in
      subst (λ (t : PeerStateManager × Message). IsAnswerTo request t.1) (ok_injective r)
        (response-IsAnswerTo request m (map some y.1) [] f c q)

  process_incoming_dwr-AnswersAtMost :
      (state : PeerState) (m : Message) (s : PeerStateManager) (x : PeerStateManager × Reaction)
      → IsByte m.flags
      → m.code < 2 ^ 24
      → process_incoming_dwr floats state m s ≡ ok x
      → AnswersAtMost m x.1
  unfolding process_incoming_dwr generate_dwa
  process_incoming_dwr-AnswersAtMost connected m s x f c e =
      let (y, p, q) = >>=-eq-ok (generate_dwa floats m s) _ e in
      subst (λ (z : PeerStateManager × Reaction). AnswersAtMost m z.1) (ok_injective q)
        (inr
          (y.1, refl, generate_answer-IsAnswerTo m (origin_avps_with_result_code floats) s y f c p))
  process_incoming_dwr-AnswersAtMost half_closed m s x f c e = silent m e refl
  process_incoming_dwr-AnswersAtMost disconnected m s x f c e = silent m e refl

  process_incoming_dpr-AnswersAtMost :
      (state : PeerState) (m : Message) (s : PeerStateManager) (x : PeerStateManager × Reaction)
      → IsByte m.flags
      → m.code < 2 ^ 24
      → process_incoming_dpr floats state m s ≡ ok x
      → AnswersAtMost m x.1
  unfolding process_incoming_dpr generate_dpa
  process_incoming_dpr-AnswersAtMost connected m s x f c e =
      let (y, p, q) = >>=-eq-ok (generate_dpa floats m (closing s)) _ e in
      subst (λ (z : PeerStateManager × Reaction). AnswersAtMost m z.1) (ok_injective q)
        (inr (
          y.1,
          refl,
          generate_answer-IsAnswerTo m (origin_avps_with_result_code floats) (closing s) y f c p,
        ))
  process_incoming_dpr-AnswersAtMost half_closed m s x f c e = silent m e refl
  process_incoming_dpr-AnswersAtMost disconnected m s x f c e = silent m e refl

  -- Whatever the message and whatever the state of the connection, what the state hands over to be sent is
  -- nothing or an answer that carries the identifiers, the application and the code of the message. The
  -- flags and the code of the message are in their ranges.
  pub process_incoming-AnswersAtMost :
      (t : StateMachineMessageType) (state : PeerState) (m : Message) (s : PeerStateManager)
      (x : PeerStateManager × Reaction)
      → IsByte m.flags
      → m.code < 2 ^ 24
      → process_incoming floats t state m s ≡ ok x
      → AnswersAtMost m x.1
  unfolding process_incoming process_incoming_cer process_incoming_cea process_incoming_dwa
      process_incoming_dpa process_incoming_non_state_machine_message
  process_incoming-AnswersAtMost dwr state m s x f c e =
      process_incoming_dwr-AnswersAtMost state m s x f c e
  process_incoming-AnswersAtMost dpr state m s x f c e =
      process_incoming_dpr-AnswersAtMost state m s x f c e
  process_incoming-AnswersAtMost cer connected m s x f c e = silent m e refl
  process_incoming-AnswersAtMost cer half_closed m s x f c e = silent m e refl
  process_incoming-AnswersAtMost cer disconnected m s x f c e = silent m e refl
  process_incoming-AnswersAtMost cea connected m s x f c e = silent m e refl
  process_incoming-AnswersAtMost cea half_closed m s x f c e = silent m e refl
  process_incoming-AnswersAtMost cea disconnected m s x f c e = silent m e refl
  process_incoming-AnswersAtMost dwa connected m s x f c e = silent m e refl
  process_incoming-AnswersAtMost dwa half_closed m s x f c e = silent m e refl
  process_incoming-AnswersAtMost dwa disconnected m s x f c e = silent m e refl
  process_incoming-AnswersAtMost dpa connected m s x f c e = silent m e refl
  process_incoming-AnswersAtMost dpa half_closed m s x f c e = silent m e refl
  process_incoming-AnswersAtMost dpa disconnected m s x f c e = silent m e refl
  process_incoming-AnswersAtMost not_a_state_machine_message connected m s x f c e = silent m e refl
  process_incoming-AnswersAtMost not_a_state_machine_message half_closed m s x f c e =
      silent m e refl
  process_incoming-AnswersAtMost not_a_state_machine_message disconnected m s x f c e =
      silent m e refl
