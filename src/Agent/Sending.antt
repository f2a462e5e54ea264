-- ===== src/Agent/Sending.antt =====
-- How many events say that a Diameter connection was closed, and that sending adds none.
use diameterapi.Common.{
  ℕ, ◌+◌, ◌≡◌, refl, ap, subst, ◌∙◌, List, [], ◌∷◌, ◌++◌, map, Option, none, some, Error, Outcome,
  ok, ok_injective, >>=-eq-ok, arith, Bool-cases, inl, inr,
}
use diameterapi.Avp.Types.{Avp}
use diameterapi.Message.Types.{Message}
use diameterapi.Typed.Values.{Floats}
use diameterapi.Agent.Identity.{DiameterEntity}
use diameterapi.Message.Codec.{encode_message}
use diameterapi.Message.Build.{new_message, generate_matching_response}
use diameterapi.Agent.Manager
use diameterapi.Agent.Manager.{
  PeerState, connected, half_closed, disconnected, PeerStateManager, PeerStateEvent, PeerEventType,
  diameter_connection_closed, listener_accepted_transport, Output, output, event, notify, written,
  write, after_write, send_message, after_send, send_state_machine_message, generate_request,
  generate_answer, generate_dwa, generate_dpa, generate_dwr, generate_dpr, origin_avps,
  origin_avps_with_result_code, disconnect_avps, message_is_a_diameter_connection_state_message,
  is_eof,
}
use diameterapi.Agent.States.{state_machine_message_type_for_message, closing}
use diameterapi.Agent.Run.{is_state_machine_type}

-- A message is one of the state machine's in the loop exactly if it is one for the clients and for the
-- initial states.
pub is_state_machine_type_lem :
    (m : Message)
    → is_state_machine_type (state_machine_message_type_for_message m)
      ≡ message_is_a_diameter_connection_state_message m
unfolding state_machine_message_type_for_message message_is_a_diameter_connection_state_message
is_state_machine_type_lem m = ground arith

abbrev pub is_closed_type : PeerEventType → ℕ
is_closed_type diameter_connection_closed = 1
is_closed_type _ = 0

-- How many events of a log say that the Diameter connection was closed.
unfoldable pub closed_events : List Output → ℕ
closed_events [] = 0
closed_events (event e ∷ os) = is_closed_type e.event_type + closed_events os
closed_events (Manager.wrote m ∷ os) = closed_events os
closed_events (Manager.replied r ∷ os) = closed_events os
closed_events (Manager.closed_transport ∷ os) = closed_events os

pub closed_events_append :
    (xs : List Output) (o : Output)
    → closed_events (xs ++ (o ∷ [])) ≡ closed_events xs + closed_events (o ∷ [])
unfolding closed_events
closed_events_append [] o = omega arith
closed_events_append (event e ∷ xs) o = omega (arith, closed_events_append xs o)
closed_events_append (Manager.wrote m ∷ xs) o = closed_events_append xs o
closed_events_append (Manager.replied r ∷ xs) o = closed_events_append xs o
closed_events_append (Manager.closed_transport ∷ xs) o = closed_events_append xs o

-- `s'` is in the state of `s`, and its log has `n` more such events.
pub record IsAfter (n : ℕ) (s s' : PeerStateManager) : Type 0 where
  pub same_state : s'.next_state ≡ s.next_state
  pub closed : closed_events s'.log ≡ closed_events s.log + n

pub IsAfter-log :
    (s s' : PeerStateManager) (o : Output) {n : ℕ}
    → s'.next_state ≡ s.next_state
    → s'.log ≡ s.log ++ (o ∷ [])
    → closed_events (o ∷ []) ≡ n
    → IsAfter n s s'
IsAfter-log s s' o p q h = record {
  same_state = p;
  closed = omega (arith, ap closed_events q, closed_events_append s.log o, h);
}

pub same_log :
    (s s' : PeerStateManager) → s'.next_state ≡ s.next_state → s'.log ≡ s.log → IsAfter 0 s s'
same_log s s' p q = record { same_state = p; closed = omega (arith, ap closed_events q) }

pub IsAfter-trans :
    {n k : ℕ} {s s' s'' : PeerStateManager}
    → IsAfter n s s'
    → IsAfter k s' s''
    → IsAfter (n + k) s s''
IsAfter-trans p q = record {
  same_state = q.same_state ∙ p.same_state;
  closed = omega (arith, p.closed, q.closed);
}

written_quiet :
    (m : Message) (rs : List (Option Error)) (s : PeerStateManager) → IsAfter 0 s (written m rs s).0
unfolding written closed_events
written_quiet m [] s = IsAfter-log s _ (Manager.wrote m) refl refl refl
written_quiet m (none ∷ rs) s = IsAfter-log s _ (Manager.wrote m) refl refl refl
written_quiet m (some e ∷ rs) s = same_log s _ refl refl

abbrev pub Quiet {ℓ} : {A : Type ℓ} → PeerStateManager → PeerStateManager × A → Type 0
Quiet s x = IsAfter 0 s x.0

pub write-Quiet :
    (m : Message) (s : PeerStateManager) (x : PeerStateManager × Option Error)
    → write m s ≡ ok x
    → Quiet s x
unfolding write
write-Quiet m s x e =
    let (_, _, q) = >>=-eq-ok (encode_message m) _ e in
    subst (Quiet s) (ok_injective q) (written_quiet m s.write_results s)

after_write-Quiet :
    (s : PeerStateManager) (x : PeerStateManager × Option Error)
    → Quiet s x
    → Quiet s (after_write x)
unfolding after_write closed_events
after_write-Quiet s (s', none) h = h
after_write-Quiet s (s', some e) h = elim (Bool-cases (is_eof e)) [
  | inl k ↦ rw k (IsAfter-trans h (IsAfter-log s' _ _ refl refl refl))
  | inr k ↦ rw k h
]

after_send-Quiet :
    (m : Message) (s : PeerStateManager) (x : PeerStateManager × Option Error)
    → Quiet s x
    → Quiet s (after_send m x)
unfolding after_send closed_events
after_send-Quiet m s (s', none) h = IsAfter-trans h (IsAfter-log s' _ _ refl refl refl)
after_send-Quiet m s (s', some e) h = h

-- Sending a message closes no Diameter connection.
pub send_state_machine_message-Quiet :
    (m : Message) (s : PeerStateManager) (x : PeerStateManager × Option Error)
    → send_state_machine_message m s ≡ ok x
    → Quiet s x
unfolding send_state_machine_message send_message
send_state_machine_message-Quiet m s x e =
    let (y, p, q) = >>=-eq-ok (send_message m s) _ e in
    let (z, r, k) = >>=-eq-ok (write m s) _ p in
    subst (Quiet s) (ok_injective q) (
      after_send-Quiet m s y
        (subst (Quiet s) (ok_injective k) (after_write-Quiet s z (write-Quiet m s z r))))

module _ (floats : Floats) where
  pub generate_request-Quiet :
      (code : ℕ) (avps : DiameterEntity → Outcome (DiameterEntity × List Avp))
      (s : PeerStateManager) (x : PeerStateManager × Message)
      → generate_request floats code avps s ≡ ok x
      → Quiet s x
  unfolding generate_request
  generate_request-Quiet code avps s x e =
      let (y, _, p) = >>=-eq-ok (avps s.local_identity) _ e in
      let (m, _, q) = >>=-eq-ok (new_message _ _ _ _ _ (map some y.1) []) _ p in
      subst (Quiet s) (ok_injective q) (same_log s _ refl refl)

  pub generate_answer-Quiet :
      (request : Message) (avps : DiameterEntity → Outcome (DiameterEntity × List Avp))
      (s : PeerStateManager) (x : PeerStateManager × Message)
      → generate_answer floats request avps s ≡ ok x
      → Quiet s x
  unfolding generate_answer
  generate_answer-Quiet request avps s x e =
      let (y, _, p) = >>=-eq-ok (avps s.local_identity) _ e in
      let (m, _, q) = >>=-eq-ok (generate_matching_response request (map some y.1) []) _ p in
      subst (Quiet s) (ok_injective q) (same_log s _ refl refl)

  pub generate_dwa-Quiet :
      (m : Message) (s : PeerStateManager) (x : PeerStateManager × Message)
      → generate_dwa floats m s ≡ ok x
      → Quiet s x
  unfolding generate_dwa
  generate_dwa-Quiet m s x e = generate_answer-Quiet m (origin_avps_with_result_code floats) s x e

  pub generate_dpa-Quiet :
      (m : Message) (s : PeerStateManager) (x : PeerStateManager × Message)
      → generate_dpa floats m s ≡ ok x
      → Quiet s x
  unfolding generate_dpa
  generate_dpa-Quiet m s x e = generate_answer-Quiet m (origin_avps_with_result_code floats) s x e

  pub generate_dwr-Quiet :
      (s : PeerStateManager) (x : PeerStateManager × Message)
      → generate_dwr floats s ≡ ok x
      → Quiet s x
  unfolding generate_dwr
  generate_dwr-Quiet s x e = generate_request-Quiet _ (origin_avps floats) s x e

  pub generate_dpr-Quiet :
      (s : PeerStateManager) (x : PeerStateManager × Message)
      → generate_dpr floats s ≡ ok x
      → Quiet s x
  unfolding generate_dpr
  generate_dpr-Quiet s x e = generate_request-Quiet _ (disconnect_avps floats) s x e

pub closing-IsAfter : (s : PeerStateManager) → IsAfter 1 s (closing s)
unfolding closed_events
closing-IsAfter s = IsAfter-log s _ _ refl refl refl
