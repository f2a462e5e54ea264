-- ===== src/Agent/Loop.antt =====
-- What a state does with a message, and what an attempt to disconnect does, to the connection.
use diameterapi.Common.{
  ◌+◌, ◌≤◌, ◌≡◌, refl, ap, subst, ◌∙◌, Bool, true, false, Option, none, some, Error, Outcome, ok,
  ok_injective, ◌⊎◌, >>=-eq-ok, arith, Bool-cases, inl, inr,
}
use diameterapi.Message.Types.{Message}
use diameterapi.Typed.Values.{Floats}
use diameterapi.Agent.Manager
use diameterapi.Agent.Manager.{
  PeerState, connected, half_closed, disconnected, PeerStateManager, PeerStateEvent, PeerEventType,
  diameter_connection_closed, listener_accepted_transport, Output, output, event, notify, written,
  write, after_write, send_message, after_send, send_state_machine_message, generate_request,
  generate_answer, generate_dwa, generate_dpa, generate_dwr, generate_dpr,
  message_is_a_diameter_connection_state_message, is_eof,
}
use diameterapi.Agent.States.{
  StateMachineMessageType, not_a_state_machine_message, cer, cea, dwr, dwa, dpr, dpa, Reaction,
  closing, diameter_connection_is_closed, can_initiate_disconnect, process_incoming,
  process_incoming_cer, process_incoming_cea, process_incoming_dwr, process_incoming_dwa,
  process_incoming_dpr, process_incoming_dpa, process_incoming_non_state_machine_message,
}
use diameterapi.Agent.Run.{notify_if_error, send_dpr, disconnect_reply, on_disconnect_initiated}
use diameterapi.Agent.Sending.{
  closed_events, IsAfter, IsAfter-log, same_log, IsAfter-trans, Quiet, closing-IsAfter,
  send_state_machine_message-Quiet, generate_dwa-Quiet, generate_dpa-Quiet, generate_dpr-Quiet,
  closed_events_append,
}

-- What a state does with a message: the connection stays open, or it is closed with one event.
abbrev pub Reacted : PeerStateManager → PeerStateManager × Reaction → Type 0
Reacted s (s', r) =
    (IsAfter 0 s s' × (r.failure ≡ none) × (diameter_connection_is_closed r.next_state ≡ false))
    ⊎ (IsAfter 1 s s' × (diameter_connection_is_closed r.next_state ≡ true))

abbrev pub IsOpen : PeerState → Type 0
IsOpen state = diameter_connection_is_closed state ≡ false

module _ (floats : Floats) where
  abbrev pub Reacts : StateMachineMessageType → Type 0
  Reacts t =
      (state : PeerState) (m : Message) (s : PeerStateManager) (x : PeerStateManager × Reaction)
      → IsOpen state
      → process_incoming floats t state m s ≡ ok x
      → Reacted s x

  by_equation :
      {s : PeerStateManager} {x y : PeerStateManager × Reaction}
      → ◌≡◌ {A = Outcome (PeerStateManager × Reaction)} (ok y) (ok x)
      → Reacted s y
      → Reacted s x
  by_equation {s} e h = subst (Reacted s) (ok_injective e) h

  pub process_incoming_reacts : (t : StateMachineMessageType) → Reacts t
  unfolding process_incoming process_incoming_cer process_incoming_cea process_incoming_dwr
      process_incoming_dwa process_incoming_dpr process_incoming_dpa
      process_incoming_non_state_machine_message diameter_connection_is_closed
  process_incoming_reacts t disconnected m s x o e = cc
  process_incoming_reacts cer connected m s x o e = by_equation e (inr (closing-IsAfter s, refl))
  process_incoming_reacts cer half_closed m s x o e = by_equation e (inr (closing-IsAfter s, refl))
  process_incoming_reacts cea connected m s x o e = by_equation e (inr (closing-IsAfter s, refl))
  process_incoming_reacts cea half_closed m s x o e = by_equation e (inr (closing-IsAfter s, refl))
  process_incoming_reacts dwr connected m s x o e =
      let (y, p, q) = >>=-eq-ok (generate_dwa floats m s) _ e in
      by_equation q (inl (generate_dwa-Quiet floats m s y p, refl, refl))
  process_incoming_reacts dwr half_closed m s x o e =
      by_equation e (inl (same_log s s refl refl, refl, refl))
  process_incoming_reacts dwa connected m s x o e =
      by_equation e (inl (same_log s s refl refl, refl, refl))
  process_incoming_reacts dwa half_closed m s x o e =
      by_equation e (inl (same_log s s refl refl, refl, refl))
  process_incoming_reacts dpr connected m s x o e =
      let (y, p, q) = >>=-eq-ok (generate_dpa floats m (closing s)) _ e in
      by_equation q (
        inr (IsAfter-trans (closing-IsAfter s) (generate_dpa-Quiet floats m (closing s) y p), refl))
  process_incoming_reacts dpr half_closed m s x o e = by_equation e (inr (closing-IsAfter s, refl))
  process_incoming_reacts dpa connected m s x o e = by_equation e (inr (closing-IsAfter s, refl))
  process_incoming_reacts dpa half_closed m s x o e = by_equation e (inr (closing-IsAfter s, refl))
  process_incoming_reacts not_a_state_machine_message connected m s x o e =
      by_equation e (inl (same_log s s refl refl, refl, refl))
  process_incoming_reacts not_a_state_machine_message half_closed m s x o e =
      by_equation e (inl (same_log s s refl refl, refl, refl))

-- After a round or a run: where the loop goes on, the connection is open and no event has said that it
-- was closed; where it returned, one event at most has.
pub record IsKept (s : PeerStateManager) (x : PeerStateManager × Bool) : Type 0 where
  pub still_open : x.1 ≡ true → diameter_connection_is_closed x.0.next_state ≡ false
  pub none_closed : x.1 ≡ true → closed_events x.0.log ≡ closed_events s.log
  pub at_most_one : closed_events x.0.log ≤ closed_events s.log + 1

pub IsKept-open :
    (s s' : PeerStateManager) (on : Bool)
    → closed_events s'.log ≡ closed_events s.log
    → IsOpen s'.next_state
    → IsKept s (s', on)
IsKept-open s s' on h o = record {
  still_open = λ _. o;
  none_closed = λ _. h;
  at_most_one = omega (arith, h);
}

pub IsKept-returned :
    (s s' : PeerStateManager)
    → closed_events s'.log ≤ closed_events s.log + 1
    → IsKept s (s', false)
IsKept-returned s s' h = record { still_open = λ k. cc; none_closed = λ k. cc; at_most_one = h }

pub IsKept-Quiet :
    (s : PeerStateManager) (x : PeerStateManager × Bool)
    → IsOpen s.next_state
    → Quiet s x
    → IsKept s x
IsKept-Quiet s (s', on) o h =
    IsKept-open s s' on (omega (arith, h.closed))
      (ap diameter_connection_is_closed h.same_state ∙ o)

pub notify_if_error-Quiet :
    (s : PeerStateManager) (x : PeerStateManager × Option Error)
    → Quiet s x
    → IsAfter 0 s (notify_if_error x)
unfolding closed_events
notify_if_error-Quiet s (s', none) h = h
notify_if_error-Quiet s (s', some e) h = IsAfter-trans h (IsAfter-log s' _ _ refl refl refl)

module _ (floats : Floats) where
  pub send_dpr-Quiet :
      (s : PeerStateManager) (x : PeerStateManager × Option Error)
      → send_dpr floats s ≡ ok x
      → Quiet s x
  unfolding send_dpr
  send_dpr-Quiet s x e =
      let (y, p, q) = >>=-eq-ok (generate_dpr floats s) _ e in
      IsAfter-trans (generate_dpr-Quiet floats s y p) (send_state_machine_message-Quiet y.1 y.0 x q)

  disconnect_reply-IsKept :
      (s : PeerStateManager) (x : PeerStateManager × Option Error)
      → IsOpen s.next_state
      → Quiet s x
      → IsKept s (disconnect_reply floats x)
  unfolding closed_events diameter_connection_is_closed
  disconnect_reply-IsKept s (s', some e) o h =
      IsKept-returned s _
        (omega (arith, h.closed, closed_events_append s'.log (Manager.replied (some e))))
  disconnect_reply-IsKept s (s', none) o h =
      IsKept-open s _ true
        (omega (arith, h.closed, closed_events_append s'.log (Manager.replied none))) refl

  pub on_disconnect_initiated-IsKept :
      (s : PeerStateManager) (x : PeerStateManager × Bool)
      → IsOpen s.next_state
      → on_disconnect_initiated floats s ≡ ok x
      → IsKept s x
  unfolding on_disconnect_initiated
  on_disconnect_initiated-IsKept s x o e =
      elim (Bool-cases (can_initiate_disconnect s.next_state)) [
        | inl k ↦
            let (r, p, q) =
              >>=-eq-ok (send_dpr floats s) (λ r. ok (disconnect_reply floats r)) (rw k at e) in
            subst (IsKept s) (ok_injective q) (disconnect_reply-IsKept s r o (send_dpr-Quiet s r p))
        | inr k ↦
            subst (IsKept s) (ok_injective (rw k at e))
              (IsKept-Quiet s _ o (unfold closed_events in IsAfter-log s _ _ refl refl refl))
      ]
