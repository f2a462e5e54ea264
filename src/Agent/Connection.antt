-- ===== src/Agent/Connection.antt =====
-- What holds of the Diameter connection in every run of the loop of `NewRun`.
use diameterapi.Common.{
  ℕ, ◌≤◌, ◌≡◌, refl, ap, subst, ◌∙◌, Bool, true, false, List, [], ◌∷◌, Option, none, some, Error,
  ok, ok_injective, >>=-eq-ok, arith, Bool-cases, inl, inr,
}
use diameterapi.Message.Types.{Message}
use diameterapi.Typed.Values.{Floats}
use diameterapi.Agent.Manager
use diameterapi.Agent.Manager.{
  PeerState, connected, half_closed, disconnected, PeerStateManager, PeerStateEvent, PeerEventType,
  diameter_connection_closed, listener_accepted_transport, Output, output, event, notify, written,
  write, after_write, send_message, after_send, send_state_machine_message, generate_request,
  generate_answer, generate_dwa, generate_dpa, generate_dwr, generate_dpr,
  message_is_a_diameter_connection_state_message, is_eof,
}
use diameterapi.Agent.States.{
  state_machine_message_type_for_message, PeerStateError, diameter_connection_is_closed,
  process_incoming,
}
use diameterapi.Agent.Run.{
  Input, disconnect_initiated, from_reader, watchdog_expired, quit, incoming, reader_error,
  notify_received, is_state_machine_type, notify_if_error, send_dpr, on_failure, loop_end,
  after_answer, send_reaction, after_reaction, on_message, on_watchdog, round, loop,
}
use diameterapi.Agent.Sending.{
  same_log, IsAfter-trans, Quiet, send_state_machine_message-Quiet, generate_dwr-Quiet,
}
use diameterapi.Agent.Loop.{
  Reacted, IsOpen, process_incoming_reacts, IsKept, IsKept-open, IsKept-returned, IsKept-Quiet,
  notify_if_error-Quiet, send_dpr-Quiet, on_disconnect_initiated-IsKept,
}
use diameterapi.Agent.Quiet.{
  notify_one, notify_received_quiet, from_quiet, from_quiet_log, at_most, notify_reader_error_quiet,
  true_or_false, Adds,
}

module _ (floats : Floats) where
  on_failure-IsKept :
      {n : ℕ} (s s' : PeerStateManager) (failure : PeerStateError) (x : PeerStateManager × Bool)
      → Adds n s s'
      → n ≤ 1
      → on_failure floats failure s' ≡ ok x
      → IsKept s x
  unfolding on_failure
  on_failure-IsKept s s' failure x h l e =
      let told = notify_one s' Manager.error_occurred (some failure.error) none refl in
      elim (Bool-cases failure.initiate_disconnect_peer) [
        | inl k ↦
            let (r, p, q) =
              >>=-eq-ok (send_dpr floats (Manager.notify_error failure.error s'))
                (λ r. ok (notify_if_error r, false)) (rw k at e) in
            subst (IsKept s) (ok_injective q) (
              at_most h
                (IsAfter-trans told (notify_if_error-Quiet _ r (send_dpr-Quiet floats _ r p))) l)
        | inr k ↦ subst (IsKept s) (ok_injective (rw k at e)) (at_most h told l)
      ]

  loop_end-IsKept :
      {n : ℕ} (s s' : PeerStateManager) (state : PeerState)
      → Adds n s s'
      → s'.next_state ≡ state
      → n ≤ 1
      → (IsOpen state → n ≡ 0)
      → IsKept s (loop_end floats state s')
  loop_end-IsKept s s' state h same l o = elim (Bool-cases (diameter_connection_is_closed state)) [
    | inl k ↦ rw k (IsKept-returned s s' (omega (arith, h)))
    | inr k ↦
        rw k (
          IsKept-open s s' true (omega (arith, h, o k)) (ap diameter_connection_is_closed same ∙ k))
  ]

  after_answer-IsKept :
      {n : ℕ} (s s' : PeerStateManager) (state : PeerState) (x : PeerStateManager × Option Error)
      → Adds n s s'
      → s'.next_state ≡ state
      → Quiet s' x
      → n ≤ 1
      → (IsOpen state → n ≡ 0)
      → IsKept s (after_answer floats state x)
  after_answer-IsKept s s' state (s'', some e) h same q l o =
      at_most h (IsAfter-trans q (notify_one s'' Manager.error_occurred (some e) none refl)) l
  after_answer-IsKept s s' state (s'', none) h same q l o =
      loop_end-IsKept s s'' state (omega (arith, h, q.closed)) (q.same_state ∙ same) l o

  send_reaction-IsKept :
      {n : ℕ} (s s' : PeerStateManager) (state : PeerState) (m : Option Message)
      (x : PeerStateManager × Bool)
      → Adds n s s'
      → s'.next_state ≡ state
      → n ≤ 1
      → (IsOpen state → n ≡ 0)
      → send_reaction floats state m s' ≡ ok x
      → IsKept s x
  unfolding send_reaction
  send_reaction-IsKept s s' state none x h same l o e =
      subst (IsKept s) (ok_injective e) (loop_end-IsKept s s' state h same l o)
  send_reaction-IsKept s s' state (some m) x h same l o e =
      let (r, p, q) =
        >>=-eq-ok (send_state_machine_message m s') (λ r. ok (after_answer floats state r)) e in
      subst (IsKept s) (ok_injective q)
        (after_answer-IsKept s s' state r h same (send_state_machine_message-Quiet m s' r p) l o)

  -- The rest of a round behind the reaction of a state, by its parts.
  after_reaction-IsKept :
      (s s' : PeerStateManager) (state : PeerState) (m : Option Message) (f : Option PeerStateError)
      (x : PeerStateManager × Bool)
      → Reacted s (s', record { next_state = state; message_to_send = m; failure = f })
      → after_reaction floats (record { next_state = state; message_to_send = m; failure = f }) s'
        ≡ ok x
      → IsKept s x
  unfolding after_reaction
  after_reaction-IsKept s s' state m (some f) x (inl (_, k, _)) e = cc
  after_reaction-IsKept s s' state m (some f) x (inr (h, _)) e =
      on_failure-IsKept s (record s' { next_state = state }) f x h.closed (omega arith) e
  after_reaction-IsKept s s' state m none x (inl (h, _, _)) e =
      send_reaction-IsKept s (record s' { next_state = state }) state m x h.closed refl
        (omega arith) (λ _. refl) e
  after_reaction-IsKept s s' state m none x (inr (h, k)) e =
      send_reaction-IsKept s (record s' { next_state = state }) state m x h.closed refl
        (omega arith) (λ o. absurd (true_or_false _ k o)) e

  on_message-IsKept :
      (m : Message) (s : PeerStateManager) (x : PeerStateManager × Bool)
      → IsOpen s.next_state
      → on_message floats m s ≡ ok x
      → IsKept s x
  unfolding on_message
  on_message-IsKept m s x o e =
      let t = state_machine_message_type_for_message m in
      let s' = notify_received m (is_state_machine_type t) s in
      let (y, p, q) = >>=-eq-ok (process_incoming floats t s.next_state m s') _ e in
      let told = notify_received_quiet m (is_state_machine_type t) s in
      from_quiet s s' x told (
        after_reaction-IsKept s' y.0 y.1.next_state y.1.message_to_send y.1.failure x
          (process_incoming_reacts floats t s.next_state m s' y o p) q)

  on_watchdog-IsKept :
      (s : PeerStateManager) (x : PeerStateManager × Bool)
      → IsOpen s.next_state
      → on_watchdog floats s ≡ ok x
      → IsKept s x
  unfolding on_watchdog
  on_watchdog-IsKept s x o e =
      let (y, p, q) = >>=-eq-ok (generate_dwr floats s) _ e in
      let (z, r, k) =
        >>=-eq-ok (send_state_machine_message y.1 y.0) (λ r. ok (notify_if_error r, true)) q in
      subst (IsKept s) (ok_injective k) (
        IsKept-Quiet s _ o (
          notify_if_error-Quiet s z (
            IsAfter-trans (generate_dwr-Quiet floats s y p)
              (send_state_machine_message-Quiet y.1 y.0 z r))))

  round-IsKept :
      (input : ℕ × Input) (s : PeerStateManager) (x : PeerStateManager × Bool)
      → IsOpen s.next_state
      → round floats input s ≡ ok x
      → IsKept s x
  unfolding round
  round-IsKept (now, disconnect_initiated) s x o e =
      from_quiet s _ x (same_log s _ refl refl)
        (on_disconnect_initiated-IsKept floats (record s { now = now }) x o e)
  round-IsKept (now, from_reader (incoming m)) s x o e =
      from_quiet s _ x (same_log s _ refl refl) (on_message-IsKept m (record s { now = now }) x o e)
  round-IsKept (now, from_reader (reader_error c)) s x o e = subst (IsKept s) (ok_injective e) (
      at_most {n = 0} (omega arith) (notify_reader_error_quiet c (record s { now = now }))
        (omega arith))
  round-IsKept (now, watchdog_expired) s x o e =
      from_quiet s _ x (same_log s _ refl refl) (on_watchdog-IsKept (record s { now = now }) x o e)
  round-IsKept (now, quit) s x o e =
      subst (IsKept s) (ok_injective e) (IsKept-returned s _ (omega arith))

  -- On every sequence of ready cases that begins with the Diameter connection open: as long as the loop
  -- goes on, the connection is open and no event says that it was closed, so that no state but the
  -- connected and the half-closed one is given a message; and a run of the loop that returns has
  -- reported the end of the Diameter connection once at most.
  pub loop-IsKept :
      (inputs : List (ℕ × Input)) (s : PeerStateManager) (x : PeerStateManager × Bool)
      → IsOpen s.next_state
      → loop floats inputs s ≡ ok x
      → IsKept s x
  unfolding loop
  loop-IsKept [] s x o e = subst (IsKept s) (ok_injective e) (IsKept-open s s true refl o)
  loop-IsKept (input ∷ inputs) s x o e =
      let ((s', on), p, q) = >>=-eq-ok (round floats input s) _ e in
      let kept = round-IsKept input s (s', on) o p in
      elim (Bool-cases on) [
        | inl k ↦
            from_quiet_log s s' x (kept.none_closed k)
              (loop-IsKept inputs s' x (kept.still_open k) (rw k at q))
        | inr k ↦
            subst (IsKept s) (ok_injective (rw k at q)) (IsKept-returned s s' kept.at_most_one)
      ]
