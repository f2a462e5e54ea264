-- ===== src/Agent/Clients.antt =====
-- What a client of a peer can put on the transport by `SendMessageViaPeer`.
use diameterapi.Common.{
  ◌≡◌, refl, sym, ap, subst, ◌∙◌, false, ◌==◌, List, [], ◌∷◌, ◌++◌, append-nil, All, Option, none,
  some, Error, ok, ok_injective, >>=-eq-ok, Bool-cases, inl, inr,
}
use diameterapi.Message.Types.{Message}
use diameterapi.Message.Codec.{encode_message}
use diameterapi.Agent.Manager
use diameterapi.Agent.Manager.{
  PeerStateManager, Output, event, output, written, write, after_write, send_message,
  send_message_via_peer, message_is_a_diameter_connection_state_message, is_eof, with_end_to_end_id,
  with_hop_by_hop_id,
}

-- The messages that a log has on the transport, in order.
unfoldable pub messages_written : List Output → List Message
messages_written [] = []
messages_written (event e ∷ os) = messages_written os
messages_written (Manager.wrote m ∷ os) = m ∷ messages_written os
messages_written (Manager.replied r ∷ os) = messages_written os
messages_written (Manager.closed_transport ∷ os) = messages_written os

messages_written-append :
    (xs ys : List Output) → messages_written (xs ++ ys) ≡ messages_written xs ++ messages_written ys
unfolding messages_written
messages_written-append [] ys = refl
messages_written-append (event e ∷ xs) ys = messages_written-append xs ys
messages_written-append (Manager.wrote m ∷ xs) ys = ap (◌∷◌ m) (messages_written-append xs ys)
messages_written-append (Manager.replied r ∷ xs) ys = messages_written-append xs ys
messages_written-append (Manager.closed_transport ∷ xs) ys = messages_written-append xs ys

abbrev IsAllowed : Message → Type 0
IsAllowed m = message_is_a_diameter_connection_state_message m ≡ false

-- The transport has got `ms` since `s`, all of them allowed to clients.
abbrev pub AddsOnlyAllowed : PeerStateManager → PeerStateManager → Type 0
AddsOnlyAllowed s s' =
    (ms : List Message) × (messages_written s'.log ≡ messages_written s.log ++ ms)
    × All IsAllowed ms

nothing : (s s' : PeerStateManager) → s'.log ≡ s.log → AddsOnlyAllowed s s'
nothing s s' h = ([], ap messages_written h ∙ sym (append-nil _), tt)

one_more :
    (s s' : PeerStateManager) (m : Message)
    → IsAllowed m
    → s'.log ≡ s.log ++ (Manager.wrote m ∷ [])
    → AddsOnlyAllowed s s'
unfolding messages_written
one_more s s' m a h =
    (m ∷ [], ap messages_written h ∙ messages_written-append s.log (Manager.wrote m ∷ []), (a, tt))

no_message :
    (s s' s'' : PeerStateManager) (e : Manager.PeerStateEvent)
    → AddsOnlyAllowed s s'
    → s''.log ≡ s'.log ++ (event e ∷ [])
    → AddsOnlyAllowed s s''
unfolding messages_written
no_message s s' s'' e (ms, p, a) h = (
  ms,
  ap messages_written h ∙ messages_written-append s'.log (event e ∷ []) ∙ append-nil _ ∙ p,
  a,
)

written_allowed :
    (m : Message) (rs : List (Option Error)) (s : PeerStateManager)
    → IsAllowed m
    → AddsOnlyAllowed s (written m rs s).0
unfolding written
written_allowed m [] s a = one_more s (written m [] s).0 m a refl
written_allowed m (none ∷ rs) s a = one_more s (written m (none ∷ rs) s).0 m a refl
written_allowed m (some e ∷ rs) s a = nothing s (written m (some e ∷ rs) s).0 refl

after_write_allowed :
    (s : PeerStateManager) (x : PeerStateManager × Option Error)
    → AddsOnlyAllowed s x.0
    → AddsOnlyAllowed s (after_write x).0
unfolding after_write
after_write_allowed s (s', none) h = h
after_write_allowed s (s', some e) h = elim (Bool-cases (is_eof e)) [
  | inl k ↦ rw k (no_message s s' (Manager.emit Manager.peer_closed_transport none s') _ h refl)
  | inr k ↦ rw k h
]

send_message_allowed :
    (m : Message) (s : PeerStateManager) (x : PeerStateManager × Option Error)
    → IsAllowed m
    → send_message m s ≡ ok x
    → AddsOnlyAllowed s x.0
unfolding send_message write
send_message_allowed m s x a e =
    let (y, p, q) = >>=-eq-ok (write m s) (λ r. ok (after_write r)) e in
    let (_, _, k) = >>=-eq-ok (encode_message m) (λ _. ok (written m s.write_results s)) p in
    subst (λ (z : PeerStateManager × Option Error). AddsOnlyAllowed s z.0) (ok_injective q)
      (after_write_allowed s y (
        subst (λ (z : PeerStateManager × Option Error). AddsOnlyAllowed s z.0) (ok_injective k)
          (written_allowed m s.write_results s a)))

with_end_to_end_id_kept :
    (m : Message) (s : PeerStateManager)
    → let (m', s') = with_end_to_end_id (m, s) in
      (m'.app_id ≡ m.app_id) × (m'.code ≡ m.code) × (s'.log ≡ s.log)
with_end_to_end_id_kept m s = elim (Bool-cases (m.end_to_end_id == 0)) [
  | inl k ↦ rw k (refl, refl, refl)
  | inr k ↦ rw k (refl, refl, refl)
]

with_hop_by_hop_id_kept :
    (m : Message) (s : PeerStateManager)
    → let (m', s') = with_hop_by_hop_id (m, s) in
      (m'.app_id ≡ m.app_id) × (m'.code ≡ m.code) × (s'.log ≡ s.log)
with_hop_by_hop_id_kept m s = elim (Bool-cases (m.hop_by_hop_id == 0)) [
  | inl k ↦ rw k (refl, refl, refl)
  | inr k ↦ rw k (refl, refl, refl)
]

IsAllowed-same :
    (m m' : Message) → m'.app_id ≡ m.app_id → m'.code ≡ m.code → IsAllowed m → IsAllowed m'
unfolding message_is_a_diameter_connection_state_message
IsAllowed-same m m' p q h = rw (p, q) h

-- Whatever a client sends by `SendMessageViaPeer`, where the call returns: none of the messages that
-- it puts on the transport is one of the connection's state machine.
pub send_message_via_peer-AddsOnlyAllowed :
    (m : Message) (s : PeerStateManager) (x : PeerStateManager × Option Error)
    → send_message_via_peer m s ≡ ok x
    → AddsOnlyAllowed s x.0
unfolding send_message_via_peer
send_message_via_peer-AddsOnlyAllowed m s x e =
    let (m₁, s₁) = with_end_to_end_id (m, s) in
    let (m₂, s₂) = with_hop_by_hop_id (m₁, s₁) in
    let (a₁, c₁, l₁) = with_end_to_end_id_kept m s in
    let (a₂, c₂, l₂) = with_hop_by_hop_id_kept m₁ s₁ in
    elim (Bool-cases (message_is_a_diameter_connection_state_message m)) [
      | inl k ↦
          subst (λ (z : PeerStateManager × Option Error). AddsOnlyAllowed s z.0)
            (ok_injective (rw k at e)) (nothing s s refl)
      | inr k ↦
          let (ms, p, a) =
            send_message_allowed m₂ s₂ x (IsAllowed-same m m₂ (a₂ ∙ a₁) (c₂ ∙ c₁) k) (rw k at e) in
          (ms, p ∙ ap (λ (t : List Output). messages_written t ++ ms) (l₂ ∙ l₁), a)
    ]
