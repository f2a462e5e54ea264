-- ===== src/Applications/Ending.antt =====
-- When the client of the example ends the connection.
use diameterapi.Common.{
  ◌≡◌, refl, subst, ◌⊎◌, inl, inr, Bool, true, false, ◌&&◌, ◌==◌, Bool-cases, List, [], ◌∷◌, Option,
  some, none, Error, Outcome, ok, err, panics, stuck, >>=-eq-ok, ok_injective,
}
use diameterapi.Common.Dict.{get, put, remove, bytes_key}
use diameterapi.Wire.{Bytes}
use diameterapi.Avp.Types.{Avp}
use diameterapi.Message.Types.{Message, is_answer}
use diameterapi.Message.Query.{first_avp_matching}
use diameterapi.Typed.Values.{Floats}
use diameterapi.Applications.Sessions.{DiameterSession, next_message_for_session, was_terminating}
use diameterapi.Applications.Client.{
  ClientAction, initiated_disconnect, Sessions, ClientReaction, Outside, after_attempt, try_to_send,
  disconnect_if_empty, send_next, on_session, on_session_avp, on_peer_message,
}

-- Among the actions the client started to disconnect.
abbrev pub disconnects : List ClientAction → Bool
disconnects [] = false
disconnects (initiated_disconnect ∷ actions) = true
disconnects (_ ∷ actions) = disconnects actions

-- A disconnect was started only if no session is left or the program ends.
abbrev pub IsJustified : ClientReaction → Type 0
IsJustified (sessions, actions, on) = (disconnects actions ≡ false) ⊎ (sessions ≡ []) ⊎ (on ≡ false)

module _ (outside : Outside) where
  after_attempt-IsJustified :
      (sessions : Sessions) (result : Message × Option Error)
      → let (actions, on) = after_attempt result outside.disconnect in
        IsJustified (sessions, actions, on)
  after_attempt-IsJustified sessions (m, some e) = inr (inr refl)
  after_attempt-IsJustified sessions (m, none) = inl refl

  send_next-IsJustified :
      (sessions : Sessions) (ccr : Outcome (Option Message)) (r : ClientReaction)
      → send_next outside sessions ccr ≡ ok r
      → IsJustified r
  unfolding try_to_send
  send_next-IsJustified sessions (ok (some m)) r e =
      subst IsJustified (ok_injective e) (after_attempt-IsJustified sessions (outside.send m))
  send_next-IsJustified sessions (ok none) r e = subst IsJustified (ok_injective e) (inl refl)
  send_next-IsJustified sessions (err x) r e = cc
  send_next-IsJustified sessions panics r e = cc
  send_next-IsJustified sessions stuck r e = cc

  disconnect_if_empty-IsJustified :
      (sessions : Sessions)
      → IsJustified (
        sessions,
        (disconnect_if_empty outside sessions).0,
        (disconnect_if_empty outside sessions).1,
      )
  disconnect_if_empty-IsJustified [] = inr (inl refl)
  disconnect_if_empty-IsJustified (s ∷ sessions) = inl refl

  module _ (floats : Floats) where
    on_session-IsJustified :
        (id : Bytes) (session : Option DiameterSession) (sessions : Sessions) (r : ClientReaction)
        → on_session floats outside id session sessions ≡ ok r
        → IsJustified r
    unfolding on_session
    on_session-IsJustified id none sessions r e = subst IsJustified (ok_injective e) (inl refl)
    on_session-IsJustified id (some session) sessions r e =
        elim (Bool-cases (was_terminating session)) [
          | inl ended ↦
              subst IsJustified (ok_injective (rw ended at e))
                (disconnect_if_empty-IsJustified (remove id sessions))
          | inr goes ↦
              let (s', ccr) = next_message_for_session floats session in
              send_next-IsJustified (put id s' sessions) ccr r (rw goes at e)
        ]

    on_session_avp-IsJustified :
        (sessions : Sessions) (a : Option Avp) (r : ClientReaction)
        → on_session_avp floats outside sessions a ≡ ok r
        → IsJustified r
    on_session_avp-IsJustified sessions none r e = subst IsJustified (ok_injective e) (inl refl)
    on_session_avp-IsJustified sessions (some a) r e =
        on_session-IsJustified a.payload (get a.payload sessions) sessions r e

    -- In reaction to a message the client starts to disconnect only if no session is left or the program
    -- ends.
    pub on_peer_message-IsJustified :
        (m : Message) (sessions : Sessions) (r : ClientReaction)
        → on_peer_message floats outside m sessions ≡ ok r
        → IsJustified r
    unfolding on_peer_message
    on_peer_message-IsJustified m sessions r e =
        elim (Bool-cases (m.app_id == 0 && m.code == 272 && is_answer m)) [
          | inl here ↦
              let (x, _, p) = >>=-eq-ok (first_avp_matching m 0 263) _ (rw here at e) in
              let (y, q, w) = >>=-eq-ok (on_session_avp floats outside sessions x.1) _ p in
              subst IsJustified (ok_injective w) (on_session_avp-IsJustified sessions x.1 y q)
          | inr elsewhere ↦ subst IsJustified (ok_injective (rw elsewhere at e)) (inl refl)
        ]
