-- ===== src/Reader/Sent.antt =====
-- The messages of a sender as one stream of bytes.
use diameterapi.Common.{
  ◌+◌, ◌≤◌, ◌≡◌, refl, ap, List, [], ◌∷◌, ◌++◌, length, All, length-append, arith,
}
use diameterapi.Wire.{Bytes}
use diameterapi.Avp.Types.{Avp}
use diameterapi.Message.Types.{Message}
use diameterapi.Message.RoundTrip.{IsWellFormed, message_wire, length-message_wire, bare_message}

-- A message with its AVPs, as a sender writes it.
abbrev pub Sent : Type 0
Sent = Message × List Avp

abbrev pub IsSent : Sent → Type 0
IsSent (m, avps) = IsWellFormed m avps × (m.version ≡ 1)

-- The bytes of the messages, one after the other, and the messages as a decoder gives them.
unfoldable pub stream : List Sent → Bytes
stream [] = []
stream ((m, avps) ∷ sent) = message_wire m avps ++ stream sent

abbrev pub received : List Sent → List Message
received [] = []
received ((m, avps) ∷ sent) = bare_message m avps ∷ received sent

pub stream_cons :
    (m : Message) (avps : List Avp) (sent : List Sent) {xs : Bytes}
    → xs ≡ stream ((m, avps) ∷ sent)
    → xs ≡ message_wire m avps ++ stream sent
unfolding stream
stream_cons m avps sent e = e

pub length_stream :
    (m : Message) (avps : List Avp) (sent : List Sent)
    → IsWellFormed m avps
    → length (stream ((m, avps) ∷ sent)) ≡ m.length + length (stream sent)
unfolding stream
length_stream m avps sent well =
    omega
      (arith, length-append (message_wire m avps) (stream sent), length-message_wire m avps well)

pub omega_sum : (xs ys zs : Bytes) → xs ++ ys ≡ zs → length xs + length ys ≡ length zs
omega_sum xs ys zs e = omega (arith, length-append xs ys, ap length e)

pub received-append : (xs ys : List Sent) → received (xs ++ ys) ≡ received xs ++ received ys
received-append [] ys = refl
received-append ((m, avps) ∷ xs) ys = ap (◌∷◌ (bare_message m avps)) (received-append xs ys)

pub length-stream_append : (xs ys : List Sent) → length (stream ys) ≤ length (stream (xs ++ ys))
unfolding stream
length-stream_append [] ys = omega arith
length-stream_append ((m, avps) ∷ xs) ys =
    omega
      (arith, length-append (message_wire m avps) (stream (xs ++ ys)), length-stream_append xs ys)

pub All-later : (xs ys : List Sent) → All IsSent (xs ++ ys) → All IsSent ys
All-later [] ys h = h
All-later (x ∷ xs) ys (_, h) = All-later xs ys h
