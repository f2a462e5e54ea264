-- ===== src/Reader/Chunks.antt =====
-- `ReceiveBytes` over a stream of messages that arrives in pieces of any sizes.
use diameterapi.Common.{
  ℕ, suc, zero, ◌^◌, ◌≤◌, ◌<◌, ◌≡◌, refl, sym, ap, subst, ◌∙◌, inl, inr, Bool-cases, leb, leb→le,
  leb→lt, List, [], ◌∷◌, ◌++◌, length, All, append-nil, append_assoc, some, none, Outcome, ok,
  ◌>>=◌, arith,
}
use diameterapi.Wire.{Bytes}
use diameterapi.Avp.Types.{Avp}
use diameterapi.Message.Types.{Message}
use diameterapi.Message.Codec.{extract_next}
use diameterapi.Message.RoundTrip.{IsWellFormed, message_wire, length-message_wire, bare_message}
use diameterapi.Reader.Bytewise.{
  MessageByteReader, new_message_byte_reader, receive_one, receive_loop, receive_bytes,
}
use diameterapi.Reader.Whole.{extract_next-wire, extract_next_part}
use diameterapi.Reader.Sent.{
  stream, length-stream_append, stream_cons, length_stream, All-later, received-append, received,
  omega_sum, IsSent, Sent,
}

-- The buffer holds less than the next message.
abbrev Waits : Bytes → List Sent → Type 0
Waits b [] = b ≡ []
Waits b ((m, avps) ∷ sent) = length b < m.length

abbrev holding : Bytes → MessageByteReader
holding b = record { incoming_buffer = b }

receive_loop_waits :
    (fuel : ℕ) (b : Bytes) (found : List Message)
    → extract_next b ≡ ok (none, b)
    → receive_loop (suc fuel) (holding b) found ≡ (holding b, ok found)
unfolding receive_loop receive_one
receive_loop_waits fuel b found e = rw (append-nil, e)

receive_loop_goes_on :
    (fuel : ℕ) (b left : Bytes) (found : List Message) (m : Message)
    → extract_next b ≡ ok (some m, left)
    → receive_loop (suc fuel) (holding b) found
      ≡ receive_loop fuel (holding left) (found ++ (m ∷ []))
unfolding receive_loop receive_one
receive_loop_goes_on fuel b left found m e = rw (append-nil, e)

-- Of two ways to write a list as a front and a back, the shorter front begins the longer one.
pub common_front :
    (xs ys zs ws : Bytes)
    → xs ++ ys ≡ zs ++ ws
    → length xs ≤ length zs
    → (t : Bytes) × (xs ++ t ≡ zs) × (t ++ ws ≡ ys)
common_front [] ys zs ws e h = (zs, refl, sym e)
common_front (x ∷ xs) ys [] ws e h = absurd (omega arith)
common_front (x ∷ xs) ys (z ∷ zs) ws e h =
    let (t, p, q) = common_front xs ys zs ws (ground arith) (omega arith) in (t, ground arith, q)

-- What the loop of `ReceiveBytes` does with a buffer `b` when `rest` is yet to come.
record Progress (fuel : ℕ) (b rest : Bytes) (found : List Message) (sent : List Sent) : Type 0 where
  done : List Sent
  later : List Sent
  left : Bytes
  splits : sent ≡ done ++ later
  remains : left ++ rest ≡ stream later
  waits : Waits left later
  runs : receive_loop fuel (holding b) found ≡ (holding left, ok (found ++ received done))

-- The buffer ends inside the next message: nothing is extracted.
waiting :
    (m : Message) (avps : List Avp) (sent : List Sent) (fuel : ℕ) (b rest : Bytes)
    (found : List Message)
    → IsWellFormed m avps
    → m.version ≡ 1
    → b ++ rest ≡ stream ((m, avps) ∷ sent)
    → length b < m.length
    → Progress (suc fuel) b rest found ((m, avps) ∷ sent)
waiting m avps sent fuel b rest found well version e short =
    let len = length-message_wire m avps well in
    let (t, p, _) =
      common_front b rest (message_wire m avps) (stream sent) (stream_cons m avps sent e)
        (omega arith) in
    record {
      done = [];
      later = (m, avps) ∷ sent;
      left = b;
      splits = refl;
      remains = e;
      waits = short;
      runs =
          receive_loop_waits fuel b found (extract_next_part m avps well version b t p short)
          ∙ ap (λ (t : List Message). (holding b, ok t)) (sym (append-nil found));
    }

-- The next message is extracted, and the loop goes on.
extracted :
    (m : Message) (avps : List Avp) (sent : List Sent) (fuel : ℕ) (b t rest : Bytes)
    (found : List Message)
    → message_wire m avps ++ t ≡ b
    → extract_next (message_wire m avps ++ t) ≡ ok (some (bare_message m avps), t)
    → Progress fuel t rest (found ++ (bare_message m avps ∷ [])) sent
    → Progress (suc fuel) b rest found ((m, avps) ∷ sent)
extracted m avps sent fuel b t rest found p x next = record {
  done = (m, avps) ∷ next.done;
  later = next.later;
  left = next.left;
  splits = ap (◌∷◌ (m, avps)) next.splits;
  remains = next.remains;
  waits = next.waits;
  runs =
      receive_loop_goes_on fuel b t found (bare_message m avps) (ap extract_next (sym p) ∙ x)
      ∙ next.runs
      ∙ ap (λ (u : List Message). (holding next.left, ok u))
          (append_assoc found (bare_message m avps ∷ []) (received next.done));
}

progress :
    (sent : List Sent) (fuel : ℕ) (b rest : Bytes) (found : List Message)
    → All IsSent sent
    → b ++ rest ≡ stream sent
    → length (stream sent) < 2 ^ 32
    → length b < fuel
    → Progress fuel b rest found sent
progress sent zero b rest found h e s f = absurd (omega arith)
progress [] (suc fuel) [] rest found h e s f = record {
  done = [];
  later = [];
  left = [];
  splits = refl;
  remains = e;
  waits = refl;
  runs =
      receive_loop_waits fuel [] found (unfold extract_next in refl)
      ∙ ap (λ (t : List Message). (holding [], ok t)) (sym (append-nil found));
}
progress [] (suc fuel) (x ∷ xs) rest found h e s f = unfold stream in cc
progress ((m, avps) ∷ sent) (suc fuel) b rest found ((well, version), h) e s f =
    elim (Bool-cases (leb m.length (length b))) [
      | inr k ↦ waiting m avps sent fuel b rest found well version e (leb→lt _ _ k)
      | inl k ↦
          let (t, p, q) =
            common_front (message_wire m avps) (stream sent) b rest
              (sym (stream_cons m avps sent e)) (omega (arith, len, leb→le _ _ k)) in
          let sum = length_stream m avps sent well in
          let short = omega_sum t rest (stream sent) q in
          let cut = omega_sum (message_wire m avps) t b p in
          extracted m avps sent fuel b t rest found p
            (extract_next-wire m avps well version t (omega arith))
            (progress sent fuel t rest (found ++ (bare_message m avps ∷ [])) h q (omega arith)
              (omega (arith, len, well.length_exact)))
    ]
  where
    len : length (message_wire m avps) ≡ m.length
    len = length-message_wire m avps well

-- `ReceiveBytes` on one piece after the other, and the messages that it returned.
unfoldable pub receive_all :
    MessageByteReader → List Bytes → MessageByteReader × Outcome (List Message)
receive_all reader [] = (reader, ok [])
receive_all reader (piece ∷ pieces) =
    let (reader', got) = receive_bytes reader piece in
    let (reader'', more) = receive_all reader' pieces in
    (reader'', got >>= λ ms. more >>= λ ms'. ok (ms ++ ms'))

abbrev pub joined : List Bytes → Bytes
joined [] = []
joined (piece ∷ pieces) = piece ++ joined pieces

Waits-at_start : (sent : List Sent) → All IsSent sent → Waits [] sent
Waits-at_start [] h = refl
Waits-at_start ((m, avps) ∷ sent) ((well, _), h) = omega (arith, well.length_exact)

receive_all-stream :
    (pieces : List Bytes) (b : Bytes) (sent : List Sent)
    → All IsSent sent
    → b ++ joined pieces ≡ stream sent
    → length (stream sent) < 2 ^ 32
    → Waits b sent
    → receive_all (holding b) pieces ≡ (holding [], ok (received sent))
unfolding receive_all receive_bytes
receive_all-stream [] b [] h e s w = ap (λ (t : Bytes). (holding t, ok [])) w
receive_all-stream [] b ((m, avps) ∷ sent) ((well, _), h) e s w =
    absurd
      (omega (arith, omega_sum b [] (stream ((m, avps) ∷ sent)) e, length_stream m avps sent well))
receive_all-stream (piece ∷ pieces) b sent h e s w =
    let p =
      progress sent (suc (length (b ++ piece))) (b ++ piece) (joined pieces) [] h
        (append_assoc b piece (joined pieces) ∙ e) s (omega arith) in
    let again =
      receive_all-stream pieces p.left p.later
        (All-later p.done p.later (subst (All IsSent) p.splits h)) p.remains
        (omega (
          arith,
          ap (λ (t : List Sent). length (stream t)) p.splits,
          length-stream_append p.done p.later,
        ))
        p.waits in
    rw (p.runs, again)
      (ap (λ (t : List Message). (holding [], ok t))
        (sym (received-append p.done p.later) ∙ ap received (sym p.splits)))

-- A stream of well-formed messages of version 1, shorter than 2 ^ 32 bytes and cut into pieces in any
-- way, is received by a new reader as exactly these messages, in order and without the attributes of
-- a dictionary, and no byte is left in the buffer.
pub receive_all_lem :
    (sent : List Sent) (pieces : List Bytes)
    → All IsSent sent
    → joined pieces ≡ stream sent
    → length (stream sent) < 2 ^ 32
    → receive_all new_message_byte_reader pieces ≡ (new_message_byte_reader, ok (received sent))
receive_all_lem sent pieces h e s = receive_all-stream pieces [] sent h e s (Waits-at_start sent h)
