-- ===== src/Reader/Delivery.antt =====
-- `ReadNextMessage` over an `io.Reader` that delivers a stream of messages in pieces of any sizes.
use diameterapi.Common.{
  ℕ, suc, zero, ◌^◌, ◌≤◌, ◌<◌, ◌≡◌, refl, sym, ap, ◌∙◌, inl, inr, Bool-cases, leb, leb→le, leb→lt,
  List, [], ◌∷◌, ◌++◌, length, All, append_assoc, Option, some, none, Error, eof, ok, err, arith,
}
use diameterapi.Wire.{Bytes}
use diameterapi.Avp.Types.{Avp}
use diameterapi.Message.Types.{Message}
use diameterapi.Message.Codec.{extract_next}
use diameterapi.Message.RoundTrip.{IsWellFormed, message_wire, length-message_wire, bare_message}
use diameterapi.Reader.Whole.{extract_next-wire, extract_next_part}
use diameterapi.Reader.Sent.{Sent, IsSent, stream, received, stream_cons, length_stream, omega_sum}
use diameterapi.Reader.Chunks.{joined, common_front}
use diameterapi.Reader.Stream.{
  MessageStreamReader, new_message_stream_reader, read_buffer_size, append_read, take_or_read,
  read_once, read_again, read_next_message, read_until_error, collect,
}

module _ {ℓ} {S : Type ℓ} (read : ℕ → S → S × Bytes × Option Error) where
  -- From a state the reads return the pieces one after the other, some of them perhaps empty, and
  -- then `io.EOF`.
  abbrev pub Delivers : S → List Bytes → Type ℓ
  Delivers s [] = (s' : S) × (read read_buffer_size s ≡ (s', [], some eof))
  Delivers s (piece ∷ pieces) =
      (s' : S) × (read read_buffer_size s ≡ (s', piece, none)) × Delivers s' pieces

  abbrev holding : S → Bytes → MessageStreamReader S
  holding s b = record { underlying_reader = s; internal_byte_buffer = b }

  -- A round that reads a piece, and a round that finds a message.
  reads_on :
      (fuel : ℕ) (s s' : S) (b piece : Bytes)
      → extract_next b ≡ ok (none, b)
      → read read_buffer_size s ≡ (s', piece, none)
      → read_next_message read (suc fuel) (holding s b)
        ≡ read_next_message read fuel (holding s' (b ++ piece))
  unfolding read_next_message read_once take_or_read append_read read_again
  reads_on fuel s s' b piece e r = rw (e, r)

  reads_end :
      (fuel : ℕ) (s s' : S) (b : Bytes)
      → extract_next b ≡ ok (none, b)
      → read read_buffer_size s ≡ (s', [], some eof)
      → read_next_message read (suc fuel) (holding s b) ≡ (holding s' b, err eof)
  unfolding read_next_message read_once take_or_read append_read read_again
  reads_end fuel s s' b e r = rw (e, r)

  finds :
      (fuel : ℕ) (s : S) (b left : Bytes) (m : Message)
      → extract_next b ≡ ok (some m, left)
      → read_next_message read (suc fuel) (holding s b) ≡ (holding s left, ok m)
  unfolding read_next_message read_once take_or_read append_read read_again
  finds fuel s b left m e = rw e

  -- What `ReadNextMessage` does when `(m, avps)` is the next message.
  record Next (fuel : ℕ) (s : S) (b : Bytes) (pieces : List Bytes) (m : Message) (sent : List Sent)
      : Type ℓ where
    state : S
    left : Bytes
    later : List Bytes
    delivers : Delivers state later
    remains : left ++ joined later ≡ stream sent
    fewer : length later ≤ length pieces
    runs : read_next_message read fuel (holding s b) ≡ (holding state left, ok m)

  next_waits :
      (s : S) (b rest : Bytes) (m : Message) (avps : List Avp) (sent : List Sent)
      → IsWellFormed m avps
      → m.version ≡ 1
      → b ++ rest ≡ stream ((m, avps) ∷ sent)
      → length b < m.length
      → extract_next b ≡ ok (none, b)
  next_waits s b rest m avps sent well version e short =
      let len = length-message_wire m avps well in
      let (t, p, _) =
        common_front b rest (message_wire m avps) (stream sent) (stream_cons m avps sent e)
          (omega arith) in
      extract_next_part m avps well version b t p short

  Next-found :
      (pieces : List Bytes) (fuel : ℕ) (s : S) (b : Bytes) (m : Message) (avps : List Avp)
      (sent : List Sent)
      → IsWellFormed m avps
      → m.version ≡ 1
      → Delivers s pieces
      → b ++ joined pieces ≡ stream ((m, avps) ∷ sent)
      → length (stream ((m, avps) ∷ sent)) < 2 ^ 32
      → m.length ≤ length b
      → Next (suc fuel) s b pieces (bare_message m avps) sent
  Next-found pieces fuel s b m avps sent well version d e small k =
      let len = length-message_wire m avps well in
      let (t, p, q) =
        common_front (message_wire m avps) (stream sent) b (joined pieces)
          (sym (stream_cons m avps sent e)) (omega arith) in
      let sum = length_stream m avps sent well in
      let short = omega_sum t (joined pieces) (stream sent) q in
      record {
        state = s;
        left = t;
        later = pieces;
        delivers = d;
        remains = q;
        fewer = omega arith;
        runs =
            finds fuel s b t (bare_message m avps)
              (ap extract_next (sym p) ∙ extract_next-wire m avps well version t (omega arith));
      }

  next :
      (pieces : List Bytes) (fuel : ℕ) (s : S) (b : Bytes) (m : Message) (avps : List Avp)
      (sent : List Sent)
      → IsWellFormed m avps
      → m.version ≡ 1
      → Delivers s pieces
      → b ++ joined pieces ≡ stream ((m, avps) ∷ sent)
      → length (stream ((m, avps) ∷ sent)) < 2 ^ 32
      → length pieces < fuel
      → Next fuel s b pieces (bare_message m avps) sent
  next pieces zero s b m avps sent well version d e small f = absurd (omega arith)
  next [] (suc fuel) s b m avps sent well version d e small f =
      Next-found [] fuel s b m avps sent well version d e small (
        omega (arith, omega_sum b [] (stream ((m, avps) ∷ sent)) e, length_stream m avps sent well))
  next (piece ∷ pieces) (suc fuel) s b m avps sent well version (s', r, d) e small f =
      elim (Bool-cases (leb m.length (length b))) [
        | inl k ↦
            Next-found (piece ∷ pieces) fuel s b m avps sent well version (s', r, d) e small
              (leb→le _ _ k)
        | inr k ↦
            let again =
              next pieces fuel s' (b ++ piece) m avps sent well version d
                (append_assoc b piece (joined pieces) ∙ e) small (omega arith) in
            record {
              state = again.state;
              left = again.left;
              later = again.later;
              delivers = again.delivers;
              remains = again.remains;
              fewer = omega (arith, again.fewer);
              runs =
                  reads_on fuel s s' b piece
                    (next_waits s b (piece ++ joined pieces) m avps sent well version e
                      (leb→lt _ _ k))
                    r
                  ∙ again.runs;
            }
      ]

  -- Behind the last message only empty pieces are left, and then the end.
  at_end :
      (pieces : List Bytes) (fuel : ℕ) (s : S)
      → Delivers s pieces
      → joined pieces ≡ []
      → length pieces < fuel
      → (s' : S) × (read_next_message read fuel (holding s []) ≡ (holding s' [], err eof))
  at_end pieces zero s d e f = absurd (omega arith)
  at_end [] (suc fuel) s (s', r) e f = (s', reads_end fuel s s' [] (unfold extract_next in refl) r)
  at_end ([] ∷ pieces) (suc fuel) s (s', r, d) e f =
      let (s'', again) = at_end pieces fuel s' d e (omega arith) in
      (s'', reads_on fuel s s' [] [] (unfold extract_next in refl) r ∙ again)
  at_end ((b ∷ bs) ∷ pieces) (suc fuel) s d e f = cc

  until_step :
      (fuel calls : ℕ) (reader reader' : MessageStreamReader S) (m : Message) (ms : List Message)
      (e : Option Error)
      → read_next_message read fuel reader ≡ (reader', ok m)
      → read_until_error read fuel calls reader' ≡ (ms, e)
      → read_until_error read fuel (suc calls) reader ≡ (m ∷ ms, e)
  unfolding read_until_error collect
  until_step fuel calls reader reader' m ms e r k = rw (r, k)

  until_end :
      (sent : List Sent) (pieces : List Bytes) (fuel : ℕ) (s : S) (b : Bytes)
      → All IsSent sent
      → Delivers s pieces
      → b ++ joined pieces ≡ stream sent
      → length (stream sent) < 2 ^ 32
      → length pieces < fuel
      → read_until_error read fuel (suc (length sent)) (holding s b) ≡ (received sent, some eof)
  unfolding read_until_error collect
  until_end [] pieces fuel s [] h d e small f =
      let (s', r) = at_end pieces fuel s d (unfold stream in e) f in rw r
  until_end [] pieces fuel s (b ∷ bs) h d e small f = unfold stream in cc
  until_end ((m, avps) ∷ sent) pieces fuel s b ((well, version), h) d e small f =
      let n = next pieces fuel s b m avps sent well version d e small f in
      let sum = length_stream m avps sent well in
      let again =
        until_end sent n.later fuel n.state n.left h n.delivers n.remains (omega arith)
          (omega (arith, n.fewer)) in
      until_step fuel (suc (length sent)) _ _ _ _ (some eof) n.runs again

  -- Over an `io.Reader` that delivers, in pieces of any sizes and then the end, the bytes of
  -- well-formed messages of version 1, shorter than 2 ^ 32 bytes together, repeated calls of
  -- `ReadNextMessage` on a new reader return exactly these messages, in order and without the
  -- attributes of a dictionary, and then `io.EOF`. No call makes more reads than there are pieces and
  -- the end.
  pub read_until_error_lem :
      (sent : List Sent) (pieces : List Bytes) (fuel : ℕ) (s : S)
      → All IsSent sent
      → Delivers s pieces
      → joined pieces ≡ stream sent
      → length (stream sent) < 2 ^ 32
      → length pieces < fuel
      → read_until_error read fuel (suc (length sent)) (new_message_stream_reader s)
        ≡ (received sent, some eof)
  read_until_error_lem sent pieces fuel s h d e small f =
      until_end sent pieces fuel s [] h d e small f
