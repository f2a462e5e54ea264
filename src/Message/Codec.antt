-- ===== src/Message/Codec.antt =====
-- message.go: `Encode`, `DecodeMessage`, and `extractNextMessageInByteBufferIfThereIsOne`.
use diameterapi.Common.{
  ℕ, zero, suc, ◌-◌, ltb, leb, ◌==◌, if◌then◌else◌, List, [], ◌∷◌, ◌++◌, length, take, drop, Option,
  none, some, Outcome, ok, err, stuck, ◌>>=◌, ◌>>◌, guard, check, eof, header_exceeds_stream,
  unknown_version, invalid_version,
}
use diameterapi.Wire.{Bytes, u32, put_uint32, read_uint32, join_24, high_8, low_24}
use diameterapi.Avp.Types.{Avp}
use diameterapi.Avp.Codec
use diameterapi.Message.Types.{Message, msg_header_size}

-- The loop of `Encode` over the AVPs.
unfoldable pub encode_avps : List (Option Avp) → Outcome Bytes
encode_avps [] = ok []
encode_avps (a ∷ avps) = do
  bytes ← Codec.encode_pointer a
  rest ← encode_avps avps
  ok (bytes ++ rest)

unfoldable pub encode_message : Message → Outcome Bytes
encode_message m = do
  avps ← encode_avps m.avps
  ok (
      put_uint32 (join_24 m.version m.length)
      ++ (put_uint32 (join_24 m.flags m.code)
          ++ (put_uint32 m.app_id
              ++ (put_uint32 m.hop_by_hop_id ++ (put_uint32 m.end_to_end_id ++ avps)))))

-- The loop of `DecodeMessage`, on fuel. `b[avp.PaddedLength:]` panics beyond the end of `b`.
unfoldable pub decode_avps : ℕ → Bytes → Outcome (List (Option Avp))
decode_avps fuel [] = ok []
decode_avps zero (b ∷ bs) = stuck
decode_avps (suc fuel) (b ∷ bs) = do
  a ← Codec.decode (b ∷ bs)
  check (leb a.padded_length (length (b ∷ bs)))
  avps ← decode_avps fuel (drop a.padded_length (b ∷ bs))
  ok (some a ∷ avps)

-- `DecodeMessage`. An AVP takes eight bytes at least, so the number of bytes is fuel enough.
unfoldable pub decode_message : Bytes → Outcome Message
decode_message input = do
  (word, r₁) ← read_uint32 input
  let len = low_24 word
  guard (leb len (u32 (length input))) header_exceeds_stream
  (word', r₂) ← read_uint32 r₁
  (app_id, r₃) ← read_uint32 r₂
  (hop_by_hop_id, r₄) ← read_uint32 r₃
  (end_to_end_id, r₅) ← read_uint32 r₄
  check (leb msg_header_size len)
  let b = take (len - msg_header_size) (drop msg_header_size input)
  avps ← decode_avps (length b) b
  ok (record {
    version = high_8 word;
    length = len;
    flags = high_8 word';
    code = low_24 word';
    app_id = app_id;
    hop_by_hop_id = hop_by_hop_id;
    end_to_end_id = end_to_end_id;
    avps = avps;
    extended_attributes = none;
    avp_map = none;
  })

-- The first byte of an input that is too short for a header: the version.
unfoldable pub read_version : Bytes → Outcome ℕ
read_version [] = err eof
read_version (v ∷ _) = ok v

-- `extractNextMessageInByteBufferIfThereIsOne`: a message, if there is one, and the bytes that are
-- left. With an error the bytes are returned as they were.
unfoldable pub extract_next : Bytes → Outcome (Option Message × Bytes)
extract_next [] = ok (none, [])
extract_next (b ∷ bs) =
    let incoming = b ∷ bs in
    if ltb (length incoming) 20
    then (do
      version ← read_version incoming
      guard (version == 1) unknown_version
      ok (none, incoming))
    else (do
      (word, _) ← read_uint32 incoming
      guard (high_8 word == 1) invalid_version
      if ltb (length incoming) (low_24 word) then ok (none, incoming) else (do
        m ← decode_message incoming
        check (leb m.length (length incoming))
        ok (some m, drop m.length incoming)))
