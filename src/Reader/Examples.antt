-- ===== src/Reader/Examples.antt =====
-- The theorems on the readers at concrete inputs.
use diameterapi.Common.{
  Option, none, Error, eof, ℕ, ◌^◌, ap, ◌∙◌, append-nil, ◌<◌, ◌≡◌, refl, List, [], ◌∷◌, ◌++◌,
  length, some, All, ok, take, drop, take-append-drop, arith,
}
use diameterapi.Wire.{Bytes, read_uint32, be32, high_8, low_24}
use diameterapi.Message.Codec.{decode_message, decode_avps, extract_next}
use diameterapi.Message.Examples.{bare_bytes, bare_request, request, request-IsWellFormed, two_avps}
use diameterapi.Reader.Bytewise.{new_message_byte_reader}
use diameterapi.Reader.Stream.{new_message_stream_reader, read_until_error}
use diameterapi.Reader.Delivery.{read_until_error_lem}
use diameterapi.Reader.Sent.{Sent, IsSent, stream, length_stream}
use diameterapi.Reader.Extract.{extract_next-append}
use diameterapi.Reader.Chunks.{receive_all, receive_all_lem, joined}

-- The request twice, cut after ten bytes and after sixty.
abbrev twice : List Sent
twice = (request, two_avps) ∷ (request, two_avps) ∷ []

abbrev pieces : List Bytes
pieces =
    take 10 (stream twice)
    ∷ take 50 (drop 10 (stream twice))
    ∷ drop 50 (drop 10 (stream twice))
    ∷ []

twice-IsSent : All IsSent twice
twice-IsSent = ((request-IsWellFormed, refl), ((request-IsWellFormed, refl), tt))

twice_short : length (stream twice) < 2 ^ 32
unfolding stream
twice_short = omega (
  arith,
  length_stream request two_avps ((request, two_avps) ∷ []) request-IsWellFormed,
  length_stream request two_avps [] request-IsWellFormed,
)

pieces-joined : joined pieces ≡ stream twice
pieces-joined =
    ap (λ (t : Bytes). take 10 (stream twice) ++ t)
      (ap (λ (t : Bytes). take 50 (drop 10 (stream twice)) ++ t) (append-nil _)
        ∙ take-append-drop 50 (drop 10 (stream twice)))
    ∙ take-append-drop 10 (stream twice)

receive_all_example :
    receive_all new_message_byte_reader pieces
    ≡ (new_message_byte_reader, ok (request ∷ request ∷ []))
receive_all_example = receive_all_lem twice pieces twice-IsSent pieces-joined twice_short

bare_extracts : extract_next (bare_bytes ++ 1 ∷ []) ≡ ok (some bare_request, 1 ∷ [])
unfolding extract_next decode_message read_uint32 be32 high_8 low_24 decode_avps
bare_extracts = refl

extract_next-append_example :
    extract_next (bare_bytes ++ 1 ∷ 0 ∷ []) ≡ ok (some bare_request, 1 ∷ 0 ∷ [])
extract_next-append_example =
    extract_next-append (bare_bytes ++ 1 ∷ []) (0 ∷ []) bare_request (1 ∷ []) bare_extracts
      (omega arith)

-- An `io.Reader` over a list of pieces that fit its buffer.
abbrev list_read : ℕ → List Bytes → List Bytes × Bytes × Option Error
list_read n [] = ([], [], some eof)
list_read n (piece ∷ pieces) = (pieces, piece, none)

read_until_error_example :
    read_until_error list_read 4 3 (new_message_stream_reader pieces)
    ≡ (request ∷ request ∷ [], some eof)
read_until_error_example =
    read_until_error_lem list_read twice pieces 4 pieces twice-IsSent
      (_, refl, (_, refl, (_, refl, (_, refl)))) pieces-joined twice_short (omega arith)
