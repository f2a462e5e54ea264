-- ===== src/Reader/Bytewise.antt =====
-- `MessageByteReader`: the bytes that have not made a message yet. A method returns the reader as it
-- leaves it, and its result.
use diameterapi.Common.{
  ℕ, zero, suc, List, [], ◌∷◌, ◌++◌, length, Option, none, some, Outcome, ok, err, panics, stuck,
}
use diameterapi.Wire.{Bytes}
use diameterapi.Message.Types.{Message}
use diameterapi.Message.Codec.{extract_next}

pub record MessageByteReader : Type 0 where
  pub incoming_buffer : Bytes

abbrev pub new_message_byte_reader : MessageByteReader
new_message_byte_reader = record { incoming_buffer = [] }

-- With an error, and where there is no whole message, the reader keeps all its bytes.
unfoldable pub settle :
    MessageByteReader
    → Outcome (Option Message × Bytes)
    → MessageByteReader × Outcome (Option Message)
settle reader (ok (some m, left)) = (record { incoming_buffer = left }, ok (some m))
settle reader (ok (none, left)) = (reader, ok none)
settle reader (err e) = (reader, err e)
settle reader panics = (reader, panics)
settle reader stuck = (reader, stuck)

-- `ReceiveBytesButReturnAtMostOneMessage`
unfoldable pub receive_one :
    MessageByteReader → Bytes → MessageByteReader × Outcome (Option Message)
unfolding settle
receive_one reader incoming =
    let buffer = reader.incoming_buffer ++ incoming in
    settle (record { incoming_buffer = buffer }) (extract_next buffer)

-- The rest of a round of the loop of `ReceiveBytes`, which goes on by `again` after a message.
unfoldable pub receive_next :
    (MessageByteReader → List Message → MessageByteReader × Outcome (List Message))
    → List Message
    → MessageByteReader × Outcome (Option Message)
    → MessageByteReader × Outcome (List Message)
receive_next again found (reader, ok (some m)) = again reader (found ++ (m ∷ []))
receive_next again found (reader, ok none) = (reader, ok found)
receive_next again found (reader, err e) = (reader, err e)
receive_next again found (reader, panics) = (reader, panics)
receive_next again found (reader, stuck) = (reader, stuck)

-- The loop of `ReceiveBytes`, on fuel: one call a round, on no new bytes. `found` are the messages
-- extracted so far.
unfoldable pub receive_loop :
    ℕ → MessageByteReader → List Message → MessageByteReader × Outcome (List Message)
unfolding receive_next
receive_loop zero reader found = (reader, stuck)
receive_loop (suc fuel) reader found =
    receive_next (receive_loop fuel) found (receive_one reader [])

-- `ReceiveBytes`. A message takes bytes off the buffer, so one round more than bytes is enough.
unfoldable pub receive_bytes :
    MessageByteReader → Bytes → MessageByteReader × Outcome (List Message)
receive_bytes reader incoming =
    let buffer = reader.incoming_buffer ++ incoming in
    receive_loop (suc (length buffer)) (record { incoming_buffer = buffer }) []
