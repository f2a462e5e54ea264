-- ===== src/Reader/Stream.antt =====
-- `MessageStreamReader` of message.go. The `io.Reader` below it is a parameter: a state, and what
-- `Read` into a buffer of a given size does with it, which is to hand back the bytes it has read and
-- perhaps an error; with an error the code drops the bytes. The scratch buffer `readBuffer` is its size.
use diameterapi.Common.{
  ℕ, suc, zero, List, [], ◌∷◌, ◌++◌, Option, none, some, Error, Outcome, ok, err, panics, stuck,
}
use diameterapi.Wire.{Bytes}
use diameterapi.Message.Types.{Message}
use diameterapi.Message.Codec.{extract_next}

pub record MessageStreamReader {ℓ} (S : Type ℓ) : Type ℓ where
  pub underlying_reader : S
  pub internal_byte_buffer : Bytes

abbrev pub read_buffer_size : ℕ
read_buffer_size = 9100

-- `NewMessageStreamReader`
abbrev pub new_message_stream_reader {ℓ} : {S : Type ℓ} → S → MessageStreamReader S
new_message_stream_reader using_reader = record {
  underlying_reader = using_reader;
  internal_byte_buffer = [];
}

module _ {ℓ} {S : Type ℓ} (read : ℕ → S → S × Bytes × Option Error) where
  -- The end of `ReadOnce`, on what `Read` did.
  unfoldable pub append_read :
      Bytes → S × Bytes × Option Error → MessageStreamReader S × Outcome (Option Message)
  append_read buffer (s, bytes_read, none) =
      (record { underlying_reader = s; internal_byte_buffer = buffer ++ bytes_read }, ok none)
  append_read buffer (s, bytes_read, some e) =
      (record { underlying_reader = s; internal_byte_buffer = buffer }, err e)

  -- `ReadOnce`, on what the extraction from the buffer did.
  unfoldable pub take_or_read :
      MessageStreamReader S
      → Outcome (Option Message × Bytes)
      → MessageStreamReader S × Outcome (Option Message)
  unfolding append_read
  take_or_read reader (ok (some m, left)) =
      (record reader { internal_byte_buffer = left }, ok (some m))
  take_or_read reader (ok (none, left)) =
      append_read reader.internal_byte_buffer (read read_buffer_size reader.underlying_reader)
  take_or_read reader (err e) = (reader, err e)
  take_or_read reader panics = (reader, panics)
  take_or_read reader stuck = (reader, stuck)

  unfoldable pub read_once :
      MessageStreamReader S → MessageStreamReader S × Outcome (Option Message)
  unfolding take_or_read
  read_once reader = take_or_read reader (extract_next reader.internal_byte_buffer)

  -- The rest of a round of the loop of `ReadNextMessage`, which goes on by `again`.
  unfoldable pub read_again :
      (MessageStreamReader S → MessageStreamReader S × Outcome Message)
      → MessageStreamReader S × Outcome (Option Message)
      → MessageStreamReader S × Outcome Message
  read_again again (reader, ok (some m)) = (reader, ok m)
  read_again again (reader, ok none) = again reader
  read_again again (reader, err e) = (reader, err e)
  read_again again (reader, panics) = (reader, panics)
  read_again again (reader, stuck) = (reader, stuck)

  -- `ReadNextMessage`, on fuel: it may read any number of times.
  unfoldable pub read_next_message :
      ℕ → MessageStreamReader S → MessageStreamReader S × Outcome Message
  unfolding read_again read_once
  read_next_message zero reader = (reader, stuck)
  read_next_message (suc fuel) reader = read_again (read_next_message fuel) (read_once reader)

  -- One more message in front of what `more` collects, or the error that ends the calls.
  unfoldable pub collect :
      (MessageStreamReader S → List Message × Option Error)
      → MessageStreamReader S × Outcome Message
      → List Message × Option Error
  collect more (reader, ok m) = let (ms, e) = more reader in (m ∷ ms, e)
  collect more (reader, err e) = ([], some e)
  collect more (reader, panics) = ([], none)
  collect more (reader, stuck) = ([], none)

  -- The messages that repeated calls of `ReadNextMessage` return, and the error that ends them.
  unfoldable pub read_until_error : ℕ → ℕ → MessageStreamReader S → List Message × Option Error
  unfolding read_next_message collect
  read_until_error fuel zero reader = ([], none)
  read_until_error fuel (suc calls) reader =
      collect (read_until_error fuel calls) (read_next_message fuel reader)
