-- ===== src/Reader/Whole.antt =====
-- Extraction from the bytes of a well-formed message of version 1, whole or in part.
use diameterapi.Common.{
  ℕ, ◌+◌, ◌^◌, ◌≤◌, ◌<◌, ◌≡◌, refl, sym, ap, ◌∙◌, inl, inr, Bool-cases, leb, leb→le, leb→lt, List,
  [], ◌∷◌, ◌++◌, length, drop, length-append, drop-append_eq, append-nil, append_assoc, some, none,
  Outcome, ok, arith,
}
use diameterapi.Wire.{
  Bytes, high_8, low_24, put_uint32, read_uint32, read_uint32-put, join_24, join_24-IsU32,
  high_8-join, low_24-join,
}
use diameterapi.Avp.Types.{Avp}
use diameterapi.Message.Types.{Message}
use diameterapi.Message.Codec.{extract_next}
use diameterapi.Message.RoundTrip.{
  IsWellFormed, message_wire, length-message_wire, decode_message-wire, bare_message,
}
use diameterapi.Message.Shape.{shape}
use diameterapi.Reader.Extract.{
  extract_long, extract_long_ok, extract_next_long, extract_next_short,
}

same_word :
    (w w' : ℕ) (r r' : Bytes) → ◌≡◌ {A = Outcome (ℕ × Bytes)} (ok (w, r)) (ok (w', r')) → w ≡ w'
same_word w w' r r' e = ground arith

abbrev head_byte : Bytes → ℕ
head_byte [] = 0
head_byte (b ∷ _) = b

module _ (m : Message) (avps : List Avp) (well : IsWellFormed m avps)
    (version : m.version ≡ 1) where
  word : ℕ
  word = join_24 m.version m.length

  word_high : high_8 word ≡ 1
  unfolding word
  word_high = high_8-join m.version m.length well.version_fits ∙ version

  word_low : low_24 word ≡ m.length
  unfolding word
  word_low = low_24-join m.version m.length well.length_fits

  wire_rest : Bytes
  wire_rest = drop 4 (message_wire m avps)

  wire_split : message_wire m avps ≡ put_uint32 word ++ wire_rest
  unfolding word wire_rest message_wire put_uint32
  wire_split = refl

  long : 20 ≤ m.length
  long = omega (arith, well.length_exact)

  -- From a buffer that begins with the bytes of the message, the message is extracted, and what
  -- follows is left.
  pub extract_next-wire :
      (rest : Bytes)
      → m.length + length rest < 2 ^ 32
      → extract_next (message_wire m avps ++ rest) ≡ ok (some (bare_message m avps), rest)
  extract_next-wire rest small =
      let len = length-message_wire m avps well in
      let sum = length-append (message_wire m avps) rest in
      extract_next_long (message_wire m avps ++ rest) word (wire_rest ++ rest) (omega (arith, long))
        (ap (λ (t : Bytes). read_uint32 (t ++ rest)) wire_split
          ∙ ap read_uint32 (append_assoc (put_uint32 word) wire_rest rest)
          ∙ read_uint32-put word (wire_rest ++ rest)
              (unfold word in join_24-IsU32 m.version m.length well.version_fits))
      ∙ extract_long_ok word (message_wire m avps ++ rest) (bare_message m avps) word_high
          (omega (arith, word_low)) (decode_message-wire m avps rest well small) (omega arith)
      ∙ ap (λ (t : Bytes). ok (some (bare_message m avps), t))
          (drop-append_eq m.length (message_wire m avps) rest (sym len))

  first_byte : (b : ℕ) (bs more : Bytes) → b ∷ (bs ++ more) ≡ message_wire m avps → b ≡ 1
  unfolding message_wire put_uint32 word
  first_byte b bs more e = ap head_byte e ∙ (unfold high_8 in word_high)

  first_word : read_uint32 (message_wire m avps) ≡ ok (word, wire_rest)
  first_word =
      ap read_uint32 wire_split
      ∙ read_uint32-put word wire_rest
          (unfold word in join_24-IsU32 m.version m.length well.version_fits)

  extract_long_waits :
      (part : Bytes) → length part < m.length → extract_long word part ≡ ok (none, part)
  extract_long_waits part h = ground (arith, word_low, word_high)

  -- A proper part of the bytes of the message from its first byte on is kept as it is, without an
  -- error.
  pub extract_next_part :
      (part more : Bytes)
      → part ++ more ≡ message_wire m avps
      → length part < m.length
      → extract_next part ≡ ok (none, part)
  extract_next_part [] more e h = unfold extract_next in refl
  extract_next_part (b ∷ bs) more e h = elim (Bool-cases (leb 20 (length (b ∷ bs)))) [
    | inr k ↦ extract_next_short b bs (leb→lt _ _ k) ∙ ground (arith, first_byte b bs more e)
    | inl k ↦
        let s = shape (b ∷ bs) (leb→le _ _ k) in
        let (alone, q) = s.first [] in
        let (joined, r) = s.first more in
        let same : s.word ≡ word =
          same_word s.word word joined wire_rest (sym r ∙ ap read_uint32 e ∙ first_word) in
        let q' : read_uint32 (b ∷ bs) ≡ ok (word, alone) =
          ap read_uint32 (sym (append-nil (b ∷ bs))) ∙ q ∙ ap (λ (t : ℕ). ok (t, alone)) same in
        extract_next_long (b ∷ bs) word alone (leb→le _ _ k) q' ∙ extract_long_waits (b ∷ bs) h
  ]
