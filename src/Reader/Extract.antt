-- ===== src/Reader/Extract.antt =====
-- `extractNextMessageInByteBufferIfThereIsOne` on any buffer, on a whole message and on a part of one.
use diameterapi.Common.{
  ℕ, ◌+◌, ◌^◌, ◌≤◌, ◌<◌, ◌≡◌, ◌≢◌, sym, ap, ◌∙◌, inl, inr, Bool-cases, Bool, true, false, leb, ltb,
  ◌==◌, if◌then◌else◌, leb→le, leb→lt, List, [], ◌∷◌, ◌++◌, length, drop, length-drop,
  length-append, drop-append_le, append-nil, Option, some, none, Outcome, ok, stuck, ◌>>=◌, ◌>>◌,
  guard, check, arith, unknown_version, invalid_version, cases, is_ok, is_err, is_panics, is_stuck,
}
use diameterapi.Wire.{Bytes, IsBytes, high_8, low_24, read_uint32}
use diameterapi.Avp.Types.{Avp}
use diameterapi.Message.Types.{Message}
use diameterapi.Message.Codec.{decode_message, read_version, extract_next}
use diameterapi.Message.RoundTrip.{IsWellFormed}
use diameterapi.Message.Shape.{shape}
use diameterapi.Message.Sound.{
  decode_message-IsWellFormed, decode_message-append, decode_message-ne-stuck,
}

-- `extract_next` on a buffer of twenty bytes or more, whose first word is given.
abbrev pub extract_long : ℕ → Bytes → Outcome (Option Message × Bytes)
extract_long word incoming = do
  guard (high_8 word == 1) invalid_version
  if ltb (length incoming) (low_24 word) then ok (none, incoming) else (do
    m ← decode_message incoming
    check (leb m.length (length incoming))
    ok (some m, drop m.length incoming))

pub extract_next_long :
    (incoming : Bytes) (word : ℕ) (rest : Bytes)
    → 20 ≤ length incoming
    → read_uint32 incoming ≡ ok (word, rest)
    → extract_next incoming ≡ extract_long word incoming
unfolding extract_next
extract_next_long [] word rest h e = absurd (omega arith)
extract_next_long (b ∷ bs) word rest h e = rw (long, e)
  where
    long : ltb (length (b ∷ bs)) 20 ≡ false
    long = ground arith

pub extract_next_short :
    (b : ℕ) (bs : Bytes)
    → length (b ∷ bs) < 20
    → extract_next (b ∷ bs) ≡ (guard (b == 1) unknown_version >> ok (none, b ∷ bs))
unfolding extract_next read_version
extract_next_short b bs h = rw short
  where
    short : ltb (length (b ∷ bs)) 20 ≡ true
    short = ground arith

-- An extraction of a message, taken apart.
pub record Extracted (incoming : Bytes) (m : Message) (left : Bytes) : Type 0 where
  pub word : ℕ
  pub rest : Bytes
  pub long : 20 ≤ length incoming
  pub reads : (more : Bytes) → (rest : Bytes) × (read_uint32 (incoming ++ more) ≡ ok (word, rest))
  pub version_is : high_8 word ≡ 1
  pub whole : low_24 word ≤ length incoming
  pub decodes : decode_message incoming ≡ ok m
  pub fits : m.length ≤ length incoming
  pub left_is : left ≡ drop m.length incoming

extract_long_inversion :
    (word : ℕ) (incoming : Bytes) (m : Message) (left : Bytes)
    → extract_long word incoming ≡ ok (some m, left)
    → (high_8 word ≡ 1)
      × (low_24 word ≤ length incoming)
      × (decode_message incoming ≡ ok m)
      × (m.length ≤ length incoming)
      × (left ≡ drop m.length incoming)
extract_long_inversion word incoming m left e = elim (cases (decode_message incoming)) [
  | is_ok m' d ↦ ground (arith, d)
  | is_err r d ↦ ground (arith, d)
  | is_panics d ↦ ground (arith, d)
  | is_stuck d ↦ ground (arith, d)
]

guard_no_message :
    (t : Bool) (xs : Bytes) (m : Message) (left : Bytes)
    → let waits : Outcome (Option Message × Bytes) = ok (none, xs) in
      (guard t unknown_version >> waits) ≢ ok (some m, left)
guard_no_message true xs m left h = cc
guard_no_message false xs m left h = cc

extract_next_inversion :
    (incoming : Bytes) (m : Message) (left : Bytes)
    → extract_next incoming ≡ ok (some m, left)
    → Extracted incoming m left
extract_next_inversion [] m left e = unfold extract_next in cc
extract_next_inversion (b ∷ bs) m left e = elim (Bool-cases (leb 20 (length (b ∷ bs)))) [
  | inr k ↦
      absurd (
        guard_no_message (b == 1) (b ∷ bs) m left
          (sym (extract_next_short b bs (leb→lt _ _ k)) ∙ e))
  | inl k ↦
      let s = shape (b ∷ bs) (leb→le _ _ k) in
      let (rest, r) = s.first [] in
      let r' : read_uint32 (b ∷ bs) ≡ ok (s.word, rest) =
        ap (λ (t : Bytes). read_uint32 t) (sym (append-nil (b ∷ bs))) ∙ r in
      let (v, w, d, f, l) =
        extract_long_inversion s.word (b ∷ bs) m left
          (sym (extract_next_long (b ∷ bs) s.word rest (leb→le _ _ k) r') ∙ e) in
      record {
        word = s.word;
        rest = rest;
        long = leb→le _ _ k;
        reads = s.first;
        version_is = v;
        whole = w;
        decodes = d;
        fits = f;
        left_is = l;
      }
]

pub extract_long_ok :
    (word : ℕ) (incoming : Bytes) (m : Message)
    → high_8 word ≡ 1
    → low_24 word ≤ length incoming
    → decode_message incoming ≡ ok m
    → m.length ≤ length incoming
    → extract_long word incoming ≡ ok (some m, drop m.length incoming)
extract_long_ok word incoming m v w d f = ground (arith, d)

-- An extracted message and the bytes left make up the buffer, a message takes twenty bytes at least,
-- and the message is well formed.
pub extract_next-IsWellFormed :
    (incoming : Bytes) (m : Message) (left : Bytes)
    → IsBytes incoming
    → extract_next incoming ≡ ok (some m, left)
    → (avps : List Avp) × IsWellFormed m avps
      × (left ≡ drop m.length incoming)
      × (m.length + length left ≡ length incoming)
      × (20 ≤ m.length)
extract_next-IsWellFormed incoming m left b e =
    let x = extract_next_inversion incoming m left e in
    let (avps, well, _) = decode_message-IsWellFormed incoming m b x.decodes in
    (
      avps,
      well,
      x.left_is,
      omega (arith, ap length x.left_is, length-drop m.length incoming, x.fits),
      omega (arith, well.length_exact),
    )

-- Bytes added behind a buffer that holds a message change neither the message that is extracted nor
-- the bytes behind it, as long as the whole stays below 2 ^ 32 bytes.
pub extract_next-append :
    (incoming more : Bytes) (m : Message) (left : Bytes)
    → extract_next incoming ≡ ok (some m, left)
    → length incoming + length more < 2 ^ 32
    → extract_next (incoming ++ more) ≡ ok (some m, left ++ more)
extract_next-append incoming more m left e small =
    let x = extract_next_inversion incoming m left e in
    let (rest, r) = x.reads more in
    let sum = length-append incoming more in
    extract_next_long (incoming ++ more) x.word rest (omega (arith, x.long)) r
    ∙ extract_long_ok x.word (incoming ++ more) m x.version_is (omega (arith, x.whole))
        (decode_message-append incoming more m x.decodes small) (omega (arith, x.fits))
    ∙ ap (λ (t : Bytes). ok (some m, t))
        (drop-append_le m.length incoming more x.fits
          ∙ ap (λ (t : Bytes). t ++ more) (sym x.left_is))

extract_long-ne-stuck :
    (word : ℕ) (incoming : Bytes) → IsBytes incoming → extract_long word incoming ≢ stuck
extract_long-ne-stuck word incoming b e = ground (arith, decode_message-ne-stuck incoming b)

-- An extraction always ends.
pub extract_next-ne-stuck : (incoming : Bytes) → IsBytes incoming → extract_next incoming ≢ stuck
extract_next-ne-stuck [] b e = unfold extract_next in cc
extract_next-ne-stuck (x ∷ xs) b e = elim (Bool-cases (leb 20 (length (x ∷ xs)))) [
  | inr k ↦ ground (arith, sym (extract_next_short x xs (leb→lt _ _ k)) ∙ e)
  | inl k ↦
      let s = shape (x ∷ xs) (leb→le _ _ k) in
      let (rest, r) = s.first [] in
      let r' : read_uint32 (x ∷ xs) ≡ ok (s.word, rest) =
        ap (λ (t : Bytes). read_uint32 t) (sym (append-nil (x ∷ xs))) ∙ r in
      extract_long-ne-stuck s.word (x ∷ xs) b
        (sym (extract_next_long (x ∷ xs) s.word rest (leb→le _ _ k) r') ∙ e)
]
