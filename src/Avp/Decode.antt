-- ===== src/Avp/Decode.antt =====
-- `DecodeAVP` on any input, well formed or not.
use diameterapi.Common.{
  ℕ, ◌+◌, ◌-◌, ◌≤◌, ◌<◌, ◌≡◌, ◌≢◌, inl, inr, refl, subst, ◌∙◌, bit_and, leb, ◌==◌, length, take,
  Bool-cases, le→leb, lt→leb, leb→le, leb→lt, ◌↔◌, length-take, ok, err, panics, stuck, arith,
  stream_read_failure, length_exceeds_input,
}
use diameterapi.Wire.{Bytes, IsBytes, IsU32, read_bytes_enough, high_8, low_24, low_24_bound}
use diameterapi.Avp.Types.{Avp, absent}
use diameterapi.Avp.Codec.{padded_of, decode_body, decode}
use diameterapi.Avp.RoundTrip.{IsWellFormed, header_length, header_length_bounds}
use diameterapi.Avp.Headers.{
  header, vendor_flag, read_vendor_enough, decode_short, length_field, read_vendor_sound,
  header_field, read_vendor_missing,
}

module _ (input : Bytes) (code word : ℕ) (rest : Bytes)
    (whole : length input ≡ length rest + 8) where
  decode_body_too_long :
      length input < low_24 word → decode_body input code word rest ≡ err length_exceeds_input
  unfolding decode_body
  decode_body_too_long h = rw (lt→leb _ _ h)

  decode_body_no_vendor :
      low_24 word ≤ length input
      → length input < header_length (vendor_flag word)
      → decode_body input code word rest ≡ err stream_read_failure
  unfolding decode_body
  decode_body_no_vendor h k =
      rw (le→leb _ _ h, read_vendor_missing (vendor_flag word) rest (omega (arith, whole)))

  decode_body_panics :
      low_24 word ≤ length input
      → header_length (vendor_flag word) ≤ length input
      → low_24 word < header_length (vendor_flag word)
      → decode_body input code word rest ≡ panics
  unfolding decode_body
  decode_body_panics h k l =
      let (i, rest', e) = read_vendor_enough (vendor_flag word) rest (omega (arith, whole)) in
      rw (le→leb _ _ h, e, lt→leb _ _ l)

  decode_body_ok :
      low_24 word ≤ length input
      → header_length (vendor_flag word) ≤ low_24 word
      → (a : Avp) × (decode_body input code word rest ≡ ok a)
        × (a.length ≡ low_24 word)
        × (IsU32 code → IsBytes rest → IsWellFormed a)
  unfolding decode_body
  decode_body_ok h k =
      let (i, rest', e) = read_vendor_enough (vendor_flag word) rest (omega (arith, whole)) in
      let (hl, fits, zeroed, room) =
        read_vendor_sound (vendor_flag word) rest i (header_length (vendor_flag word)) rest' e in
      let n = low_24 word - header_length (vendor_flag word) in
      let enough : n ≤ length rest' = omega (arith, whole) in
      let a : Avp = record {
        code = code;
        vendor_specific = vendor_flag word;
        mandatory = bit_and (high_8 word) 0x40 == 0x40;
        protected = bit_and (high_8 word) 0x20 == 0x20;
        vendor_id = i;
        payload = take n rest';
        length = low_24 word;
        padded_length = padded_of (low_24 word);
        extended_attributes = absent;
      } in
      (
        a,
        rw (le→leb _ _ h, e, le→leb _ _ k, read_bytes_enough n rest' enough),
        refl,
        λ c b. record {
          code_fits = c;
          vendor_fits = fits b;
          vendor_absent = zeroed;
          length_exact = omega (arith, length-take n rest');
          length_fits = low_24_bound word;
          padded_exact = refl;
        },
      )

-- What `DecodeAVP` answers: an error for a short header or a Length beyond the input, a run-time
-- panic for a Length below the header's own, and otherwise an AVP.
pub data Verdict (input : Bytes) : Type 0 where
  short : length input < 8 → decode input ≡ err stream_read_failure → Verdict input
  too_long :
      (h : 8 ≤ length input)
      → length input < length_field input
      → decode input ≡ err length_exceeds_input
      → Verdict input
  no_vendor :
      (h : 8 ≤ length input)
      → length_field input ≤ length input
      → length input < header_field input
      → decode input ≡ err stream_read_failure
      → Verdict input
  below_header :
      (h : 8 ≤ length input)
      → length_field input ≤ length input
      → length_field input < header_field input
      → header_field input ≤ length input
      → decode input ≡ panics
      → Verdict input
  decoded :
      (h : 8 ≤ length input)
      → length_field input ≤ length input
      → header_field input ≤ length_field input
      → (a : Avp) → decode input ≡ ok a
      → a.length ≡ length_field input
      → IsWellFormed a
      → Verdict input

data Order (a b : ℕ) : Type 0 where
  below : a < b → Order a b
  from : b ≤ a → Order a b

order : (a b : ℕ) → Order a b
order a b = elim (Bool-cases (leb b a)) [
  | inl e ↦ from (leb→le _ _ e)
  | inr e ↦ below (leb→lt _ _ e)
]

Verdict-long : (input : Bytes) → IsBytes input → 8 ≤ length input → Verdict input
Verdict-long input b h =
    let r = header input b h in
    elim (order (length input) (length_field input)) [
      | below l ↦ too_long h l (
          r.reads
          ∙ decode_body_too_long input r.code r.word r.rest r.length_rest (rw r.length_is l))
      | from l ↦ elim (order (length input) (header_field input)) [
        | below k ↦ no_vendor h l k (
            r.reads
            ∙ decode_body_no_vendor input r.code r.word r.rest r.length_rest (rw r.length_is l)
                (rw r.header_is k))
        | from k ↦ elim (order (length_field input) (header_field input)) [
          | below m ↦ below_header h l m k (
              r.reads
              ∙ decode_body_panics input r.code r.word r.rest r.length_rest (rw r.length_is l)
                  (rw r.header_is k) (rw (r.header_is, r.length_is) m))
          | from m ↦
              let (a, e, len, well) =
                decode_body_ok input r.code r.word r.rest r.length_rest (rw r.length_is l)
                  (rw (r.header_is, r.length_is) m) in
              decoded h l m a (r.reads ∙ e) (len ∙ r.length_is) (well r.code_fits r.rest_bytes)
        ]
      ]
    ]

-- On every byte slice `DecodeAVP` gives one of the answers of `Verdict`.
pub decode-Verdict : (input : Bytes) → IsBytes input → Verdict input
decode-Verdict input b = elim (order (length input) 8) [
  | below l ↦ short l (decode_short input l)
  | from h ↦ Verdict-long input b h
]

-- A decoded AVP of a byte slice is well formed, and its length and header lie within the input.
pub decode-IsWellFormed :
    (input : Bytes) (a : Avp)
    → IsBytes input
    → decode input ≡ ok a
    → IsWellFormed a × (a.length ≤ length input) × (8 ≤ a.length)
decode-IsWellFormed input a b e = elim (decode-Verdict input b) [
  | short _ x ↦ cc
  | too_long _ _ x ↦ cc
  | no_vendor _ _ _ x ↦ cc
  | below_header _ _ _ _ x ↦ cc
  | decoded h l m a' x len well ↦
      let same : a' ≡ a = cc in
      subst (λ (t : Avp). IsWellFormed t × (t.length ≤ length input) × (8 ≤ t.length)) same
        (
          well,
          omega arith,
          omega (arith, well.length_exact, header_length_bounds a'.vendor_specific),
        )
]

-- `DecodeAVP` panics on exactly the inputs whose header is whole and whose Length field lies within
-- the input but below the length of the header itself.
pub decode_panics_iff :
    (input : Bytes)
    → IsBytes input
    → (decode input ≡ panics) ↔ (
        (header_field input ≤ length input)
        × (8 ≤ length input)
        × (length_field input ≤ length input)
        × (length_field input < header_field input))
decode_panics_iff input b = elim (decode-Verdict input b) [
  | short l x ↦ (λ e. cc, λ h. absurd (omega arith))
  | too_long h l x ↦ (λ e. cc, λ q. absurd (omega arith))
  | no_vendor h l m x ↦ (λ e. cc, λ q. absurd (omega arith))
  | below_header h l m k x ↦ (λ e. (k, h, l, m), λ q. x)
  | decoded h l m a x len well ↦ (λ e. cc, λ q. absurd (omega arith))
]

-- `DecodeAVP` always ends.
pub decode-ne-stuck : (input : Bytes) → IsBytes input → decode input ≢ stuck
decode-ne-stuck input b e = elim (decode-Verdict input b) [
  | short _ x ↦ cc
  | too_long _ _ x ↦ cc
  | no_vendor _ _ _ x ↦ cc
  | below_header _ _ _ _ x ↦ cc
  | decoded _ _ _ _ x _ _ ↦ cc
]
