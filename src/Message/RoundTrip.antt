-- ===== src/Message/RoundTrip.antt =====
-- `DecodeMessage` against `Encode`, for well-formed messages.
use diameterapi.Common.{
  ℕ, suc, zero, ◌+◌, ◌-◌, ◌^◌, ◌≤◌, ◌<◌, ◌≡◌, refl, sym, ◌∙◌, le→leb, List, [], ◌∷◌, ◌++◌, map,
  length, take, drop, All, length-append, take-append_eq, drop-append_eq, append_assoc, some, none,
  ok, ◌>>=◌, arith,
}
use diameterapi.Wire.{
  Bytes, IsByte, IsU32, u32, put_uint32, read_uint32-put, low_24, high_8, join_24, join_24-IsU32,
  high_8-join, low_24-join,
}
use diameterapi.Avp.Types.{Avp, absent}
use diameterapi.Avp.Codec.{encode_pointer, decode}
use diameterapi.Avp.RoundTrip.{
  wire, length-wire, decode-wire, IsWellFormed-encode, padded_of_lem, header_length_bounds,
}
use diameterapi.Avp.RoundTrip
use diameterapi.Avp.Headers.{decode_short}
use diameterapi.Message.Types.{Message}
use diameterapi.Message.Codec.{encode_avps, encode_message, decode_avps, decode_message}

-- The sum of the padded lengths.
abbrev pub total : List Avp → ℕ
total [] = 0
total (a ∷ avps) = a.padded_length + total avps

-- A message of the AVPs `avps`, none of them nil, whose Length field is the length of its bytes.
pub record IsWellFormed (m : Message) (avps : List Avp) : Type 0 where
  pub version_fits : IsByte m.version
  pub flags_fit : IsByte m.flags
  pub code_fits : m.code < 2 ^ 24
  pub app_id_fits : IsU32 m.app_id
  pub hop_by_hop_id_fits : IsU32 m.hop_by_hop_id
  pub end_to_end_id_fits : IsU32 m.end_to_end_id
  pub holds : m.avps ≡ map some avps
  pub avps_are : All RoundTrip.IsWellFormed avps
  pub length_exact : m.length ≡ 20 + total avps
  pub length_fits : m.length < 2 ^ 24

-- An AVP, and a message, as they come from the wire: without the attributes of a dictionary, and
-- the message with an empty cache.
abbrev pub bare : Avp → Avp
bare a = record a { extended_attributes = absent }

abbrev pub bare_message : Message → List Avp → Message
bare_message m avps = record m {
  avps = map (λ (a : Avp). some (bare a)) avps;
  extended_attributes = none;
  avp_map = none;
}

-- The bytes of the AVPs, one after the other.
unfoldable pub wires : List Avp → Bytes
wires [] = []
wires (a ∷ avps) = wire a ++ wires avps

encode_avps-wires :
    (avps : List Avp)
    → All RoundTrip.IsWellFormed avps
    → encode_avps (map some avps) ≡ ok (wires avps)
unfolding encode_avps encode_pointer wires
encode_avps-wires [] h = refl
encode_avps-wires (a ∷ avps) (w, h) = rw (IsWellFormed-encode a w, encode_avps-wires avps h)

length-wires :
    (avps : List Avp) → All RoundTrip.IsWellFormed avps → length (wires avps) ≡ total avps
unfolding wires
length-wires [] h = refl
length-wires (a ∷ avps) (w, h) =
    omega (arith, length-append (wire a) (wires avps), length-wire a w, length-wires avps h)

pub decode_avps_step :
    (fuel : ℕ) (input : Bytes) (a : Avp)
    → decode input ≡ ok a
    → a.padded_length ≤ length input
    → decode_avps (suc fuel) input
      ≡ (decode_avps fuel (drop a.padded_length input) >>= λ avps. ok (some a ∷ avps))
unfolding decode_avps
decode_avps_step fuel [] a e h = cc (decode_short [] (omega arith))
decode_avps_step fuel (b ∷ bs) a e h = rw (e, le→leb _ _ h)

pub padded_bounds :
    (a : Avp)
    → RoundTrip.IsWellFormed a
    → (8 ≤ a.length) × (a.length ≤ a.padded_length) × (a.padded_length < a.length + 4)
padded_bounds a w = omega (
  arith,
  w.length_exact,
  w.padded_exact,
  header_length_bounds a.vendor_specific,
  padded_of_lem a.length,
)

decode_avps-wires :
    (avps : List Avp) (fuel : ℕ)
    → All RoundTrip.IsWellFormed avps
    → total avps ≤ fuel
    → decode_avps fuel (wires avps) ≡ ok (map (λ (a : Avp). some (bare a)) avps)
decode_avps-wires [] fuel h f = unfold wires decode_avps in refl
decode_avps-wires (a ∷ avps) zero (w, h) f = absurd (omega (arith, padded_bounds a w))
decode_avps-wires (a ∷ avps) (suc fuel) (w, h) f =
    decode_avps_step fuel (wires (a ∷ avps)) a' first enough
    ∙ rw (drop_wire, decode_avps-wires avps fuel h (omega (arith, padded_bounds a w)))
  where
    a' : Avp
    a' = bare a

    first : decode (wires (a ∷ avps)) ≡ ok a'
    first = unfold wires in decode-wire a (wires avps) w

    enough : a.padded_length ≤ length (wires (a ∷ avps))
    enough = omega (arith, length-wires (a ∷ avps) (w, h))

    drop_wire : drop a.padded_length (wires (a ∷ avps)) ≡ wires avps
    drop_wire =
        unfold wires in drop-append_eq a.padded_length (wire a) (wires avps) (sym (length-wire a w))

-- `DecodeMessage` on five words and what follows them.
decode_message_words :
    (w w' app hbh ete : ℕ) (tail : Bytes)
    → IsU32 w
    → IsU32 w'
    → IsU32 app
    → IsU32 hbh
    → IsU32 ete
    → let input =
        put_uint32 w
        ++ (put_uint32 w' ++ (put_uint32 app ++ (put_uint32 hbh ++ (put_uint32 ete ++ tail)))) in
      low_24 w ≤ u32 (length input)
      → 20 ≤ low_24 w
      → decode_message input ≡ (
          decode_avps (length (take (low_24 w - 20) tail)) (take (low_24 w - 20) tail) >>= λ avps.
          ok (record {
            version = high_8 w;
            length = low_24 w;
            flags = high_8 w';
            code = low_24 w';
            app_id = app;
            hop_by_hop_id = hbh;
            end_to_end_id = ete;
            avps = avps;
            extended_attributes = none;
            avp_map = none;
          }))
unfolding decode_message
decode_message_words w w' app hbh ete tail hw hw' ha hh he enough long =
    let t₄ = put_uint32 ete ++ tail in
    let t₃ = put_uint32 hbh ++ t₄ in
    let t₂ = put_uint32 app ++ t₃ in
    let t₁ = put_uint32 w' ++ t₂ in
    let drop_header : drop 20 (put_uint32 w ++ t₁) ≡ tail = unfold put_uint32 in refl in
    rw (
      read_uint32-put w t₁ hw,
      le→leb _ _ enough,
      read_uint32-put w' t₂ hw',
      read_uint32-put app t₃ ha,
      read_uint32-put hbh t₄ hh,
      read_uint32-put ete tail he,
      le→leb _ _ long,
      drop_header,
    )

-- The bytes of a message.
unfoldable pub message_wire : Message → List Avp → Bytes
message_wire m avps =
    put_uint32 (join_24 m.version m.length)
    ++ (put_uint32 (join_24 m.flags m.code)
        ++ (put_uint32 m.app_id
            ++ (put_uint32 m.hop_by_hop_id ++ (put_uint32 m.end_to_end_id ++ wires avps))))

pub IsWellFormed-encode_message :
    (m : Message) (avps : List Avp)
    → IsWellFormed m avps
    → encode_message m ≡ ok (message_wire m avps)
unfolding encode_message message_wire
IsWellFormed-encode_message m avps h = rw (h.holds, encode_avps-wires avps h.avps_are)

pub length-message_wire :
    (m : Message) (avps : List Avp) → IsWellFormed m avps → length (message_wire m avps) ≡ m.length
unfolding message_wire put_uint32
length-message_wire m avps h = omega (arith, length-wires avps h.avps_are, h.length_exact)

-- Decoding the bytes of a well-formed message gives the message back, whatever follows.
pub decode_message-wire :
    (m : Message) (avps : List Avp) (rest : Bytes)
    → IsWellFormed m avps
    → m.length + length rest < 2 ^ 32
    → decode_message (message_wire m avps ++ rest) ≡ ok (bare_message m avps)
decode_message-wire m avps rest h small = rw split (
    decode_message_words (join_24 m.version m.length) (join_24 m.flags m.code) m.app_id
      m.hop_by_hop_id m.end_to_end_id (wires avps ++ rest)
      (join_24-IsU32 m.version m.length h.version_fits) (join_24-IsU32 m.flags m.code h.flags_fit)
      h.app_id_fits h.hop_by_hop_id_fits h.end_to_end_id_fits (rw split at enough) long
    ∙ rw (
      low,
      high_8-join m.version m.length h.version_fits,
      high_8-join m.flags m.code h.flags_fit,
      low_24-join m.flags m.code h.code_fits,
      body,
      decode_avps-wires avps (length (wires avps)) h.avps_are
          (omega (arith, length-wires avps h.avps_are)),
    ))
  where
    split :
        message_wire m avps ++ rest
        ≡ put_uint32 (join_24 m.version m.length)
          ++ (put_uint32 (join_24 m.flags m.code)
              ++ (put_uint32 m.app_id
                  ++ (put_uint32 m.hop_by_hop_id
                      ++ (put_uint32 m.end_to_end_id ++ (wires avps ++ rest)))))
    split = unfold message_wire in simp append_assoc

    low : low_24 (join_24 m.version m.length) ≡ m.length
    low = low_24-join m.version m.length h.length_fits

    enough : low_24 (join_24 m.version m.length) ≤ u32 (length (message_wire m avps ++ rest))
    enough =
        rw low
          (omega (arith, length-append (message_wire m avps) rest, length-message_wire m avps h))

    long : 20 ≤ low_24 (join_24 m.version m.length)
    long = rw low (omega (arith, h.length_exact))

    body : take (m.length - 20) (wires avps ++ rest) ≡ wires avps
    body =
        take-append_eq (m.length - 20) (wires avps) rest
          (omega (arith, h.length_exact, length-wires avps h.avps_are))

-- `DecodeMessage` gives back what `Encode` wrote for a well-formed message, without the attributes
-- of a dictionary, whatever bytes follow, on an input shorter than 2 ^ 32 bytes.
pub decode_message-encode_message :
    (m : Message) (avps : List Avp) (rest : Bytes)
    → IsWellFormed m avps
    → m.length + length rest < 2 ^ 32
    → (encode_message m >>= λ bytes. decode_message (bytes ++ rest)) ≡ ok (bare_message m avps)
decode_message-encode_message m avps rest h small =
    rw (IsWellFormed-encode_message m avps h) (decode_message-wire m avps rest h small)
