-- ===== src/Message/Decode.antt =====
-- `DecodeMessage` on any input, well formed or not.
use diameterapi.Common.{
  ℕ, suc, zero, ◌+◌, ◌≤◌, ◌<◌, ◌≡◌, ◌≢◌, refl, sym, ◌∙◌, ◌⊎◌, inl, inr, Bool-cases, leb, lt→leb,
  leb→le, leb→lt, List, [], ◌∷◌, map, length, drop, All, All-drop, length-drop, Option, some, ok,
  err, panics, stuck, >>=-eq-ok, map-eq-stuck, arith, Error, eof, unexpected_eof,
  header_exceeds_stream, cases, is_ok, is_err, is_panics, is_stuck,
}
use diameterapi.Wire.{Bytes, IsByte, IsBytes, u32, read_uint32, low_24}
use diameterapi.Avp.Types.{Avp}
use diameterapi.Avp.Codec.{decode}
use diameterapi.Avp.RoundTrip
use diameterapi.Avp.Headers.{decode_short}
use diameterapi.Avp.Decode.{decode-IsWellFormed, decode-ne-stuck}
use diameterapi.Message.Codec.{decode_avps, decode_message}
use diameterapi.Message.RoundTrip.{total, padded_bounds, decode_avps_step}

-- An AVP whose padding is cut off by the end of the bytes makes the slice expression of the loop
-- panic.
decode_avps_overrun :
    (fuel : ℕ) (b : Bytes) (a : Avp)
    → decode b ≡ ok a
    → length b < a.padded_length
    → decode_avps (suc fuel) b ≡ panics
unfolding decode_avps
decode_avps_overrun fuel [] a e h = cc (decode_short [] (omega arith))
decode_avps_overrun fuel (x ∷ xs) a e h = rw (e, lt→leb _ _ h)

-- Each round takes eight bytes at least.
decode_shrinks :
    (b : Bytes) (a : Avp)
    → IsBytes b
    → decode b ≡ ok a
    → a.padded_length ≤ length b
    → (length (drop a.padded_length b) + a.padded_length ≡ length b) × (8 ≤ a.padded_length)
decode_shrinks b a h d k =
    let w = (decode-IsWellFormed b a h d).0 in
    let (lo, hi, _) = padded_bounds a w in
    (omega (arith, length-drop a.padded_length b), omega arith)

-- The loop never runs out of fuel: each round drops the bytes of an AVP.
pub decode_avps-ne-stuck :
    (fuel : ℕ) (b : Bytes) → IsBytes b → length b ≤ fuel → decode_avps fuel b ≢ stuck
decode_avps-ne-stuck fuel [] h l e = unfold decode_avps in cc
decode_avps-ne-stuck zero (x ∷ xs) h l e = absurd (omega arith)
decode_avps-ne-stuck (suc fuel) (x ∷ xs) h l e = elim (cases (decode (x ∷ xs))) [
  | is_ok a d ↦ elim (Bool-cases (leb a.padded_length (length (x ∷ xs)))) [
    | inl k ↦
        decode_avps-ne-stuck fuel (drop a.padded_length (x ∷ xs))
          (All-drop IsByte a.padded_length (x ∷ xs) h)
          (omega (arith, decode_shrinks (x ∷ xs) a h d (leb→le _ _ k), l))
          (map-eq-stuck (decode_avps fuel (drop a.padded_length (x ∷ xs))) (◌∷◌ (some a))
            (sym (decode_avps_step fuel (x ∷ xs) a d (leb→le _ _ k)) ∙ e))
    | inr k ↦ cc (decode_avps_overrun fuel (x ∷ xs) a d (leb→lt _ _ k))
  ]
  | is_err r d ↦ unfold decode_avps in cc
  | is_panics d ↦ unfold decode_avps in cc
  | is_stuck d ↦ decode-ne-stuck (x ∷ xs) h d
]

-- The AVPs that the loop yields are well formed, none is nil, and their padded lengths add up to the
-- length of the input.
pub decode_avps_sound :
    (fuel : ℕ) (b : Bytes) (found : List (Option Avp))
    → IsBytes b
    → decode_avps fuel b ≡ ok found
    → (avps : List Avp) × (found ≡ map some avps)
      × All RoundTrip.IsWellFormed avps
      × (total avps ≡ length b)
decode_avps_sound fuel [] found h e = ([], unfold decode_avps in cc, tt, refl)
decode_avps_sound zero (x ∷ xs) found h e = unfold decode_avps in cc
decode_avps_sound (suc fuel) (x ∷ xs) found h e = elim (cases (decode (x ∷ xs))) [
  | is_ok a d ↦ elim (Bool-cases (leb a.padded_length (length (x ∷ xs)))) [
    | inl k ↦
        let le = leb→le _ _ k in
        let rest = drop a.padded_length (x ∷ xs) in
        let (rest_found, d', f) =
          >>=-eq-ok (decode_avps fuel rest) (λ avps. ok (some a ∷ avps))
            (sym (decode_avps_step fuel (x ∷ xs) a d le) ∙ e) in
        let (avps, is_map, well, sum) =
          decode_avps_sound fuel rest rest_found (All-drop IsByte a.padded_length (x ∷ xs) h) d' in
        (
          a ∷ avps,
          cc,
          ((decode-IsWellFormed (x ∷ xs) a h d).0, well),
          omega (arith, decode_shrinks (x ∷ xs) a h d le),
        )
    | inr k ↦ cc (decode_avps_overrun fuel (x ∷ xs) a d (leb→lt _ _ k))
  ]
  | is_err r d ↦ unfold decode_avps in cc
  | is_panics d ↦ unfold decode_avps in cc
  | is_stuck d ↦ unfold decode_avps in cc
]

-- `DecodeMessage` on an input that is too short for the header returns an error.
read_uint32_cases :
    (xs : Bytes)
    → ((w : ℕ) × (r : Bytes) × (read_uint32 xs ≡ ok (w, r)) × (length xs ≡ length r + 4))
      ⊎ ((e : Error) × (read_uint32 xs ≡ err e))
unfolding read_uint32
read_uint32_cases [] = inr (eof, refl)
read_uint32_cases (_ ∷ []) = inr (unexpected_eof, refl)
read_uint32_cases (_ ∷ _ ∷ []) = inr (unexpected_eof, refl)
read_uint32_cases (_ ∷ _ ∷ _ ∷ []) = inr (unexpected_eof, refl)
read_uint32_cases (a ∷ b ∷ c ∷ d ∷ r) = inl (_, r, refl, omega arith)

pub decode_message_short :
    (input : Bytes) → length input < 20 → (e : Error) × (decode_message input ≡ err e)
unfolding decode_message
decode_message_short input h = elim (read_uint32_cases input) [
  | inr (e, r) ↦ (e, rw r)
  | inl (w, r₁, q₁, l₁) ↦ elim (Bool-cases (leb (low_24 w) (u32 (length input)))) [
    | inr g ↦ (header_exceeds_stream, rw (q₁, g))
    | inl g ↦ elim (read_uint32_cases r₁) [
      | inr (e, r) ↦ (e, rw (q₁, g, r))
      | inl (_, r₂, q₂, l₂) ↦ elim (read_uint32_cases r₂) [
        | inr (e, r) ↦ (e, rw (q₁, g, q₂, r))
        | inl (_, r₃, q₃, l₃) ↦ elim (read_uint32_cases r₃) [
          | inr (e, r) ↦ (e, rw (q₁, g, q₂, q₃, r))
          | inl (_, r₄, q₄, l₄) ↦ elim (read_uint32_cases r₄) [
            | inr (e, r) ↦ (e, rw (q₁, g, q₂, q₃, q₄, r))
            | inl (_, r₅, q₅, l₅) ↦ absurd (omega arith)
          ]
        ]
      ]
    ]
  ]
]
