-- ===== src/Message/Sound.antt =====
-- What `DecodeMessage` answers on any byte slice.
use diameterapi.Common.{
  ℕ, ◌+◌, ◌-◌, ◌^◌, ◌≤◌, ◌<◌, ◌≡◌, ◌≢◌, refl, sym, ap, ap₂, subst, ◌∙◌, inl, inr, Bool-cases, Bool,
  true, false, leb, le→leb, leb→le, leb→lt, List, [], ◌++◌, length, take, All-take, length-take,
  length-append, take-append_le, append-nil, Option, none, Outcome, ok, stuck, >>=-eq-ok,
  map-eq-stuck, ◌>>◌, guard, check, arith, Error, header_exceeds_stream,
}
use diameterapi.Wire.{Bytes, IsByte, IsBytes, u32, high_8, low_24, high_8-IsByte, low_24_bound}
use diameterapi.Avp.Types.{Avp}
use diameterapi.Message.Types.{Message}
use diameterapi.Message.Codec.{decode_avps, decode_message}
use diameterapi.Message.RoundTrip.{IsWellFormed}
use diameterapi.Message.Shape.{Shape, shape, decode_tail}
use diameterapi.Message.Decode.{decode_avps-ne-stuck, decode_avps_sound, decode_message_short}

guard-eq-ok {ℓ} :
    {A : Type ℓ} (b : Bool) (e : Error) (k : Outcome A) {a : A}
    → (guard b e >> k) ≡ ok a
    → (b ≡ true) × (k ≡ ok a)
guard-eq-ok true e k h = (refl, h)
guard-eq-ok false e k h = cc

check-eq-ok {ℓ} :
    {A : Type ℓ} (b : Bool) (k : Outcome A) {a : A}
    → (check b >> k) ≡ ok a
    → (b ≡ true) × (k ≡ ok a)
check-eq-ok true k h = (refl, h)
check-eq-ok false k h = cc

-- The message that `DecodeMessage` makes of a header and the AVPs behind it.
abbrev message_of : ℕ → ℕ → ℕ → ℕ → ℕ → List (Option Avp) → Message
message_of w w' app hbh ete avps = record {
  version = high_8 w;
  length = low_24 w;
  flags = high_8 w';
  code = low_24 w';
  app_id = app;
  hop_by_hop_id = hbh;
  end_to_end_id = ete;
  avps = avps;
  extended_attributes = none;
  avp_map = none;
}

abbrev body_of : ℕ → Bytes → Bytes
body_of w tail = take (low_24 w - 20) tail

-- A success, taken apart.
decode_tail_inversion :
    (n w w' app hbh ete : ℕ) (tail : Bytes) (m : Message)
    → decode_tail n w w' app hbh ete tail ≡ ok m
    → (low_24 w ≤ u32 n)
      × (20 ≤ low_24 w)
      × ((found : List (Option Avp)) × (decode_avps (length (body_of w tail)) (body_of w tail)
            ≡ ok found)
          × (message_of w w' app hbh ete found ≡ m))
unfolding decode_tail
decode_tail_inversion n w w' app hbh ete tail m e =
    let (g, e₁) = guard-eq-ok (leb (low_24 w) (u32 n)) header_exceeds_stream _ e in
    let (c, e₂) = check-eq-ok (leb 20 (low_24 w)) _ e₁ in
    let (found, d, f) =
      >>=-eq-ok (decode_avps (length (body_of w tail)) (body_of w tail))
        (λ avps. ok (message_of w w' app hbh ete avps)) e₂ in
    (leb→le _ _ g, leb→le _ _ c, (found, d, cc))

decode_tail_ok :
    (n w w' app hbh ete : ℕ) (tail : Bytes) (found : List (Option Avp))
    → low_24 w ≤ u32 n
    → 20 ≤ low_24 w
    → decode_avps (length (body_of w tail)) (body_of w tail) ≡ ok found
    → decode_tail n w w' app hbh ete tail ≡ ok (message_of w w' app hbh ete found)
unfolding decode_tail
decode_tail_ok n w w' app hbh ete tail found g c d = rw (le→leb _ _ g, le→leb _ _ c, d)

decode_message_long :
    (input : Bytes) (m : Message) → decode_message input ≡ ok m → 20 ≤ length input
decode_message_long input m e = elim (Bool-cases (leb 20 (length input))) [
  | inl k ↦ leb→le _ _ k
  | inr k ↦ let (r, q) = decode_message_short input (leb→lt _ _ k) in cc
]

-- The reads of a shape, with nothing behind the input.
reads_alone :
    (input : Bytes) (s : Shape input)
    → decode_message input ≡ decode_tail (length input) s.word s.word' s.app s.hbh s.ete s.tail
reads_alone input s = rw (append-nil, append-nil) at (s.reads [])

-- A decoded message of a byte slice is well formed: no AVP is nil, each is well formed, and its
-- Length field is the length of its bytes, which lie within the slice.
pub decode_message-IsWellFormed :
    (input : Bytes) (m : Message)
    → IsBytes input
    → decode_message input ≡ ok m
    → (avps : List Avp) × IsWellFormed m avps × (m.length ≤ length input)
decode_message-IsWellFormed input m b e =
    let s = shape input (decode_message_long input m e) in
    let (g, c, (found, d, q)) =
      decode_tail_inversion (length input) s.word s.word' s.app s.hbh s.ete s.tail m
        (sym (reads_alone input s) ∙ e) in
    let (fa, fh, fe, ft) = s.fits b in
    let (avps, is_map, well, sum) =
      decode_avps_sound (length (body_of s.word s.tail)) (body_of s.word s.tail) found
        (All-take IsByte (low_24 s.word - 20) s.tail ft) d in
    subst (λ (t : Message). (avps : List Avp) × IsWellFormed t avps × (t.length ≤ length input)) q
      (
        avps,
        record {
          version_fits = high_8-IsByte s.word;
          flags_fit = high_8-IsByte s.word';
          code_fits = low_24_bound s.word';
          app_id_fits = fa;
          hop_by_hop_id_fits = fh;
          end_to_end_id_fits = fe;
          holds = is_map;
          avps_are = well;
          length_exact = omega (arith, length-take (low_24 s.word - 20) s.tail, s.length_tail);
          length_fits = low_24_bound s.word;
        },
        omega arith,
      )

-- `DecodeMessage` does not look past the message: bytes added behind the input change nothing, as
-- long as the whole stays below 2 ^ 32 bytes.
pub decode_message-append :
    (input more : Bytes) (m : Message)
    → decode_message input ≡ ok m
    → length input + length more < 2 ^ 32
    → decode_message (input ++ more) ≡ ok m
decode_message-append input more m e small =
    let s = shape input (decode_message_long input m e) in
    let (g, c, (found, d, q)) =
      decode_tail_inversion (length input) s.word s.word' s.app s.hbh s.ete s.tail m
        (sym (reads_alone input s) ∙ e) in
    let same : body_of s.word (s.tail ++ more) ≡ body_of s.word s.tail =
      take-append_le (low_24 s.word - 20) s.tail more (omega (arith, s.length_tail)) in
    s.reads more
    ∙ decode_tail_ok (length (input ++ more)) s.word s.word' s.app s.hbh s.ete (s.tail ++ more)
        found (omega (arith, length-append input more)) c
        (ap₂ decode_avps (ap length same) same ∙ d)
    ∙ ap ok q

decode_tail-ne-stuck :
    (n w w' app hbh ete : ℕ) (tail : Bytes)
    → IsBytes tail
    → decode_tail n w w' app hbh ete tail ≢ stuck
unfolding decode_tail
decode_tail-ne-stuck n w w' app hbh ete tail b e = elim (Bool-cases (leb (low_24 w) (u32 n))) [
  | inr g ↦ cc (rw g at e)
  | inl g ↦ elim (Bool-cases (leb 20 (low_24 w))) [
    | inr c ↦ cc (rw (g, c) at e)
    | inl c ↦
        decode_avps-ne-stuck (length (body_of w tail)) (body_of w tail)
          (All-take IsByte (low_24 w - 20) tail b) (omega arith)
          (map-eq-stuck (decode_avps (length (body_of w tail)) (body_of w tail))
            (message_of w w' app hbh ete) (rw (g, c) at e))
  ]
]

-- `DecodeMessage` always ends: its fuel is enough on every byte slice.
pub decode_message-ne-stuck : (input : Bytes) → IsBytes input → decode_message input ≢ stuck
decode_message-ne-stuck input b e = elim (Bool-cases (leb 20 (length input))) [
  | inr k ↦ let (r, q) = decode_message_short input (leb→lt _ _ k) in cc
  | inl k ↦
      let s = shape input (leb→le _ _ k) in
      let (_, _, _, ft) = s.fits b in
      decode_tail-ne-stuck (length input) s.word s.word' s.app s.hbh s.ete s.tail ft
        (sym (reads_alone input s) ∙ e)
]
