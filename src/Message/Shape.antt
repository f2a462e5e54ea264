-- ===== src/Message/Shape.antt =====
-- `DecodeMessage` on an input taken apart into its header's five words and what follows them.
use diameterapi.Common.{
  ℕ, ◌+◌, ◌-◌, ◌*◌, ◌≤◌, ◌≡◌, refl, sym, ap, subst, ◌∙◌, leb, [], ◌∷◌, ◌++◌, length, take, none,
  Outcome, ok, ◌>>=◌, ◌>>◌, guard, check, arith, header_exceeds_stream,
}
use diameterapi.Wire.{Bytes, IsBytes, IsU32, u32, be32, be32_bound, read_uint32, high_8, low_24}
use diameterapi.Message.Types.{Message}
use diameterapi.Message.Codec.{decode_avps, decode_message}

-- `DecodeMessage` on an input of `n` bytes behind the reading of the header's words.
unfoldable pub decode_tail : ℕ → ℕ → ℕ → ℕ → ℕ → ℕ → Bytes → Outcome Message
decode_tail n w w' app hbh ete tail = do
  guard (leb (low_24 w) (u32 n)) header_exceeds_stream
  check (leb 20 (low_24 w))
  let b = take (low_24 w - 20) tail
  avps ← decode_avps (length b) b
  ok (record {
    version = high_8 w;
    length = low_24 w;
    flags = high_8 w';
    code = low_24 w';
    app_id = app;
    hop_by_hop_id = hbh;
    end_to_end_id = ete;
    avps = avps;
    extended_attributes = none;
    avp_map = none;
  })

-- The Length field of a message is bytes 1 to 3, the most significant first.
abbrev pub message_length_field : Bytes → ℕ
message_length_field (_ ∷ p ∷ q ∷ r ∷ _) = p * 65536 + q * 256 + r
message_length_field _ = 0

pub record Shape (input : Bytes) : Type 0 where
  pub word : ℕ
  pub word' : ℕ
  pub app : ℕ
  pub hbh : ℕ
  pub ete : ℕ
  pub tail : Bytes
  pub length_tail : length input ≡ length tail + 20
  pub fits : IsBytes input → IsU32 app × IsU32 hbh × IsU32 ete × IsBytes tail
  pub length_is : IsBytes input → low_24 word ≡ message_length_field input
  pub first : (more : Bytes) → (rest : Bytes) × (read_uint32 (input ++ more) ≡ ok (word, rest))
  pub reads :
      (more : Bytes)
      → decode_message (input ++ more)
        ≡ decode_tail (length (input ++ more)) word word' app hbh ete (tail ++ more)

word_IsBytes :
    (a b c d : ℕ) (r : Bytes) → IsBytes (a ∷ b ∷ c ∷ d ∷ r) → IsU32 (be32 a b c d) × IsBytes r
word_IsBytes a b c d r (ha, (hb, (hc, (hd, hr)))) = (be32_bound a b c d ha hb hc hd, hr)

word_length_field :
    (a b c d : ℕ) (r : Bytes)
    → IsBytes (a ∷ b ∷ c ∷ d ∷ r)
    → low_24 (be32 a b c d) ≡ message_length_field (a ∷ b ∷ c ∷ d ∷ r)
unfolding low_24 be32
word_length_field a b c d r (ha, (hb, (hc, (hd, hr)))) = omega arith

Shape-words :
    (a1 b1 c1 d1 a2 b2 c2 d2 a3 b3 c3 d3 a4 b4 c4 d4 a5 b5 c5 d5 : ℕ) (tail : Bytes)
    → Shape (
        a1 ∷ b1 ∷ c1 ∷ d1 ∷ a2 ∷ b2 ∷ c2 ∷ d2 ∷ a3 ∷ b3 ∷ c3 ∷ d3 ∷ a4 ∷ b4 ∷ c4 ∷ d4 ∷ a5 ∷ b5 ∷ c5
        ∷ d5 ∷ tail)
unfolding decode_message read_uint32 decode_tail
Shape-words a1 b1 c1 d1 a2 b2 c2 d2 a3 b3 c3 d3 a4 b4 c4 d4 a5 b5 c5 d5 tail = record {
  word = be32 a1 b1 c1 d1;
  word' = be32 a2 b2 c2 d2;
  app = be32 a3 b3 c3 d3;
  hbh = be32 a4 b4 c4 d4;
  ete = be32 a5 b5 c5 d5;
  tail = tail;
  length_tail = omega arith;
  fits = λ k₁.
      let (_, k₂) =
        word_IsBytes a1 b1 c1 d1
          (a2 ∷ b2 ∷ c2 ∷ d2 ∷ a3 ∷ b3 ∷ c3 ∷ d3 ∷ a4 ∷ b4 ∷ c4 ∷ d4 ∷ a5 ∷ b5 ∷ c5 ∷ d5 ∷ tail)
          k₁ in
      let (_, k₃) =
        word_IsBytes a2 b2 c2 d2 (a3 ∷ b3 ∷ c3 ∷ d3 ∷ a4 ∷ b4 ∷ c4 ∷ d4 ∷ a5 ∷ b5 ∷ c5 ∷ d5 ∷ tail)
          k₂ in
      let (app_fits, k₄) =
        word_IsBytes a3 b3 c3 d3 (a4 ∷ b4 ∷ c4 ∷ d4 ∷ a5 ∷ b5 ∷ c5 ∷ d5 ∷ tail) k₃ in
      let (hbh_fits, k₅) = word_IsBytes a4 b4 c4 d4 (a5 ∷ b5 ∷ c5 ∷ d5 ∷ tail) k₄ in
      let (ete_fits, tail_fits) = word_IsBytes a5 b5 c5 d5 (tail) k₅ in
      (app_fits, hbh_fits, ete_fits, tail_fits);
  length_is = λ k.
      word_length_field a1 b1 c1 d1
        (a2 ∷ b2 ∷ c2 ∷ d2 ∷ a3 ∷ b3 ∷ c3 ∷ d3 ∷ a4 ∷ b4 ∷ c4 ∷ d4 ∷ a5 ∷ b5 ∷ c5 ∷ d5 ∷ tail) k;
  first = λ more. (_, refl);
  reads = λ more. refl;
}

front : (xs : Bytes) → 4 ≤ length xs → (a b c d : ℕ) × (r : Bytes) × (xs ≡ a ∷ b ∷ c ∷ d ∷ r)
front [] h = absurd (omega arith)
front (_ ∷ []) h = absurd (omega arith)
front (_ ∷ _ ∷ []) h = absurd (omega arith)
front (_ ∷ _ ∷ _ ∷ []) h = absurd (omega arith)
front (a ∷ b ∷ c ∷ d ∷ r) h = (a, b, c, d, r, refl)

pub shape : (input : Bytes) → 20 ≤ length input → Shape input
shape input h =
    let (a1, b1, c1, d1, r1, e1) = front input (omega arith) in
    let (a2, b2, c2, d2, r2, e2) = front r1 (omega (arith, ap length e1)) in
    let (a3, b3, c3, d3, r3, e3) = front r2 (omega (arith, ap length e1, ap length e2)) in
    let (a4, b4, c4, d4, r4, e4) =
      front r3 (omega (arith, ap length e1, ap length e2, ap length e3)) in
    let (a5, b5, c5, d5, r5, e5) =
      front r4 (omega (arith, ap length e1, ap length e2, ap length e3, ap length e4)) in
    subst Shape
      (sym (
        e1
        ∙ ap (λ (t : Bytes). a1 ∷ b1 ∷ c1 ∷ d1 ∷ t)
            (e2
              ∙ ap (λ (t : Bytes). a2 ∷ b2 ∷ c2 ∷ d2 ∷ t)
                  (e3
                    ∙ ap (λ (t : Bytes). a3 ∷ b3 ∷ c3 ∷ d3 ∷ t)
                        (e4 ∙ ap (λ (t : Bytes). a4 ∷ b4 ∷ c4 ∷ d4 ∷ t) e5)))))
      (Shape-words a1 b1 c1 d1 a2 b2 c2 d2 a3 b3 c3 d3 a4 b4 c4 d4 a5 b5 c5 d5 r5)
