-- ===== src/Message/Equality.antt =====
-- `Equals` of messages against `Encode`.
use diameterapi.Common.{
  ◌≡◌, refl, sym, ap, ◌∙◌, ◌↔◌, false, true, List, [], ◌∷◌, ◌++◌, map, All, Option, some, none,
  Outcome, ok, ◌>>=◌, ok_injective, arith,
}
use diameterapi.Wire.{Bytes}
use diameterapi.Avp.Types.{Avp}
use diameterapi.Avp.RoundTrip
use diameterapi.Avp.RoundTrip.{wire}
use diameterapi.Avp.Equality.{SameFields}
use diameterapi.Message.Types.{Message}
use diameterapi.Message.Codec.{encode_message, decode_message}
use diameterapi.Message.Build.{equals}
use diameterapi.Message.RoundTrip.{
  IsWellFormed, total, bare, wires, message_wire, IsWellFormed-encode_message,
  decode_message-encode_message,
}
use diameterapi.Message.Cloning.{SameHeader, SameAvps, equals_iff}

-- An AVP, and a message, without P flags
abbrev pub without_p : Avp → Avp
without_p a = record a { protected = false }

abbrev pub unprotected : Message → List Avp → Message
unprotected m avps = record m { avps = map some (map without_p avps) }

total-without_p : (avps : List Avp) → total (map without_p avps) ≡ total avps
total-without_p [] = refl
total-without_p (a ∷ avps) = omega (arith, total-without_p avps)

All-without_p :
    (avps : List Avp)
    → All RoundTrip.IsWellFormed avps
    → All RoundTrip.IsWellFormed (map without_p avps)
All-without_p [] h = tt
All-without_p (a ∷ avps) (w, h) = (
  record {
    code_fits = w.code_fits;
    vendor_fits = w.vendor_fits;
    vendor_absent = w.vendor_absent;
    length_exact = w.length_exact;
    length_fits = w.length_fits;
    padded_exact = w.padded_exact;
  },
  All-without_p avps h,
)

unprotected-IsWellFormed :
    (m : Message) (avps : List Avp)
    → IsWellFormed m avps
    → IsWellFormed (unprotected m avps) (map without_p avps)
unprotected-IsWellFormed m avps h = record {
  version_fits = h.version_fits;
  flags_fit = h.flags_fit;
  code_fits = h.code_fits;
  app_id_fits = h.app_id_fits;
  hop_by_hop_id_fits = h.hop_by_hop_id_fits;
  end_to_end_id_fits = h.end_to_end_id_fits;
  holds = refl;
  avps_are = All-without_p avps h.avps_are;
  length_exact = omega (arith, h.length_exact, total-without_p avps);
  length_fits = h.length_fits;
}

-- Equal AVPs have the same bytes but for the P flag.
wire-SameFields : (a b : Avp) → SameFields a b → wire (without_p a) ≡ wire (without_p b)
unfolding wire
wire-SameFields a b s =
    rw (s.code, s.vendor_specific, s.mandatory, s.vendor_id, s.length, s.padded_length, s.payload)

wires-SameAvps :
    (avps bs : List Avp)
    → SameAvps avps bs
    → (wires (map without_p avps) ≡ wires (map without_p bs)) × (total avps ≡ total bs)
unfolding wires
wires-SameAvps [] [] s = (refl, refl)
wires-SameAvps [] (b ∷ bs) s = absurd s
wires-SameAvps (a ∷ avps) [] s = absurd s
wires-SameAvps (a ∷ avps) (b ∷ bs) (s, t) =
    let (w, n) = wires-SameAvps avps bs t in
    (rw (wire-SameFields a b s, w), omega (arith, s.padded_length, n))

message_wire-unprotected :
    (m c : Message) (avps bs : List Avp)
    → SameHeader m c
    → m.length ≡ c.length
    → wires (map without_p avps) ≡ wires (map without_p bs)
    → message_wire (unprotected m avps) (map without_p avps)
      ≡ message_wire (unprotected c bs) (map without_p bs)
unfolding message_wire
message_wire-unprotected m c avps bs s l w =
    rw (s.version, s.flags, s.code, s.app_id, s.hop_by_hop_id, s.end_to_end_id, l, w)

-- The fields of AVPs that are the same but for the P flag and the attributes of a dictionary.
abbrev avp_or : Avp → Option Avp → Avp
avp_or a none = a
avp_or a (some b) = b

SameFields-bare :
    (a b : Avp) → some (bare (without_p a)) ≡ some (bare (without_p b)) → SameFields a b
SameFields-bare a b e =
    let p = ap (avp_or a) e in
    record {
      code = ap (λ (t : Avp). t.code) p;
      vendor_specific = ap (λ (t : Avp). t.vendor_specific) p;
      mandatory = ap (λ (t : Avp). t.mandatory) p;
      vendor_id = ap (λ (t : Avp). t.vendor_id) p;
      length = ap (λ (t : Avp). t.length) p;
      padded_length = ap (λ (t : Avp). t.padded_length) p;
      payload = ap (λ (t : Avp). t.payload) p;
    }

abbrev first_or : Option Avp → List (Option Avp) → Option Avp
first_or o [] = o
first_or o (x ∷ xs) = x

abbrev rest_of : List (Option Avp) → List (Option Avp)
rest_of [] = []
rest_of (x ∷ xs) = xs

abbrev bares : List Avp → List (Option Avp)
bares avps = map (λ (a : Avp). some (bare a)) (map without_p avps)

SameAvps-bares : (avps bs : List Avp) → bares avps ≡ bares bs → SameAvps avps bs
SameAvps-bares [] [] e = tt
SameAvps-bares [] (b ∷ bs) e = cc
SameAvps-bares (a ∷ avps) [] e = cc
SameAvps-bares (a ∷ avps) (b ∷ bs) e =
    (SameFields-bare a b (ap (first_or none) e), SameAvps-bares avps bs (ap rest_of e))

-- On well-formed messages `Equals` holds exactly if the messages encode to the same bytes once the P flags
-- of their AVPs are cleared.
pub equals-encode_message :
    (m c : Message) (avps bs : List Avp)
    → IsWellFormed m avps
    → IsWellFormed c bs
    → (equals (some m) (some c) ≡ ok true)
      ↔ (encode_message (unprotected m avps) ≡ encode_message (unprotected c bs))
equals-encode_message m c avps bs hm hc = (
  λ e.
      let (s, t) = (equals_iff m c avps bs hm.holds hc.holds).0 e in
      let (w, n) = wires-SameAvps avps bs t in
      let l : m.length ≡ c.length = omega (arith, hm.length_exact, hc.length_exact, n) in
      IsWellFormed-encode_message (unprotected m avps) (map without_p avps) um
      ∙ ap ok (message_wire-unprotected m c avps bs s l w)
      ∙ sym (IsWellFormed-encode_message (unprotected c bs) (map without_p bs) uc),
  λ e.
      let read = λ (x : Outcome Bytes). x >>= λ bytes. decode_message (bytes ++ []) in
      let same = ok_injective (
        sym (
          decode_message-encode_message (unprotected m avps) (map without_p avps) [] um
            (omega (arith, hm.length_fits)))
        ∙ ap read e
        ∙ decode_message-encode_message (unprotected c bs) (map without_p bs) [] uc
            (omega (arith, hc.length_fits))) in
      (equals_iff m c avps bs hm.holds hc.holds).1 (
        record {
          version = ap (λ (t : Message). t.version) same;
          flags = ap (λ (t : Message). t.flags) same;
          code = ap (λ (t : Message). t.code) same;
          app_id = ap (λ (t : Message). t.app_id) same;
          hop_by_hop_id = ap (λ (t : Message). t.hop_by_hop_id) same;
          end_to_end_id = ap (λ (t : Message). t.end_to_end_id) same;
        },
        SameAvps-bares avps bs (ap (λ (t : Message). t.avps) same),
      ),
)
  where
    um : IsWellFormed (unprotected m avps) (map without_p avps)
    um = unprotected-IsWellFormed m avps hm

    uc : IsWellFormed (unprotected c bs) (map without_p bs)
    uc = unprotected-IsWellFormed c bs hc
