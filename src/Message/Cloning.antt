-- ===== src/Message/Cloning.antt =====
-- `Clone` and `Equals` of messages.
use diameterapi.Common.{
  suc, ◌+◌, ◌≡◌, refl, sym, ap, ap₂, ◌∙◌, ◌↔◌, Bool, true, false, if◌then◌else◌, List, [], ◌∷◌,
  ◌++◌, map, length, replicate, length-append, length-replicate, Option, some, none, Outcome, ok,
  panics, arith, Bool-cases, inl, inr,
}
use diameterapi.Avp.Types.{Avp}
use diameterapi.Avp.Codec.{encode_pointer}
use diameterapi.Avp.Codec
use diameterapi.Avp.Equality.{SameFields, equal_fields→SameFields, SameFields→equal_fields}
use diameterapi.Message.Types.{Message}
use diameterapi.Message.Codec.{encode_avps, encode_message}
use diameterapi.Message.Build.{clone_avps, clone, equal_avps, equal_header, equals}

length-map-some : (xs : List Avp) → length (map some xs) ≡ length xs
length-map-some [] = refl
length-map-some (x ∷ xs) = ap suc (length-map-some xs)

clone_avps_lem : (avps : List Avp) → clone_avps (map some avps) ≡ ok (map some avps)
unfolding clone_avps Codec.clone
clone_avps_lem [] = refl
clone_avps_lem (a ∷ avps) = rw (clone_avps_lem avps)

-- The AVPs of a clone: a nil pointer for each AVP, and then the AVPs.
clone_lem :
    (m : Message) (avps : List Avp)
    → m.avps ≡ map some avps
    → clone m ≡ ok (record m { avps = replicate (length avps) none ++ map some avps })
unfolding clone
clone_lem m avps h = rw (h, clone_avps_lem avps, length-map-some avps)

-- The clone of a message with an AVP has twice as many AVP pointers, the first half of them nil:
-- `Equals` tells it from its source, and its `Encode` panics.
pub clone_broken :
    (m : Message) (a : Avp) (avps : List Avp)
    → m.avps ≡ map some (a ∷ avps)
    → (c : Message) × (clone m ≡ ok c)
      × (length c.avps ≡ length m.avps + length m.avps)
      × (equals (some m) (some c) ≡ ok false)
      × (encode_message c ≡ panics)
unfolding encode_message encode_avps encode_pointer equals equal_header
clone_broken m a avps h = (c, clone_lem m (a ∷ avps) h, twice, different, refl)
  where
    c : Message
    c = record m { avps = replicate (length (a ∷ avps)) none ++ map some (a ∷ avps) }

    twice : length c.avps ≡ length m.avps + length m.avps
    twice = omega (
      arith,
      ap length h,
      length-append (replicate {A = Option Avp} (length (a ∷ avps)) none) (map some (a ∷ avps)),
      length-replicate {A = Option Avp} (length (a ∷ avps)) none,
      length-map-some (a ∷ avps),
    )

    different : equals (some m) (some c) ≡ ok false
    different = ground (arith, twice, ap length h)

-- Two lists of AVPs that agree in the compared fields, one by one.
abbrev pub SameAvps : List Avp → List Avp → Type 0
SameAvps [] [] = Unit
SameAvps [] (b ∷ bs) = ⊥
SameAvps (a ∷ avps) [] = ⊥
SameAvps (a ∷ avps) (b ∷ bs) = SameFields a b × SameAvps avps bs

equal_avps_iff :
    (avps bs : List Avp)
    → length avps ≡ length bs
    → (equal_avps (map some avps) (map some bs) ≡ ok true) ↔ SameAvps avps bs
unfolding equal_avps Codec.equal
equal_avps_iff [] [] h = (λ e. tt, λ e. refl)
equal_avps_iff [] (b ∷ bs) h = absurd (omega arith)
equal_avps_iff (a ∷ avps) [] h = absurd (omega arith)
equal_avps_iff (a ∷ avps) (b ∷ bs) h =
    let (to, from) = equal_avps_iff avps bs (omega arith) in
    elim (Bool-cases (Codec.equal_fields a b)) [
      | inl e ↦ (λ r. (equal_fields→SameFields a b e, to (rw e at r)), λ r. rw e (from r.1))
      | inr e ↦ (λ r. absurd (different e r), λ r. cc (SameFields→equal_fields a b r.0))
    ]
  where
    different :
        Codec.equal_fields a b ≡ false
        → (if Codec.equal_fields a b then equal_avps (map some avps) (map some bs) else ok false)
          ≡ ok true
        → ⊥
    different e r = ground arith

-- The header fields that `Equals` compares; the Length field is not among them.
pub record SameHeader (m c : Message) : Type 0 where
  pub version : m.version ≡ c.version
  pub flags : m.flags ≡ c.flags
  pub code : m.code ≡ c.code
  pub app_id : m.app_id ≡ c.app_id
  pub hop_by_hop_id : m.hop_by_hop_id ≡ c.hop_by_hop_id
  pub end_to_end_id : m.end_to_end_id ≡ c.end_to_end_id

SameAvps-length : (avps bs : List Avp) → SameAvps avps bs → length avps ≡ length bs
SameAvps-length [] [] s = refl
SameAvps-length [] (b ∷ bs) s = absurd s
SameAvps-length (a ∷ avps) [] s = absurd s
SameAvps-length (a ∷ avps) (b ∷ bs) s = ap suc (SameAvps-length avps bs s.1)

header_split :
    (m c : Message) → equal_header m c ≡ true → SameHeader m c × (length m.avps ≡ length c.avps)
unfolding equal_header
header_split m c h = ground arith

header_join :
    (m c : Message) → SameHeader m c → length m.avps ≡ length c.avps → equal_header m c ≡ true
unfolding equal_header
header_join m c s l = ground arith

if-eq-ok :
    (b : Bool) (x : Outcome Bool)
    → (if b then x else ok false) ≡ ok true
    → (b ≡ true) × (x ≡ ok true)
if-eq-ok true x h = (refl, h)
if-eq-ok false x h = cc

-- On messages without nil AVPs `Equals` holds exactly if the compared header fields agree and the
-- AVPs agree in order.
pub equals_iff :
    (m c : Message) (avps bs : List Avp)
    → m.avps ≡ map some avps
    → c.avps ≡ map some bs
    → (equals (some m) (some c) ≡ ok true) ↔ (SameHeader m c × SameAvps avps bs)
unfolding equals
equals_iff m c avps bs hm hc = (
  λ e.
      let (t, x) = if-eq-ok (equal_header m c) (equal_avps m.avps c.avps) e in
      let (s, l) = header_split m c t in
      (s, (equal_avps_iff avps bs (lengths l)).0 (sym (ap₂ equal_avps hm hc) ∙ x)),
  λ r.
      let l = SameAvps-length avps bs r.1 in
      rw (header_join m c r.0 (back l)) (ap₂ equal_avps hm hc ∙ (equal_avps_iff avps bs l).1 r.1),
)
  where
    lengths : length m.avps ≡ length c.avps → length avps ≡ length bs
    lengths l = omega (arith, ap length hm, ap length hc, length-map-some avps, length-map-some bs)

    back : length avps ≡ length bs → length m.avps ≡ length c.avps
    back l = omega (arith, ap length hm, ap length hc, length-map-some avps, length-map-some bs)
