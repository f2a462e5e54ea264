-- ===== src/Avp/Equality.antt =====
-- `Equal` against `Encode`.
use diameterapi.Common.{
  ℕ, ◌≤◌, ◌≡◌, ◌≢◌, ◌↔◌, refl, sym, ap, ◌∙◌, Bool, true, false, [], ◌∷◌, length, some, Outcome, ok,
  arith,
}
use diameterapi.Wire.{Bytes, put_uint32, join_24}
use diameterapi.Avp.Types.{Avp}
use diameterapi.Avp.Codec.{same_bytes, equal_fields, equal, encode, flags_of, make_protected}
use diameterapi.Avp.RoundTrip.{wire, encode-wire, flags_of-IsByte}

pub same_bytes→eq : (xs ys : Bytes) → length xs ≡ length ys → same_bytes xs ys ≡ true → xs ≡ ys
unfolding same_bytes
same_bytes→eq [] [] h e = refl
same_bytes→eq [] (y ∷ ys) h e = absurd (omega arith)
same_bytes→eq (x ∷ xs) [] h e = absurd (omega arith)
same_bytes→eq (x ∷ xs) (y ∷ ys) h e = ground (arith, same_bytes→eq xs ys)

pub same_bytes_refl : (xs : Bytes) → same_bytes xs xs ≡ true
unfolding same_bytes
same_bytes_refl [] = refl
same_bytes_refl (x ∷ xs) = ground (arith, same_bytes_refl xs)

-- The fields that `Equal` compares.
pub record SameFields (a b : Avp) : Type 0 where
  pub code : a.code ≡ b.code
  pub vendor_specific : a.vendor_specific ≡ b.vendor_specific
  pub mandatory : a.mandatory ≡ b.mandatory
  pub vendor_id : a.vendor_id ≡ b.vendor_id
  pub length : a.length ≡ b.length
  pub padded_length : a.padded_length ≡ b.padded_length
  pub payload : a.payload ≡ b.payload

pub equal_fields→SameFields : (a b : Avp) → equal_fields a b ≡ true → SameFields a b
unfolding equal_fields
equal_fields→SameFields a b h = ground (arith, same_bytes→eq a.payload b.payload)

pub SameFields→equal_fields : (a b : Avp) → SameFields a b → equal_fields a b ≡ true
unfolding equal_fields
SameFields→equal_fields a b h = ground (arith, same_bytes_refl a.payload)

-- `Equal` of two AVPs is the conjunction of the equalities of the compared fields.
pub equal_iff : (a b : Avp) → (equal (some a) (some b) ≡ ok true) ↔ SameFields a b
unfolding equal
equal_iff a b =
    (λ e. equal_fields→SameFields a b (ground arith), λ s. ap ok (SameFields→equal_fields a b s))

-- Where `Equal` holds of two AVPs and their P flags agree, `Encode` gives the same bytes for both.
pub equal-encode :
    (a b : Avp)
    → equal (some a) (some b) ≡ ok true
    → a.protected ≡ b.protected
    → encode a ≡ encode b
unfolding encode
equal-encode a b e p =
    let s = (equal_iff a b).0 e in
    rw
      (s.code, s.vendor_specific, s.mandatory, s.vendor_id, s.length, s.padded_length, s.payload, p)

-- The fifth byte written, which holds the flags.
abbrev fifth : Outcome Bytes → ℕ
fifth (ok (_ ∷ _ ∷ _ ∷ _ ∷ f ∷ _)) = f
fifth _ = 0

fifth-wire : (a : Avp) → fifth (ok (wire a)) ≡ flags_of a.vendor_specific a.mandatory a.protected
unfolding wire put_uint32 join_24
fifth-wire a = omega (arith, flags_of-IsByte a.vendor_specific a.mandatory a.protected)

fifth-encode :
    (a : Avp)
    → a.length ≤ a.padded_length
    → fifth (encode a) ≡ flags_of a.vendor_specific a.mandatory a.protected
fifth-encode a h = rw (encode-wire a h) (fifth-wire a)

flags_of-protected : (v m : Bool) → flags_of v m false ≢ flags_of v m true
unfolding flags_of
flags_of-protected v m = ground arith

-- `Equal` does not look at the P flag: an AVP without it is equal to its protected form, whatever
-- the AVP holds, and the two encode differently.
pub equal-make_protected :
    (a : Avp)
    → a.protected ≡ false
    → a.length ≤ a.padded_length
    → (equal (some a) (some (make_protected a)) ≡ ok true) × (encode a ≢ encode (make_protected a))
unfolding make_protected
equal-make_protected a p h = (
  (equal_iff a (record a { protected = true })).1 (record {
    code = refl;
    vendor_specific = refl;
    mandatory = refl;
    vendor_id = refl;
    length = refl;
    padded_length = refl;
    payload = refl;
  }),
  λ e. flags_of-protected a.vendor_specific a.mandatory (
      ap (λ (t : Bool). flags_of a.vendor_specific a.mandatory t) (sym p)
      ∙ sym (fifth-encode a h)
      ∙ ap fifth e
      ∙ fifth-encode (record a { protected = true }) h),
)
