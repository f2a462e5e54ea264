-- ===== src/Avp/Lookup.antt =====
-- avp.go: `GenerateMapOfAvpsByVendorAndCode`. A Go map is an association list with one entry for
-- each key, in the order in which the keys were first set.
use diameterapi.Common.{
  ℕ, ◌≡◌, refl, sym, ap, ◌∙◌, Bool, true, ◌&&◌, ◌==◌, if◌then◌else◌, Bool-cases, inl, inr, List, [],
  ◌∷◌, ◌++◌, map, Option, some, none, Outcome, ok, panics, ◌>>=◌, arith, append_assoc, append-nil,
}
use diameterapi.Avp.Types.{Avp}

-- `AvpVendorIdAndCode`, the key of the map
pub record AvpVendorIdAndCode : Type 0 where
  pub vendor_id : ℕ
  pub code : ℕ

unfoldable pub same_key : AvpVendorIdAndCode → AvpVendorIdAndCode → Bool
same_key k j = k.vendor_id == j.vendor_id && k.code == j.code

abbrev pub AvpMap : Type 0
AvpMap = List (AvpVendorIdAndCode × List Avp)

-- `m[v]`; a key that is missing gives nil, which is an empty slice.
unfoldable pub lookup : AvpVendorIdAndCode → AvpMap → List Avp
unfolding same_key
lookup k [] = []
lookup k ((j, avps) ∷ m) = if same_key j k then avps else lookup k m

-- `m[v] = avps`
unfoldable pub insert : AvpVendorIdAndCode → List Avp → AvpMap → AvpMap
unfolding same_key
insert k avps [] = (k, avps) ∷ []
insert k avps ((j, old) ∷ m) = if same_key j k then (j, avps) ∷ m else (j, old) ∷ insert k avps m

abbrev pub key_of : Avp → AvpVendorIdAndCode
key_of a = record { vendor_id = a.vendor_id; code = a.code }

-- One round of the loop: a slice of one AVP, or the existing one with the AVP at its end.
unfoldable pub add_avp : AvpMap → Avp → AvpMap
add_avp m a = insert (key_of a) (lookup (key_of a) m ++ (a ∷ [])) m

-- The loop; a nil AVP is dereferenced.
unfoldable pub add_avps : AvpMap → List (Option Avp) → Outcome AvpMap
add_avps m [] = ok m
add_avps m (none ∷ avps) = panics
add_avps m (some a ∷ avps) = add_avps (add_avp m a) avps

unfoldable pub generate_map : List (Option Avp) → Outcome AvpMap
unfolding add_avps
generate_map avps = add_avps [] avps

-- The AVPs of a list with the given vendor id and code, in order.
unfoldable pub matching : AvpVendorIdAndCode → List Avp → List Avp
unfolding same_key
matching k [] = []
matching k (a ∷ avps) = if same_key (key_of a) k then a ∷ matching k avps else matching k avps

pub lookup-insert :
    (k j : AvpVendorIdAndCode) (v : List Avp) (m : AvpMap)
    → lookup j (insert k v m) ≡ (if same_key k j then v else lookup j m)
unfolding lookup insert
lookup-insert k j v [] = refl
lookup-insert k j v ((i, w) ∷ m) = ground (arith, lookup-insert k j v m)

matching-append :
    (k : AvpVendorIdAndCode) (xs ys : List Avp)
    → matching k (xs ++ ys) ≡ matching k xs ++ matching k ys
unfolding matching
matching-append k [] ys = refl
matching-append k (x ∷ xs) ys = ground (arith, matching-append k xs ys)

same_key→eq : (k j : AvpVendorIdAndCode) → same_key k j ≡ true → k ≡ j
unfolding same_key
same_key→eq k j h = ground arith

lookup-add_avp :
    (k : AvpVendorIdAndCode) (m : AvpMap) (a : Avp)
    → lookup k (add_avp m a) ≡ lookup k m ++ matching k (a ∷ [])
unfolding add_avp matching
lookup-add_avp k m a =
    rw (lookup-insert (key_of a) k (lookup (key_of a) m ++ (a ∷ [])) m)
      (elim (Bool-cases (same_key (key_of a) k)) [
        | inl e ↦ rw (e, same_key→eq (key_of a) k e)
        | inr e ↦ rw (e, append-nil)
      ])

-- The map of a list of AVPs exists, and each key holds exactly the AVPs that match it.
add_avps_total :
    (m : AvpMap) (avps : List Avp)
    → (m' : AvpMap) × (add_avps m (map some avps) ≡ ok m')
      × ((k : AvpVendorIdAndCode) → lookup k m' ≡ lookup k m ++ matching k avps)
unfolding add_avps
add_avps_total m [] = (m, refl, λ k. unfold matching in sym (append-nil (lookup k m)))
add_avps_total m (a ∷ avps) =
    let (m', e, l) = add_avps_total (add_avp m a) avps in
    (
      m',
      e,
      λ k.
          l k
          ∙ ap (λ (t : List Avp). t ++ matching k avps) (lookup-add_avp k m a)
          ∙ append_assoc (lookup k m) (matching k (a ∷ [])) (matching k avps)
          ∙ ap (λ (t : List Avp). lookup k m ++ t) (sym (matching-append k (a ∷ []) avps)),
    )

pub generate_map_total :
    (avps : List Avp)
    → (m : AvpMap) × (generate_map (map some avps) ≡ ok m)
      × ((k : AvpVendorIdAndCode) → lookup k m ≡ matching k avps)
unfolding generate_map
generate_map_total avps =
    let (m, e, l) = add_avps_total [] avps in (m, e, λ k. l k ∙ (unfold lookup in refl))

-- In the map of a list of AVPs each key holds exactly the AVPs with its vendor id and code, in the
-- order of the list.
pub lookup-generate_map :
    (k : AvpVendorIdAndCode) (avps : List Avp)
    → (generate_map (map some avps) >>= λ m. ok (lookup k m)) ≡ ok (matching k avps)
lookup-generate_map k avps = let (m, e, l) = generate_map_total avps in rw (e, l k)
