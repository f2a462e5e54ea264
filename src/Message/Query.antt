-- ===== src/Message/Query.antt =====
-- message.go: the lookups of top-level AVPs, through the cached map.
use diameterapi.Common.{
  ℕ, ◌==◌, ltb, ◌≡◌, Bool, List, [], ◌∷◌, length, map, Option, none, some, Outcome, ok, ◌>>=◌,
  Option-cases, inl, inr, subst, arith,
}
use diameterapi.Avp.Types.{Avp}
use diameterapi.Avp.Lookup.{AvpVendorIdAndCode, AvpMap, generate_map, matching, generate_map_total}
use diameterapi.Avp.Lookup
use diameterapi.Message.Types.{Message}

-- `if m.mapOfAvpsByVendorAndCode == nil { … }`: the message with its cache filled, and the map.
unfoldable pub with_map : Message → Outcome (Message × AvpMap)
with_map m = elim m.avp_map [
  | none ↦ do avp_map ← generate_map m.avps; ok (record m { avp_map = some avp_map }, avp_map)
  | some avp_map ↦ ok (m, avp_map)
]

unfoldable pub top_level_avps_matching : Message → ℕ → ℕ → Outcome (Message × List Avp)
top_level_avps_matching m vendor_id code = do
  (m', avp_map) ← with_map m
  ok (m', Lookup.lookup (record { vendor_id = vendor_id; code = code }) avp_map)

abbrev pub head_avp : List Avp → Option Avp
head_avp [] = none
head_avp (a ∷ _) = some a

unfoldable pub first_avp_matching : Message → ℕ → ℕ → Outcome (Message × Option Avp)
first_avp_matching m vendor_id code = do
  (m', avp_map) ← with_map m
  ok (m', head_avp (Lookup.lookup (record { vendor_id = vendor_id; code = code }) avp_map))

unfoldable pub number_of_top_level_avps_matching : Message → ℕ → ℕ → Outcome (Message × ℕ)
number_of_top_level_avps_matching m vendor_id code = do
  (m', avps) ← top_level_avps_matching m vendor_id code
  ok (m', length avps)

unfoldable pub has_a_top_level_avp_matching : Message → ℕ → ℕ → Outcome (Message × Bool)
has_a_top_level_avp_matching m vendor_id code = do
  (m', avps) ← top_level_avps_matching m vendor_id code
  ok (m', ltb 0 (length avps))

unfoldable pub does_not_have_a_top_level_avp_matching : Message → ℕ → ℕ → Outcome (Message × Bool)
does_not_have_a_top_level_avp_matching m vendor_id code = do
  (m', avps) ← top_level_avps_matching m vendor_id code
  ok (m', length avps == 0)

-- `MapOfAvpsByCode` does not use the cache.
unfoldable pub map_of_avps_by_code : Message → Outcome AvpMap
map_of_avps_by_code m = generate_map m.avps

-- The AVPs of a message are `avps`, none of them nil, and its cache is empty or the map of them.
pub record IsCoherent (m : Message) (avps : List Avp) : Type 0 where
  pub holds : m.avps ≡ map some avps
  pub cached : (c : AvpMap) → m.avp_map ≡ some c → generate_map (map some avps) ≡ ok c

lookup_cached :
    (c : AvpMap) (avps : List Avp) (k : AvpVendorIdAndCode)
    → generate_map (map some avps) ≡ ok c
    → Lookup.lookup k c ≡ matching k avps
lookup_cached c avps k g =
    let (d, g', l) = generate_map_total avps in
    let same : d ≡ c = cc in subst (λ (t : AvpMap). Lookup.lookup k t ≡ matching k avps) same (l k)

-- The cache is filled with the map of the AVPs, and nothing else changes.
with_map-IsCoherent :
    (m : Message) (avps : List Avp)
    → IsCoherent m avps
    → (c : AvpMap) × (generate_map (map some avps) ≡ ok c)
      × (with_map m ≡ ok (record m { avp_map = some c }, c))
unfolding with_map
with_map-IsCoherent m avps h = elim (Option-cases m.avp_map) [
  | inl e ↦ let (c, g, _) = generate_map_total avps in (c, g, ground (arith, e, h.holds, g))
  | inr (c, e) ↦ (c, h.cached c e, ground (arith, e))
]

with_map-keeps :
    (m : Message) (avps : List Avp) (c : AvpMap)
    → IsCoherent m avps
    → generate_map (map some avps) ≡ ok c
    → IsCoherent (record m { avp_map = some c }) avps
with_map-keeps m avps c h g = record { holds = h.holds; cached = λ d e. cc }

-- On a message without nil AVPs whose cache is empty or up to date, `TopLevelAvpsMatching` returns
-- the AVPs with the given vendor id and code in the order of the message, and the message it leaves
-- has the same AVPs and a cache that is up to date.
pub top_level_avps_matching_lem :
    (m : Message) (avps : List Avp) (vendor_id code : ℕ)
    → IsCoherent m avps
    → (m' : Message) × (top_level_avps_matching m vendor_id code
        ≡ ok (m', matching (record { vendor_id = vendor_id; code = code }) avps))
      × IsCoherent m' avps
unfolding top_level_avps_matching
top_level_avps_matching_lem m avps vendor_id code h =
    let (c, g, w) = with_map-IsCoherent m avps h in
    (record m { avp_map = some c }, rw (w, lookup_cached c avps _ g), with_map-keeps m avps c h g)

-- On a message without nil AVPs whose cache is empty or up to date, `FirstAvpMatching` returns the
-- first of the AVPs with the given vendor id and code, and nil if there is none, and the message it
-- leaves has the same AVPs and a cache that is up to date.
pub first_avp_matching_lem :
    (m : Message) (avps : List Avp) (vendor_id code : ℕ)
    → IsCoherent m avps
    → (m' : Message) × (first_avp_matching m vendor_id code
        ≡ ok (m', head_avp (matching (record { vendor_id = vendor_id; code = code }) avps)))
      × IsCoherent m' avps
unfolding first_avp_matching
first_avp_matching_lem m avps vendor_id code h =
    let (c, g, w) = with_map-IsCoherent m avps h in
    (record m { avp_map = some c }, rw (w, lookup_cached c avps _ g), with_map-keeps m avps c h g)
