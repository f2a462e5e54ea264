-- ===== src/Message/Built.antt =====
-- What `NewMessage` builds, and that it is well formed.
use diameterapi.Common.{
  ℕ, ◌+◌, ◌%◌, ◌^◌, ◌<◌, ◌≡◌, refl, ap, bit_and, true, List, [], ◌∷◌, ◌++◌, map, All, All-append,
  some, none, ok, arith,
}
use diameterapi.Common.Bits.{bit_and-f0}
use diameterapi.Wire.{IsByte, IsU32, u32, low_24}
use diameterapi.Avp.Types.{Avp}
use diameterapi.Avp.RoundTrip
use diameterapi.Message.Types.{Message}
use diameterapi.Message.Build.{add_mandatory_avps, add_additional_avps, new_message}
use diameterapi.Message.RoundTrip.{total, IsWellFormed}

abbrev pub set_mandatory : Avp → Avp
set_mandatory a = record a { mandatory = true }

add_mandatory_avps_lem :
    (len : ℕ) (avps : List Avp)
    → len + total avps < 2 ^ 32
    → add_mandatory_avps len (map some avps)
      ≡ ok (len + total avps, map some (map set_mandatory avps))
unfolding add_mandatory_avps
add_mandatory_avps_lem len [] h = ground arith
add_mandatory_avps_lem len (a ∷ avps) h =
    ground (arith, add_mandatory_avps_lem (u32 (len + u32 a.padded_length)) avps)

add_additional_avps_lem :
    (len : ℕ) (avps : List Avp)
    → len + total avps < 2 ^ 32
    → add_additional_avps len (map some avps) ≡ ok (len + total avps)
unfolding add_additional_avps
add_additional_avps_lem len [] h = ground arith
add_additional_avps_lem len (a ∷ avps) h =
    ground (arith, add_additional_avps_lem (u32 (len + u32 a.padded_length)) avps)

map-append_some : (xs ys : List Avp) → map some xs ++ map some ys ≡ map some (xs ++ ys)
map-append_some [] ys = refl
map-append_some (x ∷ xs) ys = ap (◌∷◌ (some x)) (map-append_some xs ys)

total-append : (xs ys : List Avp) → total (xs ++ ys) ≡ total xs + total ys
total-append [] ys = omega arith
total-append (x ∷ xs) ys = omega (arith, total-append xs ys)

total-set_mandatory : (xs : List Avp) → total (map set_mandatory xs) ≡ total xs
total-set_mandatory [] = refl
total-set_mandatory (x ∷ xs) = omega (arith, total-set_mandatory xs)

All-set_mandatory :
    (xs : List Avp)
    → All RoundTrip.IsWellFormed xs
    → All RoundTrip.IsWellFormed (map set_mandatory xs)
All-set_mandatory [] h = tt
All-set_mandatory (x ∷ xs) (w, h) = (
  record {
    code_fits = w.code_fits;
    vendor_fits = w.vendor_fits;
    vendor_absent = w.vendor_absent;
    length_exact = w.length_exact;
    length_fits = w.length_fits;
    padded_exact = w.padded_exact;
  },
  All-set_mandatory xs h,
)

-- The message that `NewMessage` is meant to make.
abbrev pub built : ℕ → ℕ → ℕ → ℕ → ℕ → List Avp → List Avp → Message
built flags code app_id hop_by_hop_id end_to_end_id mandatory additional = record {
  version = 1;
  length = 20 + total mandatory + total additional;
  flags = bit_and flags 0xf0;
  code = code % 2 ^ 24;
  app_id = app_id;
  hop_by_hop_id = hop_by_hop_id;
  end_to_end_id = end_to_end_id;
  avps = map some (map set_mandatory mandatory ++ additional);
  extended_attributes = none;
  avp_map = none;
}

pub new_message-built :
    (flags code app_id hbh ete : ℕ) (mandatory additional : List Avp)
    → 20 + total mandatory + total additional < 2 ^ 24
    → new_message flags code app_id hbh ete (map some mandatory) (map some additional)
      ≡ ok (built flags code app_id hbh ete mandatory additional)
unfolding new_message low_24
new_message-built flags code app_id hbh ete mandatory additional h = rw (
  add_mandatory_avps_lem 20 mandatory (omega arith),
  add_additional_avps_lem (20 + total mandatory) additional (omega arith),
  map-append_some (map set_mandatory mandatory) additional,
)

pub built-IsWellFormed :
    (flags code app_id hbh ete : ℕ) (mandatory additional : List Avp)
    → IsByte flags
    → IsU32 app_id
    → IsU32 hbh
    → IsU32 ete
    → All RoundTrip.IsWellFormed mandatory
    → All RoundTrip.IsWellFormed additional
    → 20 + total mandatory + total additional < 2 ^ 24
    → IsWellFormed
        (built flags code app_id hbh ete mandatory additional)
        (map set_mandatory mandatory ++ additional)
built-IsWellFormed flags code app_id hbh ete mandatory additional hf ha hh he wm wa h = record {
  version_fits = omega arith;
  flags_fit = rw (bit_and-f0 flags hf) (omega arith);
  code_fits = omega arith;
  app_id_fits = ha;
  hop_by_hop_id_fits = hh;
  end_to_end_id_fits = he;
  holds = refl;
  avps_are =
      All-append RoundTrip.IsWellFormed (map set_mandatory mandatory) additional
        (All-set_mandatory mandatory wm) wa;
  length_exact =
      omega (
        arith,
        total-append (map set_mandatory mandatory) additional,
        total-set_mandatory mandatory,
      );
  length_fits = h;
}
