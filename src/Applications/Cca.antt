-- ===== src/Applications/Cca.antt =====
-- The answer that `generateCCAFromCCR` makes of a request.
use diameterapi.Common.{
  ℕ, ◌≡◌, refl, ◌∙◌, ap, subst, ◌⊎◌, inl, inr, Bool, true, false, not, List, [], ◌∷◌, Option,
  Option-cases, Error, Outcome, ok, err, panics, stuck, >>=-eq-ok, ok_injective, guard, must,
  missing_avp_in_ccr, expected_ccr, arith,
}
use diameterapi.Wire.{Bytes}
use diameterapi.Avp.Types.{Avp, uint32, string}
use diameterapi.Avp.Lookup.{AvpMap, generate_map}
use diameterapi.Message.Types.{Message, is_request, is_answer}
use diameterapi.Message.Build.{become_an_answer}
use diameterapi.Message.Query.{
  first_avp_matching, with_map, top_level_avps_matching, does_not_have_a_top_level_avp_matching,
}
use diameterapi.Message.Answers.{become_an_answer_lem}
use diameterapi.Typed.Values.{Floats}
use diameterapi.Dictionary.Types.{Dictionary}
use diameterapi.Dictionary.Queries.{
  message_errorable, found_message, encode_flags, dictionary_avp, dictionary_message,
}
use diameterapi.Common.Dict.{get, ascii, bytes_key}
use diameterapi.Dictionary.Laws.{new_message-IsMade}
use diameterapi.Applications.Sessions.{no_flags}
use diameterapi.Applications.Server.{has_each, new_cca, generate_cca_from_ccr}

-- A message that differs from another in its cache alone
abbrev SameButCache : Message → Message → Type 0
SameButCache m m' = m' ≡ record m { avp_map = m'.avp_map }

with_map-SameButCache :
    (m : Message) (x : Message × AvpMap) → with_map m ≡ ok x → SameButCache m x.0
unfolding with_map
with_map-SameButCache m x e = elim (Option-cases m.avp_map) [
  | inl n ↦
      let (c, _, q) = >>=-eq-ok (generate_map m.avps) _ (rw n at e) in
      subst (λ (y : Message × AvpMap). SameButCache m y.0) (ok_injective q) refl
  | inr (c, n) ↦
      subst (λ (y : Message × AvpMap). SameButCache m y.0) (ok_injective (rw n at e)) refl
]

does_not_have-SameButCache :
    (m : Message) (code : ℕ) (x : Message × Bool)
    → does_not_have_a_top_level_avp_matching m 0 code ≡ ok x
    → SameButCache m x.0
unfolding does_not_have_a_top_level_avp_matching top_level_avps_matching
does_not_have-SameButCache m code x e =
    let (y, p, q) = >>=-eq-ok (top_level_avps_matching m 0 code) _ e in
    let (z, r, s) = >>=-eq-ok (with_map m) _ p in
    subst (λ (t : Message × Bool). SameButCache m t.0) (ok_injective q)
      (subst (λ (t : Message × List Avp). SameButCache m t.0) (ok_injective s)
        (with_map-SameButCache m z r))

has_each-SameButCache :
    (codes : List ℕ) (m m' : Message) → has_each codes m ≡ ok m' → SameButCache m m'
unfolding has_each
has_each-SameButCache [] m m' e = subst (SameButCache m) (ok_injective e) refl
has_each-SameButCache (code ∷ codes) m m' e =
    let (x, p, q) = >>=-eq-ok (does_not_have_a_top_level_avp_matching m 0 code) _ e in
    let (_, _, r) = >>=-eq-ok (guard (not x.1) missing_avp_in_ccr) _ q in
    has_each-SameButCache codes x.0 m' r
    ∙ ap (λ (t : Message). record t { avp_map = m'.avp_map })
        (does_not_have-SameButCache m code x p)

-- The answer to a request, as far as the header says
abbrev pub Answers : Message → Message → Type 0
Answers ccr cca =
    (is_answer cca ≡ true)
    × (cca.hop_by_hop_id ≡ ccr.hop_by_hop_id)
    × (cca.end_to_end_id ≡ ccr.end_to_end_id)
    × (cca.app_id ≡ ccr.app_id)
    × (cca.code ≡ ccr.code)

must-eq-ok : {A : Type 0} (x : Outcome A) {a : A} → must x ≡ ok a → x ≡ ok a
must-eq-ok (ok x) e = e
must-eq-ok (err x) e = cc
must-eq-ok panics e = cc
must-eq-ok stuck e = cc

-- Without flags a message of the dictionary has the request flag or none.
dictionary_message-flags :
    (d : Dictionary) (name : Bytes) (xs ys : List (Option Avp)) (m : Message)
    → dictionary_message d name no_flags xs ys ≡ ok m
    → (m.flags ≡ 0x80) ⊎ (m.flags ≡ 0)
unfolding dictionary_message message_errorable encode_flags
dictionary_message-flags d name xs ys m e =
    let made = must-eq-ok (message_errorable d name no_flags xs ys) e in
    let (descriptor, _, p) =
      >>=-eq-ok (found_message (get name d.message_descriptor_by_name_or_abbreviation)) _ made in
    let (f, _, _) =
      new_message-IsMade (encode_flags no_flags descriptor.is_request_type) descriptor xs ys m p in
    ground (arith, f)

become_an_answer-Answers :
    (m ccr ccr' : Message)
    → (m.flags ≡ 0x80) ⊎ (m.flags ≡ 0)
    → SameButCache ccr ccr'
    → Answers ccr (become_an_answer m ccr')
become_an_answer-Answers m ccr ccr' f same =
    let (a, _, _, _, hop, end, app, code, _) = become_an_answer_lem m ccr' (grind (arith, f)) in
    (
      a,
      hop ∙ ap (λ (t : Message). t.hop_by_hop_id) same,
      end ∙ ap (λ (t : Message). t.end_to_end_id) same,
      app ∙ ap (λ (t : Message). t.app_id) same,
      code ∙ ap (λ (t : Message). t.code) same,
    )

guard-eq-ok : (b : Bool) (cause : Error) {x : Unit {0}} → guard b cause ≡ ok x → b ≡ true
guard-eq-ok true cause e = refl
guard-eq-ok false cause e = cc

module _ (floats : Floats) where
  new_cca-flags :
      (ccr cca : Message) (host realm : Bytes) (d : Dictionary)
      → new_cca floats ccr host realm d ≡ ok cca
      → (cca.flags ≡ 0x80) ⊎ (cca.flags ≡ 0)
  unfolding new_cca
  new_cca-flags ccr cca host realm d e =
      let (x, _, e₁) = >>=-eq-ok (first_avp_matching ccr 0 263) _ e in
      let (a, _, e₂) =
        >>=-eq-ok (dictionary_avp floats d (ascii "Result-Code") (uint32 2000)) _ e₁ in
      let (b, _, e₃) =
        >>=-eq-ok (dictionary_avp floats d (ascii "Origin-Host") (string host)) _ e₂ in
      let (c, _, e₄) =
        >>=-eq-ok (dictionary_avp floats d (ascii "Origin-Realm") (string realm)) _ e₃ in
      let (y, _, e₅) = >>=-eq-ok (first_avp_matching x.0 0 258) _ e₄ in
      let (z, _, e₆) = >>=-eq-ok (first_avp_matching y.0 0 416) _ e₅ in
      dictionary_message-flags d _ _ _ cca e₆

  pub generate_cca_from_ccr-Answers :
      (ccr cca : Message) (host realm : Bytes) (d : Dictionary)
      → generate_cca_from_ccr floats ccr host realm d ≡ ok cca
      → (is_request ccr ≡ true) × Answers ccr cca
  unfolding generate_cca_from_ccr is_answer
  generate_cca_from_ccr-Answers ccr cca host realm d e =
      let (_, g, e₁) = >>=-eq-ok (guard (not (is_answer ccr)) _) _ e in
      let (ccr', h, e₂) = >>=-eq-ok (has_each (263 ∷ 258 ∷ 416 ∷ 415 ∷ []) ccr) _ e₁ in
      let (m, n, e₃) = >>=-eq-ok (new_cca floats ccr' host realm d) _ e₂ in
      (
        ground (arith, guard-eq-ok (not (is_answer ccr)) expected_ccr g),
        subst (Answers ccr) (ok_injective e₃) (
            become_an_answer-Answers m ccr ccr' (new_cca-flags ccr' m host realm d n)
              (has_each-SameButCache (263 ∷ 258 ∷ 416 ∷ 415 ∷ []) ccr ccr' h)),
      )
