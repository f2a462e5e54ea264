-- ===== src/Dictionary/Entries.antt =====
-- What `fromYamlForm` puts into its maps, as lists of entries; a later entry hides an earlier one.
use diameterapi.Common.{
  ◌≡◌, ◌≢◌, refl, sym, ap, ◌∙◌, ◌⊎◌, inl, inr, if◌then◌else◌, List, [], ◌∷◌, Option, none, some,
  Option-cases, All, Outcome, ok, err, ◌>>=◌, ok_injective, >>=-eq-ok, subst, arith,
  yaml_type_invalid,
}
use diameterapi.Common.Dict.{Key, Dict, get, put, get-put, bytes_key}
use diameterapi.Wire.{Bytes}
use diameterapi.Avp.Types.{AvpDataType}
use diameterapi.Dictionary.Types.{
  DictionaryYamlAvpType, DictionaryYamlMessageType, DictionaryYaml, DictionaryMessageDescriptor,
  DictionaryAvpDescriptor, FullyQualifiedCode, code_key, Dictionary,
}
use diameterapi.Dictionary.Build.{
  type_of_string, avp_descriptor, convert_yaml_avp_to_dictionary_avp_descriptor, avp_code_of,
  message_code_of, add_avp_type, add_avp_types, request_name, answer_name, request_descriptor,
  answer_descriptor, add_message_type, add_message_types, empty_dictionary, from_yaml_form,
}

module _ {ℓ} {V : Type ℓ} where
  abbrev pub or_else : Option V → Option V → Option V
  or_else (some v) w = some v
  or_else none w = w

module _ {ℓ κ} {K : Type ℓ} {V : Type κ} ⦃key : Key K⦄ where
  -- The value of the last entry with the key
  unfoldable pub last_value : K → List (K × V) → Option V
  last_value k [] = none
  last_value k ((j, v) ∷ es) = or_else (last_value k es) (if key.test j k then some v else none)

  -- The entries are put into the map one after the other.
  unfoldable pub put_all : List (K × V) → Dict K V → Dict K V
  put_all [] m = m
  put_all ((k, v) ∷ es) m = put_all es (put k v m)

  pub get-put_all :
      (k : K) (es : List (K × V)) (m : Dict K V)
      → get k (put_all es m) ≡ or_else (last_value k es) (get k m)
  unfolding put_all last_value
  get-put_all k [] m = refl
  get-put_all k ((j, v) ∷ es) m = ground (arith, get-put_all k es (put j v m), get-put j k v m)

  pub get-put_all_nil : (k : K) (es : List (K × V)) → get k (put_all es []) ≡ last_value k es
  unfolding get
  get-put_all_nil k es = ground (arith, get-put_all k es [])

-- The entries of the AVP types, under the keys that `at` gives. A type string that is not recognized
-- has none.
module _ {K : Type 0} (at : DictionaryYamlAvpType → K) where
  abbrev with_entry :
      DictionaryYamlAvpType
      → Option AvpDataType
      → List (K × DictionaryAvpDescriptor)
      → List (K × DictionaryAvpDescriptor)
  with_entry t none rest = rest
  with_entry t (some data_type) rest = (at t, avp_descriptor t data_type) ∷ rest

  unfoldable pub avp_entries : List DictionaryYamlAvpType → List (K × DictionaryAvpDescriptor)
  avp_entries [] = []
  avp_entries (t ∷ ts) = with_entry t (type_of_string t.type_string) (avp_entries ts)

-- The entries of the message types: under both names and both abbreviations, and under the code.
unfoldable pub name_entries :
    List DictionaryYamlMessageType → List (Bytes × DictionaryMessageDescriptor)
name_entries [] = []
name_entries (t ∷ ts) =
    (request_name t, request_descriptor t)
    ∷ (t.abbreviations.request, request_descriptor t)
    ∷ (answer_name t, answer_descriptor t)
    ∷ (t.abbreviations.answer, answer_descriptor t)
    ∷ name_entries ts

unfoldable pub code_entries :
    (DictionaryYamlMessageType → DictionaryMessageDescriptor)
    → List DictionaryYamlMessageType
    → List (FullyQualifiedCode × DictionaryMessageDescriptor)
code_entries describe [] = []
code_entries describe (t ∷ ts) = (message_code_of t, describe t) ∷ code_entries describe ts

abbrev pub name_of : DictionaryYamlAvpType → Bytes
name_of t = t.name

-- What the dictionary of a YAML form holds: under each key what the last entry of the form says.
pub record IsDictionaryOf (y : DictionaryYaml) (d : Dictionary) : Type 0 where
  pub messages_by_name :
      (n : Bytes)
      → get n d.message_descriptor_by_name_or_abbreviation
        ≡ last_value n (name_entries y.message_types)
  pub requests_by_code :
      (k : FullyQualifiedCode)
      → get k d.request_message_descriptor_by_code
        ≡ last_value k (code_entries request_descriptor y.message_types)
  pub answers_by_code :
      (k : FullyQualifiedCode)
      → get k d.answer_message_descriptor_by_code
        ≡ last_value k (code_entries answer_descriptor y.message_types)
  pub avps_by_name :
      (n : Bytes) → get n d.avp_descriptor_by_name ≡ last_value n (avp_entries name_of y.avp_types)
  pub avps_by_code :
      (k : FullyQualifiedCode)
      → get k d.avp_descriptor_by_fully_qualified_code
        ≡ last_value k (avp_entries avp_code_of y.avp_types)

-- The maps behind the second loop
message_maps :
    (ts : List DictionaryYamlMessageType) (d : Dictionary)
    → add_message_types ts d ≡ record d {
      message_descriptor_by_name_or_abbreviation =
          put_all (name_entries ts) d.message_descriptor_by_name_or_abbreviation;
      request_message_descriptor_by_code =
          put_all (code_entries request_descriptor ts) d.request_message_descriptor_by_code;
      answer_message_descriptor_by_code =
          put_all (code_entries answer_descriptor ts) d.answer_message_descriptor_by_code;
    }
unfolding add_message_types add_message_type put_all name_entries code_entries
message_maps [] d = refl
message_maps (t ∷ ts) d = message_maps ts (add_message_type t d)

-- A type string that is in the map of types
abbrev pub IsRecognized : DictionaryYamlAvpType → Type 0
IsRecognized t = type_of_string t.type_string ≢ none

-- The maps behind the first loop, if it ends.
abbrev with_avps : List DictionaryYamlAvpType → Dictionary → Dictionary
with_avps ts d = record d {
  avp_descriptor_by_name = put_all (avp_entries name_of ts) d.avp_descriptor_by_name;
  avp_descriptor_by_fully_qualified_code =
      put_all (avp_entries avp_code_of ts) d.avp_descriptor_by_fully_qualified_code;
}

avp_maps :
    (ts : List DictionaryYamlAvpType) (d : Dictionary)
    → ((add_avp_types ts d ≡ ok (with_avps ts d)) × All IsRecognized ts)
      ⊎ ((add_avp_types ts d ≡ err yaml_type_invalid) × ¬ All IsRecognized ts)
unfolding add_avp_types put_all avp_entries convert_yaml_avp_to_dictionary_avp_descriptor
    add_avp_type
avp_maps [] d = inl (refl, tt)
avp_maps (t ∷ ts) d = elim (Option-cases (type_of_string t.type_string)) [
  | inl e ↦ inr (rw e refl, λ (h, _). h e)
  | inr (data_type, e) ↦ elim (avp_maps ts (add_avp_type t (avp_descriptor t data_type) d)) [
    | inl (p, h) ↦ inl (rw e p, (λ k. cc, h))
    | inr (p, h) ↦ inr (rw e p, λ (_, k). h k)
  ]
]

built-IsDictionaryOf :
    (y : DictionaryYaml)
    → IsDictionaryOf y (add_message_types y.message_types (with_avps y.avp_types empty_dictionary))
built-IsDictionaryOf y =
    subst (IsDictionaryOf y)
      (sym (message_maps y.message_types (with_avps y.avp_types empty_dictionary)))
      (record {
        messages_by_name = λ n. get-put_all_nil n (name_entries y.message_types);
        requests_by_code = λ k. get-put_all_nil k (code_entries request_descriptor y.message_types);
        answers_by_code = λ k. get-put_all_nil k (code_entries answer_descriptor y.message_types);
        avps_by_name = λ n. get-put_all_nil n (avp_entries name_of y.avp_types);
        avps_by_code = λ k. get-put_all_nil k (avp_entries avp_code_of y.avp_types);
      })

-- A dictionary that `fromYamlForm` returns holds, under each name, abbreviation and code of messages
-- and under each name and code of AVPs, what the last entry of the YAML form with that key says, and
-- nothing under a key without an entry.
pub from_yaml_form-IsDictionaryOf :
    (y : DictionaryYaml) (d : Dictionary) → from_yaml_form y ≡ ok d → IsDictionaryOf y d
unfolding from_yaml_form
from_yaml_form-IsDictionaryOf y d e =
    let (d', p, q) = >>=-eq-ok (add_avp_types y.avp_types empty_dictionary) _ e in
    elim (avp_maps y.avp_types empty_dictionary) [
      | inl (r, _) ↦ subst (IsDictionaryOf y) (ok_injective q) (
          subst (λ (x : Dictionary). IsDictionaryOf y (add_message_types y.message_types x))
            (ok_injective (sym r ∙ p)) (built-IsDictionaryOf y))
      | inr (r, _) ↦ cc
    ]

-- `fromYamlForm` returns a dictionary exactly if every type string of the form is recognized, and an
-- error otherwise.
pub from_yaml_form_lem :
    (y : DictionaryYaml)
    → (((d : Dictionary) × (from_yaml_form y ≡ ok d)) × All IsRecognized y.avp_types)
      ⊎ ((from_yaml_form y ≡ err yaml_type_invalid) × ¬ All IsRecognized y.avp_types)
unfolding from_yaml_form
from_yaml_form_lem y = elim (avp_maps y.avp_types empty_dictionary) [
  | inl (r, h) ↦ inl (
    (
      add_message_types y.message_types (with_avps y.avp_types empty_dictionary),
      ap (λ (t : Outcome Dictionary). t >>= λ d. ok (add_message_types y.message_types d)) r,
    ),
    h,
  )
  | inr (r, h) ↦
      inr
        (ap (λ (t : Outcome Dictionary). t >>= λ d. ok (add_message_types y.message_types d)) r, h)
]
