-- ===== src/Dictionary/Naming.antt =====
-- A message that is made by a name of a dictionary is called by that name again.
use diameterapi.Common.{
  ◌^◌, ◌<◌, ◌≡◌, refl, sym, ap, ◌∙◌, ◌⊎◌, inl, inr, Bool, true, false, if◌then◌else◌, List, [], ◌∷◌,
  Option, none, some, All, ok, arith,
}
use diameterapi.Common.Dict.{bytes_key, equal_bytes}
use diameterapi.Wire.{Bytes, low_24}
use diameterapi.Avp.Types.{Avp}
use diameterapi.Message.Types.{Message, is_request}
use diameterapi.Dictionary.Types.{
  DictionaryYaml, DictionaryYamlMessageType, Dictionary, DictionaryMessageDescriptor, same_code,
  same_code_iff, code_key,
}
use diameterapi.Dictionary.Build.{
  message_code_of, request_name, answer_name, request_descriptor, answer_descriptor, from_yaml_form,
}
use diameterapi.Dictionary.Entries.{
  or_else, last_value, name_entries, code_entries, IsDictionaryOf, from_yaml_form-IsDictionaryOf,
}
use diameterapi.Dictionary.Queries.{
  message_code, descriptor_of_message, message_code_as_a_string, MessageFlags, message_errorable,
}
use diameterapi.Dictionary.Laws.{message_errorable_lem}

-- No two message types of the list share application and code.
abbrev pub AreDistinct : List DictionaryYamlMessageType → Type 0
AreDistinct [] = Unit {0}
AreDistinct (t ∷ ts) =
    All
      (λ (u : DictionaryYamlMessageType). same_code (message_code_of u) (message_code_of t) ≡ false)
      ts
    × AreDistinct ts

-- The code is one of the 24 bits of a message header.
abbrev pub HasShortCode : DictionaryYamlMessageType → Type 0
HasShortCode t = t.code < 2 ^ 24

-- A descriptor of one of the message types, whose code finds it.
record IsFound (ts : List DictionaryYamlMessageType) (v : DictionaryMessageDescriptor)
    : Type 0 where
  of : DictionaryYamlMessageType
  short : HasShortCode of
  kind : (v ≡ request_descriptor of) ⊎ (v ≡ answer_descriptor of)
  by_code :
      (describe : DictionaryYamlMessageType → DictionaryMessageDescriptor)
      → last_value (message_code_of of) (code_entries describe ts) ≡ some (describe of)

absent_code :
    (describe : DictionaryYamlMessageType → DictionaryMessageDescriptor)
    (t : DictionaryYamlMessageType) (ts : List DictionaryYamlMessageType)
    → All
        (λ (u : DictionaryYamlMessageType).
          same_code (message_code_of u) (message_code_of t) ≡ false)
        ts
    → last_value (message_code_of t) (code_entries describe ts) ≡ none
unfolding last_value code_entries code_key
absent_code describe t [] h = refl
absent_code describe t (u ∷ us) (p, h) = rw (absent_code describe t us h, p) refl

own_code :
    (describe : DictionaryYamlMessageType → DictionaryMessageDescriptor)
    (t : DictionaryYamlMessageType) (ts : List DictionaryYamlMessageType)
    → All
        (λ (u : DictionaryYamlMessageType).
          same_code (message_code_of u) (message_code_of t) ≡ false)
        ts
    → last_value (message_code_of t) (code_entries describe (t ∷ ts)) ≡ some (describe t)
unfolding last_value code_entries code_key
own_code describe t ts h =
    rw (absent_code describe t ts h, (same_code_iff (message_code_of t) (message_code_of t)).1 refl)
      refl

later-IsFound :
    (t : DictionaryYamlMessageType) (ts : List DictionaryYamlMessageType)
    (v : DictionaryMessageDescriptor)
    → IsFound ts v
    → IsFound (t ∷ ts) v
unfolding last_value code_entries
later-IsFound t ts v f = record {
  of = f.of;
  short = f.short;
  kind = f.kind;
  by_code = λ describe. rw (f.by_code describe) refl;
}

-- The last of the four entries of one message type
last_of_four :
    {V : Type 0} (x : Option V) (b c b' c' : Bool) (r a v : V)
    → or_else
        (or_else
          (or_else (or_else x (if c' then some a else none)) (if c then some a else none))
          (if b' then some r else none))
        (if b then some r else none)
      ≡ some v
    → (x ≡ some v) ⊎ ((x ≡ none) × ((v ≡ r) ⊎ (v ≡ a)))
last_of_four (some x) b c b' c' r a v e = inl e
last_of_four none b c b' true r a v e = inr (refl, inr (cc))
last_of_four none b true b' false r a v e = inr (refl, inr (cc))
last_of_four none b false true false r a v e = inr (refl, inl (cc))
last_of_four none true false false false r a v e = inr (refl, inl (cc))
last_of_four none false false false false r a v e = cc

named-IsFound :
    (ts : List DictionaryYamlMessageType) (n : Bytes) (v : DictionaryMessageDescriptor)
    → AreDistinct ts
    → All HasShortCode ts
    → last_value n (name_entries ts) ≡ some v
    → IsFound ts v
unfolding name_entries last_value bytes_key
named-IsFound [] n v d s e = cc
named-IsFound (t ∷ ts) n v (p, d) (short, s) e =
    elim (last_of_four (last_value n (name_entries ts)) (equal_bytes (request_name t) n)
      (equal_bytes (answer_name t) n) (equal_bytes t.abbreviations.request n)
      (equal_bytes t.abbreviations.answer n) (request_descriptor t) (answer_descriptor t) v e) [
        | inl k ↦ later-IsFound t ts v (named-IsFound ts n v d s k)
        | inr (k, o) ↦ record {
          of = t;
          short = short;
          kind = o;
          by_code = λ describe. own_code describe t ts p;
        }
      ]

code_of_found :
    (m : Message) (t : DictionaryYamlMessageType)
    → HasShortCode t
    → m.code ≡ low_24 t.code
    → m.app_id ≡ t.application_id
    → message_code m ≡ message_code_of t
unfolding low_24
code_of_found m t short c a = grind arith

found_code :
    (d : Dictionary) (y : DictionaryYaml) (m : Message) (v : DictionaryMessageDescriptor)
    (i : IsDictionaryOf y d) (f : IsFound y.message_types v)
    → is_request m ≡ v.is_request_type
    → m.code ≡ low_24 v.code
    → m.app_id ≡ v.app_id
    → descriptor_of_message d m ≡ some v
unfolding descriptor_of_message
found_code d y m v i f r c a = elim f.kind [
  | inl k ↦
      let e =
        code_of_found m f.of f.short (c ∙ ap (λ (x : DictionaryMessageDescriptor). low_24 x.code) k)
          (a ∙ ap (λ (x : DictionaryMessageDescriptor). x.app_id) k) in
      rw (r, k, e, i.requests_by_code (message_code_of f.of), f.by_code request_descriptor) refl
  | inr k ↦
      let e =
        code_of_found m f.of f.short (c ∙ ap (λ (x : DictionaryMessageDescriptor). low_24 x.code) k)
          (a ∙ ap (λ (x : DictionaryMessageDescriptor). x.app_id) k) in
      rw (r, k, e, i.answers_by_code (message_code_of f.of), f.by_code answer_descriptor) refl
]

-- In a dictionary of a YAML form in which no two message types share application and code and every
-- code has at most 24 bits, a message that `MessageErrorable` makes by a full name or an abbreviation
-- is found again under its application, code and request flag, with the descriptor that the name
-- has: `MessageCodeAsAString` is the full name of that descriptor.
pub message_code_as_a_string-message_errorable :
    (y : DictionaryYaml) (d : Dictionary) (name : Bytes) (flags : MessageFlags)
    (xs ys : List (Option Avp)) (m : Message)
    → AreDistinct y.message_types
    → All HasShortCode y.message_types
    → from_yaml_form y ≡ ok d
    → message_errorable d name flags xs ys ≡ ok m
    → (v : DictionaryMessageDescriptor) × (last_value name (name_entries y.message_types) ≡ some v)
      × (descriptor_of_message d m ≡ some v)
      × (message_code_as_a_string d m ≡ v.name)
unfolding message_code_as_a_string
message_code_as_a_string-message_errorable y d name flags xs ys m distinct short e made =
    let i = from_yaml_form-IsDictionaryOf y d e in
    let (v, n, r, _, _, _, c, a) = message_errorable_lem d name flags xs ys m made in
    let named = sym (i.messages_by_name name) ∙ n in
    let f = named-IsFound y.message_types name v distinct short named in
    let found = found_code d y m v i f r c a in (v, named, found, rw found refl)
