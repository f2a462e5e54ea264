-- ===== src/Dictionary/Typing.antt =====
-- dictionary.go: `TypeAnAvp` and `TypeAMessage`. Each returns the AVP or the message as it leaves it,
-- which it changes in place, and whether there was an error.
use diameterapi.Common.{List, [], ◌∷◌, Option, none, some, Outcome, ok, err, panics, stuck}
use diameterapi.Common.Dict.{get}
use diameterapi.Avp.Types.{Avp, AvpDataType, TypedValue, absent, attributes, type_or_avp_unknown}
use diameterapi.Avp.Lookup.{AvpMap, generate_map}
use diameterapi.Message.Types.{Message, MessageExtendedAttributes}
use diameterapi.Typed.Values.{Floats}
use diameterapi.Typed.Convert.{convert_data_to_typed_data}
use diameterapi.Dictionary.Types.{
  Dictionary, DictionaryMessageDescriptor, DictionaryAvpDescriptor, code_key,
}
use diameterapi.Dictionary.Queries.{avp_code, descriptor_of_message}

abbrev pub set_attributes :
    Avp → DictionaryAvpDescriptor → Outcome TypedValue → Avp × Outcome (Unit {0})
set_attributes a info (ok typed_data) =
    (record a { extended_attributes = attributes info.name info.data_type typed_data }, ok tt)
set_attributes a info (err e) = (a, err e)
set_attributes a info panics = (a, panics)
set_attributes a info stuck = (a, stuck)

module _ (floats : Floats) where
  abbrev pub type_to : AvpDataType → DictionaryAvpDescriptor → Avp → Avp × Outcome (Unit {0})
  type_to type_or_avp_unknown info a = (record a { extended_attributes = absent }, ok tt)
  type_to t info a = set_attributes a info (convert_data_to_typed_data floats a t)

  -- What `TypeAnAvp` does with the descriptor that it found.
  unfoldable pub type_by : Option DictionaryAvpDescriptor → Avp → Avp × Outcome (Unit {0})
  type_by none a = (record a { extended_attributes = absent }, ok tt)
  type_by (some info) a = type_to info.data_type info a

  unfoldable pub type_an_avp : Dictionary → Avp → Avp × Outcome (Unit {0})
  unfolding type_by
  type_an_avp d a = type_by (get (avp_code a) d.avp_descriptor_by_fully_qualified_code) a

  -- The loop of `TypeAMessage`: what is left of the AVPs behind one that was typed or was not.
  abbrev pub next_avp :
      List (Option Avp)
      → List (Option Avp) × Outcome (Unit {0})
      → Avp × Outcome (Unit {0})
      → List (Option Avp) × Outcome (Unit {0})
  next_avp avps (avps', r) (a, ok _) = (some a ∷ avps', r)
  next_avp avps (avps', r) (a, err e) = (some a ∷ avps, err e)
  next_avp avps (avps', r) (a, panics) = (some a ∷ avps, panics)
  next_avp avps (avps', r) (a, stuck) = (some a ∷ avps, stuck)

  unfoldable pub type_avps : Dictionary → List (Option Avp) → List (Option Avp) × Outcome (Unit {0})
  unfolding type_an_avp
  type_avps d [] = ([], ok tt)
  type_avps d (none ∷ avps) = (none ∷ avps, panics)
  type_avps d (some a ∷ avps) = next_avp avps (type_avps d avps) (type_an_avp d a)

  abbrev named : Option DictionaryMessageDescriptor → Option MessageExtendedAttributes
  named (some descriptor) =
      some (record { name = descriptor.name; abbreviated_name = descriptor.abbreviation })
  named none = none

  -- The cached map of a message stays as it is. It holds the pointers to its AVPs, which the loop has
  -- changed: as values they are the map of the AVPs that the loop leaves.
  abbrev pub map_behind : Outcome AvpMap → AvpMap → AvpMap
  map_behind (ok avp_map) old = avp_map
  map_behind _ old = old

  abbrev pub cached_behind : List (Option Avp) → Option AvpMap → Option AvpMap
  cached_behind avps none = none
  cached_behind avps (some avp_map) = some (map_behind (generate_map avps) avp_map)

  unfoldable pub type_a_message : Dictionary → Message → Message × Outcome (Unit {0})
  unfolding type_avps
  type_a_message d m =
      let (avps, r) = type_avps d m.avps in
      (
        record m {
          extended_attributes = named (descriptor_of_message d m);
          avps = avps;
          avp_map = cached_behind avps m.avp_map;
        },
        r,
      )
