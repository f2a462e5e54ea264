-- ===== src/Agent/Identity.antt =====
-- agent/peer.go: `DiameterEntity` and its AVPs. The pointers to the host addresses are taken not to
-- be nil. A method that fills the cache returns the entity as it leaves it.
use diameterapi.Common.{
  ℕ, Bool, true, false, not, ◌==◌, List, [], ◌∷◌, ◌++◌, Option, none, some, Outcome, ok, panics,
  ◌>>=◌, ◌>>◌, guard, wrap_error, missing_mandatory_avp, identity_decode_failure,
}
use diameterapi.Wire.{Bytes}
use diameterapi.Avp.Types.{
  Avp, TypedValue, string, uint32, net_ip, net_ip_pointer, diam_ident, unsigned32, utf8_string,
  grouped,
}
use diameterapi.Avp.Types
use diameterapi.Message.Types.{Message}
use diameterapi.Message.Query.{
  number_of_top_level_avps_matching, top_level_avps_matching, first_avp_matching,
}
use diameterapi.Typed.Values.{Floats, new_typed_avp}
use diameterapi.Typed.Convert.{convert_avp_data_to_typed_data}

abbrev pub capabilities_exchange_code : ℕ
capabilities_exchange_code = 257

abbrev pub device_watchdog_code : ℕ
device_watchdog_code = 280

abbrev pub disconnect_peer_code : ℕ
disconnect_peer_code = 282

-- `diameterEntityCache`, without the result code, which the methods of the entity do not use
pub record DiameterEntityCache : Type 0 where
  pub origin_host : Option Avp
  pub origin_realm : Option Avp
  pub host_ip_addresses : List Avp
  pub vendor_id : Option Avp
  pub product_name : Option Avp

pub record DiameterEntity : Type 0 where
  pub origin_host : Bytes
  pub origin_realm : Bytes
  pub host_ip_addresses : List Bytes
  pub vendor_id : ℕ  -- uint32
  pub product_name : Bytes
  pub cache : DiameterEntityCache

abbrev pub empty_cache : DiameterEntityCache
empty_cache = record {
  origin_host = none;
  origin_realm = none;
  host_ip_addresses = [];
  vendor_id = none;
  product_name = none;
}

-- The identity of an AVP to a string, for the type assertions that cannot fail.
abbrev string_of : TypedValue → Outcome Bytes
string_of (string s) = ok s
string_of _ = panics

abbrev uint32_of : TypedValue → Outcome ℕ
uint32_of (uint32 n) = ok n
uint32_of _ = panics

-- `ipAddr.(net.IP)` panics for a `*net.IP`.
unfoldable pub ip_of : TypedValue → Outcome Bytes
ip_of (net_ip ip) = ok ip
ip_of _ = panics

-- `.Data` of the pointer that `FirstAvpMatching` returns
abbrev data_of : Option Avp → Outcome Bytes
data_of (some a) = ok a.payload
data_of none = panics

module _ (floats : Floats) where
  unfoldable pub origin_host_avp : DiameterEntity → Outcome (DiameterEntity × Avp)
  origin_host_avp e = elim e.cache.origin_host [
    | some a ↦ ok (e, a)
    | none ↦ do
      a ← new_typed_avp floats 264 0 true diam_ident (string e.origin_host)
      ok (record e { cache = record (e.cache) { origin_host = some a } }, a)
  ]

  -- The realm's AVP is made of the origin host.
  unfoldable pub origin_realm_avp : DiameterEntity → Outcome (DiameterEntity × Avp)
  origin_realm_avp e = elim e.cache.origin_realm [
    | some a ↦ ok (e, a)
    | none ↦ do
      a ← new_typed_avp floats 296 0 true diam_ident (string e.origin_host)
      ok (record e { cache = record (e.cache) { origin_realm = some a } }, a)
  ]

  unfoldable pub vendor_id_avp : DiameterEntity → Outcome (DiameterEntity × Avp)
  vendor_id_avp e = elim e.cache.vendor_id [
    | some a ↦ ok (e, a)
    | none ↦ do
      a ← new_typed_avp floats 266 0 true unsigned32 (uint32 e.vendor_id)
      ok (record e { cache = record (e.cache) { vendor_id = some a } }, a)
  ]

  unfoldable pub product_name_avp : DiameterEntity → Outcome (DiameterEntity × Avp)
  product_name_avp e = elim e.cache.product_name [
    | some a ↦ ok (e, a)
    | none ↦ do
      a ← new_typed_avp floats 269 0 true utf8_string (string e.product_name)
      ok (record e { cache = record (e.cache) { product_name = some a } }, a)
  ]

  -- The loop of `HostIpAddressAvps`
  unfoldable pub address_avps : List Bytes → Outcome (List Avp)
  address_avps [] = ok []
  address_avps (ip ∷ ips) = do
    a ← new_typed_avp floats 257 0 true Types.address (net_ip_pointer ip)
    avps ← address_avps ips
    ok (a ∷ avps)

  unfoldable pub host_ip_address_avps : DiameterEntity → Outcome (DiameterEntity × List Avp)
  unfolding address_avps
  host_ip_address_avps e = elim e.cache.host_ip_addresses [
    | a ∷ avps ↦ ok (e, a ∷ avps)
    | [] ↦ do
      avps ← address_avps e.host_ip_addresses
      ok (record e { cache = record (e.cache) { host_ip_addresses = avps } }, avps)
  ]

  unfoldable pub capabilities_exchange_mandatory_avps :
      DiameterEntity → Outcome (DiameterEntity × List Avp)
  capabilities_exchange_mandatory_avps e = do
    (e₁, host) ← origin_host_avp e
    (e₂, realm) ← origin_realm_avp e₁
    (e₃, addresses) ← host_ip_address_avps e₂
    (e₄, vendor) ← vendor_id_avp e₃
    (e₅, product) ← product_name_avp e₄
    ok (e₅, (host ∷ realm ∷ []) ++ (addresses ++ (vendor ∷ product ∷ [])))

  unfoldable pub capabilities_exchange_mandatory_avps_with_result_code :
      Avp → DiameterEntity → Outcome (DiameterEntity × List Avp)
  capabilities_exchange_mandatory_avps_with_result_code result_code e = do
    (e₁, host) ← origin_host_avp e
    (e₂, realm) ← origin_realm_avp e₁
    (e₃, addresses) ← host_ip_address_avps e₂
    (e₄, vendor) ← vendor_id_avp e₃
    (e₅, product) ← product_name_avp e₄
    ok (e₅, (result_code ∷ host ∷ realm ∷ []) ++ (addresses ++ (vendor ∷ product ∷ [])))

  -- The first loop of `DiameterEntityFromCapabilitiesExchangeMessage`
  unfoldable pub exactly_one_of_each : List ℕ → Message → Outcome Message
  exactly_one_of_each [] m = ok m
  exactly_one_of_each (code ∷ codes) m = do
    (m', n) ← number_of_top_level_avps_matching m 0 code
    guard (n == 1) missing_mandatory_avp
    exactly_one_of_each codes m'

  -- The last loop
  unfoldable pub addresses_of : List Avp → Outcome (List Bytes)
  unfolding ip_of
  addresses_of [] = ok []
  addresses_of (a ∷ avps) = do
    v ←
        wrap_error identity_decode_failure
          (convert_avp_data_to_typed_data floats a.payload Types.address)
    ip ← ip_of v
    ips ← addresses_of avps
    ok (ip ∷ ips)

  unfoldable pub diameter_entity_from_capabilities_exchange_message :
      Message → Outcome (Message × DiameterEntity)
  unfolding exactly_one_of_each addresses_of
  diameter_entity_from_capabilities_exchange_message m = do
    m₁ ← exactly_one_of_each (264 ∷ 296 ∷ 266 ∷ 269 ∷ []) m
    (m₂, n) ← number_of_top_level_avps_matching m₁ 0 257
    guard (not (n == 0)) missing_mandatory_avp
    (m₃, host_ip_avps) ← top_level_avps_matching m₂ 0 257
    (m₄, a₁) ← first_avp_matching m₃ 0 264
    d₁ ← data_of a₁
    v₁ ← wrap_error identity_decode_failure (convert_avp_data_to_typed_data floats d₁ diam_ident)
    origin_host ← string_of v₁
    (m₅, a₂) ← first_avp_matching m₄ 0 296
    d₂ ← data_of a₂
    v₂ ← wrap_error identity_decode_failure (convert_avp_data_to_typed_data floats d₂ diam_ident)
    origin_realm ← string_of v₂
    (m₆, a₃) ← first_avp_matching m₅ 0 266
    d₃ ← data_of a₃
    v₃ ← wrap_error identity_decode_failure (convert_avp_data_to_typed_data floats d₃ unsigned32)
    vendor_id ← uint32_of v₃
    (m₇, a₄) ← first_avp_matching m₆ 0 269
    d₄ ← data_of a₄
    v₄ ← wrap_error identity_decode_failure (convert_avp_data_to_typed_data floats d₄ utf8_string)
    product_name ← string_of v₄
    ips ← addresses_of host_ip_avps
    ok (
      m₇,
      record {
        origin_host = origin_host;
        origin_realm = origin_realm;
        host_ip_addresses = ips;
        vendor_id = vendor_id;
        product_name = product_name;
        cache = empty_cache;
      },
    )

-- `Peer`: its identity. Its two methods are those of the manager.
pub record Peer : Type 0 where
  pub identity : DiameterEntity

unfoldable pub is_in_a_connected_state : Peer → Bool
is_in_a_connected_state peer = false

unfoldable pub is_disconnected : Peer → Bool
is_disconnected peer = not (is_in_a_connected_state peer)
