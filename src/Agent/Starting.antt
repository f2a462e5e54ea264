-- ===== src/Agent/Starting.antt =====
-- The managers that the receiver's handler starts.
use diameterapi.Common.{
  ℕ, ◌≡◌, ◌≢◌, ◌∙◌, refl, sym, subst, ◌⊎◌, inl, inr, Bool, true, List, [], ◌∷◌, ◌++◌, ◌==◌, length,
  append_assoc, Option, none, some, Option-cases, All, Error, ok, cases, is_ok, is_err, is_panics,
  is_stuck, arith,
}
use diameterapi.Wire.{Bytes, put_uint16}
use diameterapi.Avp.Types.{
  Avp, AvpDataType, TypedValue, string, uint32, net_ip_pointer, diam_ident, unsigned32, utf8_string,
}
use diameterapi.Avp.Types
use diameterapi.Typed.Utf8.{utf8_valid}
use diameterapi.Typed.Address.{ip4, ip6, new_address_type_from_ip, to4}
use diameterapi.Typed.Values.{
  Floats, new_typed_avp, new_typed_avp_errorable, typed_data, address_data, ip_data,
  utf8_string_data, unsigned32_data, diam_string_data,
}
use diameterapi.Agent.Identity.{DiameterEntity}
use diameterapi.Agent.Manager.{PeerStateManager}
use diameterapi.Agent.Accepting.{
  Accepted, accepted, failed, AgentAction, started_manager, identity_to_assert, assert_on,
  run_receiver_handler, new_manager, make_cached_avps, new_peer_state_manager,
}

-- The two lengths of a `net.IP`
abbrev pub IsIp : Bytes → Type 0
IsIp ip = (length ip ≡ 4) ⊎ (length ip ≡ 16)

-- The local address of an accepted connection is an IP address.
abbrev pub IsLocal : Accepted → Type 0
IsLocal (accepted c (some ip)) = IsIp ip
IsLocal _ = Unit {0}

to4_of_four : (ip : Bytes) → length ip ≡ 4 → to4 ip ≡ some ip
unfolding to4
to4_of_four ip h = ground arith

new_address_type_from_ip-IsIp :
    (ip : Bytes) → IsIp ip → (a : Bytes) × (new_address_type_from_ip ip ≡ ok a)
unfolding new_address_type_from_ip
new_address_type_from_ip-IsIp ip (inl four) =
    (put_uint16 ip4 ++ ip, rw (to4_of_four ip four, new_address_type_from_ip) refl)
new_address_type_from_ip-IsIp ip (inr sixteen) = elim (Option-cases (to4 ip)) [
  | inr (x, e) ↦ (put_uint16 ip4 ++ x, rw (e, new_address_type_from_ip) refl)
  | inl e ↦
      let long : (length ip == 16) ≡ true = ground (arith, sixteen) in
      (put_uint16 ip6 ++ ip, rw (e, long, new_address_type_from_ip) refl)
]

module _ (floats : Floats) where
  makes :
      (code vendor_id : ℕ) (mandatory : Bool) (t : AvpDataType) (v : TypedValue)
      (x : Bytes × TypedValue)
      → typed_data floats t v ≡ ok x
      → (a : Avp) × (new_typed_avp floats code vendor_id mandatory t v ≡ ok a)
  unfolding new_typed_avp new_typed_avp_errorable
  makes code vendor_id mandatory t v x e =
      elim (cases (new_typed_avp floats code vendor_id mandatory t v)) [
        | is_ok a p ↦ (a, p)
        | is_err y p ↦ cc (rw e at p)
        | is_panics p ↦ cc (rw e at p)
        | is_stuck p ↦ cc (rw e at p)
      ]

  -- What a manager needs of the identity that it asserts
  abbrev pub IsComplete : DiameterEntity → List Bytes → Type 0
  IsComplete e [] = ⊥
  IsComplete e (ip ∷ ips) = IsIp ip × (utf8_valid e.product_name ≡ true)

  make_cached_avps-IsComplete :
      (e : DiameterEntity) (ips : List Bytes)
      → IsComplete e ips
      → make_cached_avps floats e ips ≡ ok tt
  unfolding typed_data address_data ip_data utf8_string_data unsigned32_data diam_string_data
  make_cached_avps-IsComplete e [] h = absurd h
  make_cached_avps-IsComplete e (ip ∷ ips) (h, u) =
      let (a, p) = new_address_type_from_ip-IsIp ip h in
      let (_, p₁) = makes 268 0 true unsigned32 (uint32 2000) _ refl in
      let (_, p₂) = makes 264 0 true diam_ident (string e.origin_host) _ refl in
      let (_, p₃) = makes 296 0 true diam_ident (string e.origin_realm) _ refl in
      let (_, p₄) =
        makes 257 0 true Types.address (net_ip_pointer ip) (a, Types.address_type a) (rw p refl) in
      let (_, p₅) = makes 266 0 true unsigned32 (uint32 e.vendor_id) _ refl in
      let (_, p₆) =
        makes 269 0 true utf8_string (string e.product_name) (e.product_name, string e.product_name)
          (rw u refl) in
      rw (p₁, p₂, p₃, p₄, p₅, p₆) refl

  -- The identity that is asserted on a connection with a local address: that of the agent, with this
  -- address if it has none itself
  abbrev pub IsAsserted : DiameterEntity → Option Bytes → DiameterEntity → Type 0
  IsAsserted e local_ip asserted =
      ((e.host_ip_addresses ≢ []) × (asserted ≡ e))
      ⊎ ((ip : Bytes) × (e.host_ip_addresses ≡ [])
          × (local_ip ≡ some ip)
          × (asserted ≡ record e { host_ip_addresses = ip ∷ [] }))

  -- A manager was started on a connection that was accepted, with the identity to assert on it, and
  -- `newPeerStateManager` makes a manager of it.
  abbrev pub IsMade :
      ℕ → ℕ → List (Option Error) → DiameterEntity → List Accepted → AgentAction → Type 0
  IsMade hop_seed end_seed write_results e accepts (started_manager asserted c) =
      (local_ip : Option Bytes) × (before : List Accepted) × (after : List Accepted) × (accepts
        ≡ before ++ (accepted c local_ip ∷ after))
      × IsAsserted e local_ip asserted
      × ((s : PeerStateManager) × (new_peer_state_manager floats (some asserted) (some c) hop_seed
              end_seed write_results
            ≡ ok s)
          × (s.local_identity ≡ asserted))
  IsMade hop_seed end_seed write_results e accepts _ = Unit {0}

  module _ (hop_seed end_seed : ℕ) (write_results : List (Option Error)) where
    made :
        (e : DiameterEntity) (c : ℕ)
        → IsComplete e e.host_ip_addresses
        → (s : PeerStateManager) × (new_peer_state_manager floats
              (some e)
              (some c)
              hop_seed
              end_seed
              write_results
            ≡ ok s)
          × (s.local_identity ≡ e)
    unfolding new_peer_state_manager
    made e c h = (
      new_manager e hop_seed end_seed write_results,
      rw (make_cached_avps-IsComplete e e.host_ip_addresses h) refl,
      refl,
    )

    asserted-IsMade :
        (e : DiameterEntity) (ips : List Bytes) (local_ip : Option Bytes) (c : ℕ)
        (accepts before after : List Accepted) (further : List AgentAction)
        → e.host_ip_addresses ≡ ips
        → utf8_valid e.product_name ≡ true
        → All IsIp ips
        → IsLocal (accepted c local_ip)
        → accepts ≡ before ++ (accepted c local_ip ∷ after)
        → All (IsMade hop_seed end_seed write_results e accepts) further
        → All
            (IsMade hop_seed end_seed write_results e accepts)
            (assert_on c (identity_to_assert e ips local_ip) further)
    asserted-IsMade e (ip ∷ ips) local_ip c accepts before after further same u (h, _) l at all = (
      (
        local_ip,
        before,
        after,
        at,
        inl (λ none_there. cc, refl),
        made e c (subst (IsComplete e) (sym same) (h, u)),
      ),
      all,
    )
    asserted-IsMade e [] (some ip) c accepts before after further same u h l at all = (
      (
        some ip,
        before,
        after,
        at,
        inr (ip, same, refl, refl),
        made (record e { host_ip_addresses = ip ∷ [] }) c (l, u),
      ),
      all,
    )
    asserted-IsMade e [] none c accepts before after further same u h l at all = (tt, (tt, tt))

    further-IsMade :
        (e : DiameterEntity) (accepts before rest : List Accepted)
        → utf8_valid e.product_name ≡ true
        → All IsIp e.host_ip_addresses
        → All IsLocal rest
        → accepts ≡ before ++ rest
        → All (IsMade hop_seed end_seed write_results e accepts) (run_receiver_handler e rest)
    unfolding run_receiver_handler
    further-IsMade e accepts before [] u h l at = tt
    further-IsMade e accepts before (failed x ∷ rest) u h l at = (tt, tt)
    further-IsMade e accepts before (accepted c local_ip ∷ rest) u h (i, l) at =
        let one = accepted c local_ip in
        (
          tt,
          asserted-IsMade e e.host_ip_addresses local_ip c accepts before rest _ refl u h i at (
              further-IsMade e accepts (before ++ (one ∷ [])) rest u h l
                (at ∙ sym (append_assoc before (one ∷ []) rest))),
        )

    -- If the product name of the identity is valid UTF-8, its host addresses are IP addresses, and so are
    -- the local addresses of the connections, then each manager that `runReceiverHandler` starts is on a
    -- connection that `Accept` returned, asserts the identity of the agent, with the local address of the
    -- connection as its host address if it has none, and `newPeerStateManager` returns a manager for it.
    pub run_receiver_handler-IsMade :
        (e : DiameterEntity) (accepts : List Accepted)
        → utf8_valid e.product_name ≡ true
        → All IsIp e.host_ip_addresses
        → All IsLocal accepts
        → All (IsMade hop_seed end_seed write_results e accepts) (run_receiver_handler e accepts)
    run_receiver_handler-IsMade e accepts u h l = further-IsMade e accepts [] accepts u h l refl
