-- ===== src/Registrar/Subnames.antt =====
-- The calls on subnames of pallets/pns-registrar/src/registrar.rs.
use pns_pallets.Base.{ℕ, not, ltb, length}
use pns_pallets.Types.{Bytes}
use pns_pallets.Types.Dispatch.{RawOrigin, RegistrarError, Event}
use pns_pallets.Runtime.{M, ⊤, Env, ◌>>=◌, ◌>>◌, ensure, gets, lift, deposit_event, signed_by}
use pns_pallets.Label.{encode_with_node}
use pns_pallets.Expiry.{existing_info}
use pns_pallets.Resolvers.{set_ss58_record}
use pns_pallets.Registry.Offers.{
  offer_subname, accept_subname_offer, reject_subname_offer, revoke_subname, release_subname,
}
use pns_pallets.Registrar.{reject, own_name, parse_label, parse_subname}

module _ (env : Env) where
  unfoldable pub offer_subdomain : RawOrigin → Bytes → ℕ → M ⊤
  offer_subdomain origin label target = do
    caller ← signed_by env origin
    target ← lift (env.lookup target)
    open_now ← gets env.is_open
    ensure open_now (reject RegistrarError.registrar_closed)
    parent_node ← own_name caller
    info ← existing_info parent_node
    ensure (ltb env.now info.expire) (reject RegistrarError.not_useable)
    (sub_label, _) ← parse_label env label
    let label_node = encode_with_node env sub_label parent_node
    ensure (not (ltb 63 (length label))) (reject RegistrarError.label_too_long)
    offer_subname parent_node label_node label target info.capacity
    deposit_event (Event.subname_offered parent_node label_node label target)

  unfoldable pub accept_subdomain : RawOrigin → Bytes → Bytes → M ⊤
  accept_subdomain origin parent label = do
    caller ← signed_by env origin
    (parent_node, label_node) ← parse_subname env parent label
    info ← existing_info parent_node
    ensure (ltb env.now info.expire) (reject RegistrarError.not_useable)
    _ ← accept_subname_offer env label_node caller
    set_ss58_record env label_node caller
    deposit_event (Event.subname_accepted label_node caller)

  unfoldable pub reject_subdomain : RawOrigin → Bytes → Bytes → M ⊤
  reject_subdomain origin parent label = do
    caller ← signed_by env origin
    (_, label_node) ← parse_subname env parent label
    reject_subname_offer label_node caller
    deposit_event (Event.subname_rejected label_node caller)

  unfoldable pub revoke_subdomain : RawOrigin → Bytes → M ⊤
  revoke_subdomain origin label = do
    caller ← signed_by env origin
    parent_node ← own_name caller
    (sub_label, _) ← parse_label env label
    let label_node = encode_with_node env sub_label parent_node
    revoke_subname parent_node label_node
    deposit_event (Event.subname_revoked label_node parent_node)

  unfoldable pub release_subdomain : RawOrigin → Bytes → Bytes → M ⊤
  release_subdomain origin parent label = do
    caller ← signed_by env origin
    (_, label_node) ← parse_subname env parent label
    parent_from_record ← release_subname label_node caller
    deposit_event (Event.subname_released label_node parent_from_record)
