-- ===== src/Registrar/Names.antt =====
-- The calls on canonical names: `register`, `renew`, `transfer`, `release_name` and
-- `accept_offered_name` of pallets/pns-registrar/src/registrar.rs.
use pns_pallets.Base.{
  ℕ, ◌%◌, Bool, not, Option, none, some, [], ◌∷◌, ◌==◌, ltb, leb, checked_add, u64_mod, u32_mod,
}
use pns_pallets.Types.{AccountId, DomainHash, Bytes, RegistrarInfo, OfferedNameRecord}
use pns_pallets.Types.Dispatch.{RawOrigin, DispatchError, overflow, RegistrarError, Event}
use pns_pallets.Runtime.{
  ok, err, M, ⊤, Env, ◌>>=◌, ◌>>◌, pure, ensure, ok_or, gets, lift, deposit_event, signed_by,
  burn_fee,
}
use pns_pallets.Label.{parse_name_to_node, encode_with_node, is_registrable}
use pns_pallets.PriceOracle.{registration_fee}
use pns_pallets.Expiry.{grace_end, registrar_info, existing_info}
use pns_pallets.Resolvers.{set_ss58_record, set_origin_record}
use pns_pallets.Registry.Names.{mint_subname, do_transfer, do_burn}
use pns_pallets.Registry.Offers.{revoke_pending_offer_for_target}
use pns_pallets.Registrar.{
  reject, set_primary_name, set_info, set_offered_name, own_name, parse_label, forget_primary_name,
  get_official_account, current_block, ensure_nameless,
}

-- `.map_err(|_| e)?`
abbrev pub map_err : {A : Type 0} → M A → DispatchError → M A
map_err m e s = elim (m s) [ ok r ↦ ok r | err _ ↦ err e ]

-- The info that a registration writes over the entry there was.
abbrev pub registered_info : Env → ℕ → ℕ → ℕ → Option RegistrarInfo → RegistrarInfo
registered_info env fee expire label_len none = record {
  expire = expire;
  capacity = env.default_capacity;
  register_fee = fee;
  label_len = label_len;
  last_block = current_block env;
}
registered_info env fee expire label_len (some info) = record info {
  expire = expire;
  register_fee = fee;
  label_len = label_len;
  last_block = current_block env;
}

abbrev pub forget_pre_owner : Option AccountId → DomainHash → M ⊤
forget_pre_owner none label_node = pure tt
forget_pre_owner (some pre_owner) label_node = forget_primary_name pre_owner label_node

module _ (env : Env) where
  -- A gifted top-level name is burned; otherwise a subname's offer is revoked.
  unfoldable pub reject_offered : AccountId → DomainHash → Option OfferedNameRecord → M ⊤
  reject_offered caller rej_node (some offer) = do
    set_offered_name rej_node none
    ensure (offer.recipient == caller) (reject RegistrarError.not_offered_name_recipient)
    do_burn env caller rej_node
    deposit_event (Event.offered_name_rejected rej_node caller)
  reject_offered caller rej_node none = do
    map_err (revoke_pending_offer_for_target rej_node caller)
        (reject RegistrarError.offered_name_not_found)
    deposit_event (Event.offered_name_rejected rej_node caller)

  unfoldable pub reject_requested : AccountId → Option Bytes → M ⊤
  unfolding reject_offered
  reject_requested caller none = pure tt
  reject_requested caller (some reject_name) = do
    rej_node ←
        ok_or (parse_name_to_node env reject_name env.base_node)
          (reject RegistrarError.parse_label_failed)
    offer ← gets (λ s. s.registrar.offered_names rej_node)
    reject_offered caller rej_node offer

  -- The closure that `register` hands to `mint_subname`.
  unfoldable pub pay_registration : AccountId → DomainHash → ℕ → ℕ → ℕ → Option AccountId → M ⊤
  unfolding forget_primary_name
  pay_registration caller label_node fee expire label_len maybe_pre_owner = do
    forget_pre_owner maybe_pre_owner label_node
    burn_fee env caller fee
    info ← gets (registrar_info label_node)
    set_info label_node (some (registered_info env fee expire (label_len % u32_mod) info))

  -- The part of `register` behind the check that the owner has no name.
  unfoldable pub register_node :
      AccountId → AccountId → AccountId → Bytes → DomainHash → ℕ → ℕ → M ⊤
  unfolding pay_registration
  register_node caller owner official name label_node label_len expire = do
    price ← gets (λ s. registration_fee label_len s.price_oracle)
    fee ← ok_or price overflow
    mint_subname env official [] env.base_node label_node owner 0
        (pay_registration caller label_node fee expire label_len)
    set_primary_name owner (some label_node)
    set_ss58_record env label_node owner
    set_origin_record env label_node env.parent_hash
    deposit_event (Event.name_registered name label_node owner expire fee)

  abbrev pub is_empty : Bytes → Bool
  is_empty [] = Bool.true
  is_empty (b ∷ bs) = Bool.false

  unfoldable pub register : RawOrigin → Bytes → ℕ → Option Bytes → M ⊤
  unfolding reject_requested register_node
  register origin name owner reject_offer = do
    caller ← signed_by env origin
    owner ← lift (env.lookup owner)
    reject_requested caller reject_offer
    ensure (not (is_empty name)) (reject RegistrarError.label_invalid)
    open_now ← gets env.is_open
    ensure open_now (reject RegistrarError.registrar_closed)
    (label, label_len) ← parse_label env name
    ensure (is_registrable label_len) (reject RegistrarError.label_invalid)
    official ← get_official_account
    expire ← ok_or (checked_add u64_mod env.now env.max_registration_duration) overflow
    let label_node = encode_with_node env label env.base_node
    reserved ← gets (λ s. s.registrar.reserved_list label_node)
    ensure (not reserved) (reject RegistrarError.frozen)
    ensure_nameless env owner
    register_node caller owner official name label_node label_len expire

  unfoldable pub renew : RawOrigin → M ⊤
  renew origin = do
    caller ← signed_by env origin
    open_now ← gets env.is_open
    ensure open_now (reject RegistrarError.registrar_closed)
    label_node ← own_name caller
    info ← existing_info label_node
    ensure (leb env.now (grace_end env info.expire)) (reject RegistrarError.not_renewable)
    quote ← gets (λ s. registration_fee info.label_len s.price_oracle)
    price ← ok_or quote overflow
    burn_fee env caller price
    expire ← ok_or (checked_add u64_mod env.now env.max_registration_duration) overflow
    deposit_event (Event.name_renewed label_node caller expire price)
    set_info label_node (some (record info { expire = expire }))

  -- A name with an info must not have left its grace period.
  unfoldable pub ensure_owned : Option RegistrarInfo → M ⊤
  ensure_owned none = pure tt
  ensure_owned (some info) =
      ensure (ltb env.now (grace_end env info.expire)) (reject RegistrarError.not_owned)

  unfoldable pub transfer : RawOrigin → ℕ → M ⊤
  unfolding ensure_owned
  transfer origin to = do
    who ← signed_by env origin
    to ← lift (env.lookup to)
    open_now ← gets env.is_open
    ensure open_now (reject RegistrarError.registrar_closed)
    node ← own_name who
    info ← gets (registrar_info node)
    ensure_owned info
    ensure_nameless env to
    do_transfer env who to node
    set_primary_name who none
    set_primary_name to (some node)

  unfoldable pub release_name : RawOrigin → M ⊤
  release_name origin = do
    caller ← signed_by env origin
    node ← own_name caller
    set_primary_name caller none
    do_burn env caller node

  unfoldable pub accept_offered_name : RawOrigin → Bytes → M ⊤
  accept_offered_name origin name = do
    caller ← signed_by env origin
    (label, _) ← parse_label env name
    let node = encode_with_node env label env.base_node
    found ← gets (λ s. s.registrar.offered_names node)
    offer ← ok_or found (reject RegistrarError.offered_name_not_found)
    set_offered_name node none
    ensure (offer.recipient == caller) (reject RegistrarError.not_offered_name_recipient)
    info ← existing_info node
    ensure (ltb env.now info.expire) (reject RegistrarError.not_useable)
    ensure_nameless env caller
    set_primary_name caller (some node)
    set_ss58_record env node caller
    set_origin_record env node env.parent_hash
    deposit_event (Event.offered_name_accepted node caller)
