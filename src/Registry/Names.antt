-- ===== src/Registry/Names.antt =====
-- Mint, transfer and burn of a name: `mint_subname`, `do_transfer`, `do_burn` and the calls of
-- pallets/pns-registrar/src/registry.rs.
use pns_pallets.Base.{ℕ, Option, none, some, ◌==◌}
use pns_pallets.Types.{AccountId, DomainHash, Bytes, DomainTracing, runtime_origin, root}
use pns_pallets.Types.Dispatch.{RawOrigin, RegistryError, Event}
use pns_pallets.Runtime.{
  M, ⊤, Env, ◌>>=◌, ◌>>◌, pure, ensure, ok_or, gets, modify, on_nft, on_registry, on_resolvers,
  deposit_event, ensure_manager, signed_by,
}
use pns_pallets.Nft
use pns_pallets.Label.{parse_name_to_node}
use pns_pallets.Expiry.{
  check_expires_registrable, check_expires_renewable, check_expires_useable, clear_registrar_info,
}
use pns_pallets.Resolvers.{
  set_ss58_record, set_origin_record, clear_records_except_ss58, clear_all_records,
}
use pns_pallets.Registry.{
  refuse, token_info, verify_with_owner, add_children, add_children_with_check, sub_children,
  clear_subnames, remove_subname, insert_subname, set_tracing, add_sub_name, remove_sub_name,
  ensure_not_owner,
}

module _ (env : Env) where
  -- The bookkeeping of `do_burn` for a subname and for a root name.
  unfoldable pub burn_tracing : AccountId → DomainHash → ℕ → DomainTracing → M ⊤
  burn_tracing token_owner token children (runtime_origin origin) = do
    ensure (children == 0) (refuse RegistryError.subnode_not_clear)
    sub_children origin
    remove_sub_name origin token
    remove_subname token_owner token
  burn_tracing token_owner token children root = do
    modify (clear_subnames token)
    clear_registrar_info token
    remove_subname token_owner token

  unfoldable pub do_burn : AccountId → DomainHash → M ⊤
  unfolding burn_tracing verify_with_owner
  do_burn caller token = do
    found ← gets (token_info token)
    info ← ok_or found (refuse RegistryError.not_exist)
    let token_owner = info.owner
    verify_with_owner caller token_owner
    tracing ← gets (λ s. s.registry.runtime_origin token)
    origin ← ok_or tracing (refuse RegistryError.ban_burn_base_node)
    burn_tracing token_owner token info.token_data.children origin
    set_tracing token none
    on_resolvers (clear_all_records token)
    on_nft (Nft.burn token_owner 0 token)
    deposit_event (Event.token_burned 0 token token token_owner caller)

  -- The canonical name above a node.
  abbrev root_of : DomainHash → Option DomainTracing → DomainHash
  root_of node (some (runtime_origin origin)) = origin
  root_of node (some root) = node
  root_of node none = node

  -- A name that exists changes hands, with the previous owner paid first.
  unfoldable pub remint : DomainHash → AccountId → AccountId → (Option AccountId → M ⊤) → M ⊤
  remint label_node from to do_payments = do
    check_expires_registrable env label_node
    do_payments (some from)
    modify (clear_subnames label_node)
    on_resolvers (clear_all_records label_node)
    remove_subname from label_node
    on_nft (Nft.transfer from to 0 label_node)
    insert_subname to label_node

  -- The place of a new node in its tree.
  unfoldable pub link_new : DomainHash → DomainHash → ℕ → Option DomainTracing → M ⊤
  link_new node label_node capacity (some (runtime_origin origin)) = do
    check_expires_useable env origin
    add_children_with_check origin capacity
    add_children node
    set_tracing label_node (some (runtime_origin origin))
    add_sub_name origin label_node
  link_new node label_node capacity (some root) = do
    add_children_with_check node capacity
    set_tracing label_node (some (runtime_origin node))
    add_sub_name node label_node
  link_new node label_node capacity none = do add_children node; set_tracing label_node (some root)

  unfoldable pub mint_new :
      Bytes → DomainHash → DomainHash → AccountId → ℕ → (Option AccountId → M ⊤) → M ⊤
  unfolding link_new
  mint_new metadata node label_node to capacity do_payments = do
    do_payments none
    on_nft (Nft.mint env to 0 label_node metadata (record { children = 0 }))
    insert_subname to label_node
    tracing ← gets (λ s. s.registry.runtime_origin node)
    link_new node label_node capacity tracing

  unfoldable pub mint_subname :
      AccountId → Bytes → DomainHash → DomainHash → AccountId → ℕ → (Option AccountId → M ⊤) → M ⊤
  unfolding remint mint_new verify_with_owner
  mint_subname owner metadata node label_node to capacity do_payments = do
    found ← gets (token_info node)
    node_info ← ok_or found (refuse RegistryError.not_exist)
    verify_with_owner owner node_info.owner
    tracing ← gets (λ s. s.registry.runtime_origin node)
    ensure_not_owner to (root_of node tracing)
    existing ← gets (token_info label_node)
    elim existing [
      | some info ↦ remint label_node info.owner to do_payments
      | none ↦ mint_new metadata node label_node to capacity do_payments
    ]
    deposit_event (Event.token_minted 0 label_node node to)

  -- The bookkeeping of `do_transfer` for a subname and for a root name.
  unfoldable pub transfer_tracing : AccountId → AccountId → DomainHash → DomainTracing → M ⊤
  transfer_tracing owner to token (runtime_origin origin) = do
    check_expires_renewable env origin
    ensure_not_owner to origin
    remove_subname owner token
    insert_subname to token
  transfer_tracing owner to token root = do
    check_expires_renewable env token
    modify (clear_subnames token)

  unfoldable pub do_transfer : AccountId → AccountId → DomainHash → M ⊤
  unfolding transfer_tracing verify_with_owner
  do_transfer from to token = do
    found ← gets (token_info token)
    info ← ok_or found (refuse RegistryError.not_exist)
    let owner = info.owner
    verify_with_owner from owner
    tracing ← gets (λ s. s.registry.runtime_origin token)
    origin ← ok_or tracing (refuse RegistryError.not_exist)
    transfer_tracing owner to token origin
    on_nft (Nft.transfer owner to 0 token)
    on_resolvers (clear_records_except_ss58 token)
    set_ss58_record env token to
    set_origin_record env token env.parent_hash
    deposit_event (Event.transferred owner to 0 token)

  -- The call `burn`.
  unfoldable pub burn : RawOrigin → Bytes → M ⊤
  unfolding do_burn
  burn origin name = do
    caller ← signed_by env origin
    node ← ok_or (parse_name_to_node env name env.base_node) (refuse RegistryError.invalid_name)
    do_burn caller node

  -- The base node goes with the office, if there was an official.
  unfoldable pub pass_base_node : AccountId → Option AccountId → M ⊤
  pass_base_node official none = pure tt
  pass_base_node official (some old) = on_nft (Nft.transfer old official 0 env.base_node)

  unfoldable pub set_official : RawOrigin → AccountId → M ⊤
  unfolding pass_base_node
  set_official origin official = do
    who ← ensure_manager env origin
    old ← gets (λ s. s.registry.official)
    on_registry λ r. record r { official = some official }
    pass_base_node official old
    modify λ s. record s { nft = Nft.set_class_owner 0 official (s.nft.classes 0) s.nft }
