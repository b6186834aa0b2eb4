-- ===== src/Registry.antt =====
-- The registry, pallets/pns-registrar/src/registry.rs: the helpers on NFTs and subnames, transfers,
-- burns and mints. The class of every name is 0.
pub mod Children
pub mod Clear
pub mod Names
pub mod Offers
pub mod Lifecycle
pub mod Rights
pub mod Owners
pub mod Frames
pub mod Held
pub mod Tidy
pub mod TidyCalls
pub mod TidyOffers
use pns_pallets.Base.{
  ℕ, ◌+◌, ◌-◌, ◌%◌, Bool, not, Option, none, some, List, [], ◌∷◌, ◌||◌, ltb, leb, ◌==◌,
  if◌then◌else◌, u32_mod,
}
use pns_pallets.Base.Storage.{update, insert, remove, insert_pair, remove_pair, clear_prefix}
use pns_pallets.Types.{
  AccountId, DomainHash, Bytes, DomainTracing, runtime_origin, root, Record, SubnameRecord,
  SubnameState, offered, active, rejected,
}
use pns_pallets.Types.Dispatch.{DispatchError, registry, RegistryError, Event, overflow}
use pns_pallets.Types.Storage.{State, TokenInfo, Registry}
use pns_pallets.Runtime.{
  Result, ok, err, M, ⊤, Env, ◌>>=◌, ◌>>◌, pure, fail, ensure, ok_or, gets, modify, on_nft,
  on_registry, on_resolvers, deposit_event,
}
use pns_pallets.Nft
use pns_pallets.Expiry.{
  check_expires_registrable, check_expires_renewable, check_expires_useable, clear_registrar_info,
}
use pns_pallets.Resolvers.{
  set_ss58_record, set_origin_record, clear_records_except_ss58, clear_all_records,
}

abbrev pub refuse : RegistryError → DispatchError
refuse e = registry e

-- `nft::Tokens::get(0, node)`
abbrev pub token_info : DomainHash → State → Option TokenInfo
token_info node s = s.nft.tokens 0 node

abbrev pub set_children : DomainHash → ℕ → TokenInfo → State → State
set_children node n info s = record s {
  nft = Nft.set_token 0 node (some (record info { token_data = record { children = n } })) s.nft;
}

unfoldable pub verify_with_owner : AccountId → AccountId → M ⊤
verify_with_owner caller owner = ensure (caller == owner) (refuse RegistryError.no_permission)

unfoldable pub verify : AccountId → DomainHash → M ⊤
unfolding verify_with_owner
verify caller node = do
  token ← gets (token_info node)
  info ← ok_or token (refuse RegistryError.not_exist)
  verify_with_owner caller info.owner

unfoldable pub add_children : DomainHash → M ⊤
add_children node = do
  token ← gets (token_info node)
  info ← ok_or token (refuse RegistryError.not_exist)
  modify (set_children node ((info.token_data.children + 1) % u32_mod) info)

unfoldable pub add_children_with_check : DomainHash → ℕ → M ⊤
add_children_with_check node capacity = do
  token ← gets (token_info node)
  info ← ok_or token (refuse RegistryError.not_exist)
  ensure (ltb info.token_data.children capacity) (refuse RegistryError.capacity_not_enough)
  modify (set_children node ((info.token_data.children + 1) % u32_mod) info)

unfoldable pub sub_children : DomainHash → M ⊤
sub_children node = do
  token ← gets (token_info node)
  info ← ok_or token (refuse RegistryError.not_exist)
  ensure (not (info.token_data.children == 0)) overflow
  modify (set_children node (info.token_data.children - 1) info)

-- The index entry that a record of a subname in this state has.
pub drop_index : SubnameState → AccountId → DomainHash → Registry → Registry
drop_index offered target child r = record r {
  offered_to_account = remove_pair target child r.offered_to_account;
}
drop_index rejected target child r = record r {
  offered_to_account = remove_pair target child r.offered_to_account;
}
drop_index active target child r = record r {
  account_to_subnames = remove_pair target child r.account_to_subnames;
}

-- `SubnameRecords::take(child)` with its index entry.
pub take_record : DomainHash → Option SubnameRecord → Registry → Registry
unfolding drop_index
take_record child none r = r
take_record child (some rec) r =
    drop_index rec.state rec.target child
      (record r { subname_records = remove child r.subname_records })

-- The token of an old-style subname; an error of `burn` is ignored.
pub drop_token : DomainHash → Option TokenInfo → State → State
unfolding Nft.burn
drop_token child none s = s
drop_token child (some info) s = record s {
  registry = record (s.registry) {
    account_to_subnames = remove_pair info.owner child s.registry.account_to_subnames;
  };
  nft = elim (Nft.burn info.owner 0 child s.nft) [ ok (_, n) ↦ n | err e ↦ s.nft ];
}

-- One round of the loop of `clear_subnames`.
unfoldable pub clear_child : DomainHash → State → State
unfolding take_record drop_token clear_all_records
clear_child child s = drop_token child (token_info child s) (record s {
  resolvers = clear_all_records child s.resolvers;
  registry =
      take_record child (s.registry.subname_records child)
        (record (s.registry) { runtime_origin = remove child s.registry.runtime_origin });
})

unfoldable pub clear_children : List DomainHash → State → State
unfolding clear_child
clear_children [] s = s
clear_children (child ∷ children) s = clear_children children (clear_child child s)

unfoldable pub reset_children : DomainHash → Option TokenInfo → State → State
reset_children node none s = s
reset_children node (some info) s = set_children node 0 info s

unfoldable pub clear_subnames : DomainHash → State → State
unfolding clear_children reset_children
clear_subnames root_node s =
    let s' = clear_children (s.registry.sub_names root_node) s in
    let s'' = record s' {
      registry = record (s'.registry) { sub_names = clear_prefix root_node s'.registry.sub_names };
    } in
    reset_children root_node (token_info root_node s'') s''

-- `AccountToSubnames::remove` and `insert`.
abbrev pub remove_subname : AccountId → DomainHash → M ⊤
remove_subname a node =
    on_registry λ r. record r { account_to_subnames = remove_pair a node r.account_to_subnames }

abbrev pub insert_subname : AccountId → DomainHash → M ⊤
insert_subname a node =
    on_registry λ r. record r { account_to_subnames = insert_pair a node r.account_to_subnames }

abbrev pub set_tracing : DomainHash → Option DomainTracing → M ⊤
set_tracing node t = on_registry λ r. record r { runtime_origin = update node t r.runtime_origin }

abbrev pub add_sub_name : DomainHash → DomainHash → M ⊤
add_sub_name parent node =
    on_registry λ r. record r { sub_names = insert_pair parent node r.sub_names }

abbrev pub remove_sub_name : DomainHash → DomainHash → M ⊤
remove_sub_name parent node =
    on_registry λ r. record r { sub_names = remove_pair parent node r.sub_names }

-- The owner of `root`, if it has one, is not `to`.
abbrev pub ensure_not_owner : AccountId → DomainHash → M ⊤
ensure_not_owner to node s = elim (token_info node s) [
  | none ↦ ok (tt, s)
  | some info ↦
      ensure (not (to == info.owner)) (refuse RegistryError.cannot_own_subname_under_own_domain) s
]
