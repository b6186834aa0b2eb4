-- ===== src/Registry/Offers.antt =====
-- Delegated subnames, the implementation of the trait `Registry` in
-- pallets/pns-registrar/src/registry.rs: offer, accept, reject, revoke, release.
use pns_pallets.Base.{ℕ, Bool, true, false, not, Option, none, some, List, [], ◌∷◌, ◌==◌, is_some}
use pns_pallets.Base.Storage.{insert_pair, remove_pair, update}
use pns_pallets.Types.{
  AccountId, DomainHash, Bytes, DomainTracing, root, runtime_origin, SubnameRecord, SubnameState,
  offered, active, rejected,
}
use pns_pallets.Types.Dispatch.{RegistryError}
use pns_pallets.Types.Storage.{State}
use pns_pallets.Runtime.{
  M, ⊤, Env, ◌>>=◌, ◌>>◌, pure, ensure, ok_or, gets, on_registry, on_resolvers,
}
use pns_pallets.Expiry.{has_valid_canonical_name}
use pns_pallets.Resolvers.{clear_all_records}
use pns_pallets.Registry.{
  refuse, token_info, add_children_with_check, sub_children, insert_subname, remove_subname,
  add_sub_name, remove_sub_name, ensure_not_owner,
}

abbrev is_nonempty : List ℕ → Bool
is_nonempty [] = false
is_nonempty (x ∷ xs) = true

-- `AccountToSubnames::iter_prefix(account).next().is_some()`
unfoldable pub has_active_subname : AccountId → State → Bool
has_active_subname account s = is_nonempty (s.registry.account_to_subnames account)

unfoldable pub owner_of : DomainHash → State → Option AccountId
owner_of node s = elim (token_info node s) [ none ↦ none | some info ↦ some info.owner ]

abbrev pub is_offered : SubnameState → Bool
is_offered offered = true
is_offered active = false
is_offered rejected = false

abbrev pub is_active : SubnameState → Bool
is_active offered = false
is_active active = true
is_active rejected = false

abbrev pub set_record : DomainHash → Option SubnameRecord → M ⊤
set_record node v = on_registry λ r. record r { subname_records = update node v r.subname_records }

abbrev pub remove_offer : AccountId → DomainHash → M ⊤
remove_offer a node =
    on_registry λ r. record r { offered_to_account = remove_pair a node r.offered_to_account }

abbrev pub insert_offer : AccountId → DomainHash → M ⊤
insert_offer a node =
    on_registry λ r. record r { offered_to_account = insert_pair a node r.offered_to_account }

-- The record of a label; none is `SubnameNotFound`.
abbrev pub existing_record : DomainHash → M SubnameRecord
existing_record node s =
    ok_or (s.registry.subname_records node) (refuse RegistryError.subname_not_found) s

abbrev pub is_root : Option DomainTracing → Bool
is_root none = false
is_root (some root) = true
is_root (some (runtime_origin _)) = false

unfoldable pub offer_subname : DomainHash → DomainHash → Bytes → AccountId → ℕ → M ⊤
offer_subname parent label_node label_bytes to capacity = do
  tracing ← gets (λ s. s.registry.runtime_origin parent)
  ensure (is_root tracing) (refuse RegistryError.subname_depth_exceeded)
  ensure_not_owner to parent
  existing ← gets (λ s. s.registry.subname_records label_node)
  ensure (not (is_some existing)) (refuse RegistryError.subname_already_exists)
  add_children_with_check parent capacity
  set_record label_node
      (some (record { parent = parent; label = label_bytes; target = to; state = offered }))
  insert_offer to label_node
  add_sub_name parent label_node

unfoldable pub accept_subname_offer : Env → DomainHash → AccountId → M DomainHash
unfolding has_active_subname
accept_subname_offer env label_node acceptor = do
  canonical ← gets (has_valid_canonical_name env acceptor)
  ensure (not canonical) (refuse RegistryError.target_already_owns_name)
  holds ← gets (has_active_subname acceptor)
  ensure (not holds) (refuse RegistryError.target_already_owns_name)
  rec ← existing_record label_node
  ensure (is_offered rec.state) (refuse RegistryError.subname_not_offered)
  ensure (rec.target == acceptor) (refuse RegistryError.not_subname_target)
  set_record label_node (some (record rec { state = active }))
  remove_offer acceptor label_node
  insert_subname acceptor label_node
  pure rec.parent

unfoldable pub reject_subname_offer : DomainHash → AccountId → M ⊤
reject_subname_offer label_node caller = do
  rec ← existing_record label_node
  ensure (is_offered rec.state) (refuse RegistryError.subname_not_offered)
  ensure (rec.target == caller) (refuse RegistryError.not_subname_target)
  set_record label_node (some (record rec { state = rejected }))
  remove_offer caller label_node

-- The index entry of a revoked record, and the DNS records of one that was live.
revoke_entry : SubnameState → AccountId → DomainHash → M ⊤
revoke_entry offered target label_node = remove_offer target label_node
revoke_entry rejected target label_node = remove_offer target label_node
revoke_entry active target label_node = do
  remove_subname target label_node
  on_resolvers (clear_all_records label_node)

unfoldable pub revoke_subname : DomainHash → DomainHash → M ⊤
unfolding revoke_entry
revoke_subname parent label_node = do
  rec ← existing_record label_node
  set_record label_node none
  ensure (rec.parent == parent) (refuse RegistryError.not_subname_offerer)
  revoke_entry rec.state rec.target label_node
  remove_sub_name parent label_node
  sub_children parent

unfoldable pub release_subname : DomainHash → AccountId → M DomainHash
release_subname label_node by = do
  rec ← existing_record label_node
  set_record label_node none
  ensure (is_active rec.state) (refuse RegistryError.subname_not_active)
  ensure (rec.target == by) (refuse RegistryError.not_subname_target)
  remove_subname by label_node
  remove_sub_name rec.parent label_node
  sub_children rec.parent
  on_resolvers (clear_all_records label_node)
  pure rec.parent

unfoldable pub revoke_pending_offer_for_target : DomainHash → AccountId → M ⊤
unfolding revoke_subname
revoke_pending_offer_for_target label_node target = do
  rec ← existing_record label_node
  ensure (is_offered rec.state) (refuse RegistryError.subname_not_offered)
  ensure (rec.target == target) (refuse RegistryError.not_subname_target)
  revoke_subname rec.parent label_node
