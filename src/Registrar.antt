-- ===== src/Registrar.antt =====
-- The registrar, pallets/pns-registrar/src/registrar.rs: what its calls share. The calls on
-- canonical names are in `Names`, those on subnames in `Subnames`, and the functions that the
-- marketplace and the redeem codes use in `Trade` and `Grant`.
pub mod Names
pub mod Invitations
pub mod Subnames
pub mod Trade
pub mod Grant
pub mod Nameless
pub mod Registration
pub mod Renewal
pub mod Handover
pub mod Stale
pub mod Rejection
pub mod Gifts
use pns_pallets.Base.{ℕ, ◌%◌, Bool, not, Option, none, some, ◌==◌, if◌then◌else◌, u32_mod, min, ◌-◌}
use pns_pallets.Base.Storage.{update, insert, remove}
use pns_pallets.Types.{AccountId, DomainHash, Bytes, RegistrarInfo, OfferedNameRecord}
use pns_pallets.Types.Dispatch.{
  RawOrigin, DispatchError, registrar, RegistrarError, registry, RegistryError, Event,
}
use pns_pallets.Types.Storage.{State, Registrar}
use pns_pallets.Runtime.{
  M, ⊤, Env, ◌>>=◌, ◌>>◌, pure, fail, ensure, ok_or, gets, modify, on_registrar, deposit_event,
  ensure_manager, burn_fee,
}
use pns_pallets.Label.{Label, new_with_len, encode_with_node}
use pns_pallets.Expiry.{still_valid}
use pns_pallets.Registry.Offers.{has_active_subname}

abbrev pub reject : RegistrarError → DispatchError
reject e = registrar e

abbrev pub primary_name : AccountId → State → Option DomainHash
primary_name a s = s.registrar.owner_to_primary_name a

abbrev pub set_primary_name : AccountId → Option DomainHash → M ⊤
set_primary_name a v =
    on_registrar λ r. record r { owner_to_primary_name = update a v r.owner_to_primary_name }

abbrev pub set_info : DomainHash → Option RegistrarInfo → M ⊤
set_info node v = on_registrar λ r. record r { registrar_infos = update node v r.registrar_infos }

abbrev pub set_offered_name : DomainHash → Option OfferedNameRecord → M ⊤
set_offered_name node v =
    on_registrar λ r. record r { offered_names = update node v r.offered_names }

abbrev pub set_reserved : DomainHash → Bool → M ⊤
set_reserved node v = on_registrar λ r. record r { reserved_list = update node v r.reserved_list }

-- The caller's canonical name.
abbrev pub own_name : AccountId → M DomainHash
own_name a s = ok_or (primary_name a s) (reject RegistrarError.no_canonical_name) s

-- `if OwnerToPrimaryName::get(a) == Some(node) { OwnerToPrimaryName::remove(a) }`
abbrev pub names : Option DomainHash → DomainHash → Bool
names none node = Bool.false
names (some n) node = n == node

unfoldable pub forget_primary_name : AccountId → DomainHash → M ⊤
forget_primary_name a node s =
    (if names (primary_name a s) node then set_primary_name a none else pure tt) s

-- `Official::get_official_account()?` of registry.rs.
abbrev pub get_official_account : M AccountId
get_official_account s = ok_or s.registry.official (registry RegistryError.official_not_initiated) s

-- `block_number().saturated_into::<u32>()`
abbrev pub current_block : Env → ℕ
current_block env = min env.block_number (u32_mod - 1)

module _ (env : Env) where
  -- `Label::new_with_len(&name).ok_or(ParseLabelFailed)?`
  abbrev pub parse_label : Bytes → M (Label × ℕ)
  parse_label name = ok_or (new_with_len env name) (reject RegistrarError.parse_label_failed)

  -- The node of a parent's label and of a label below it, as the calls on subnames read them.
  abbrev pub parse_subname : Bytes → Bytes → M (DomainHash × DomainHash)
  parse_subname parent label = do
    (parent_label, _) ← parse_label parent
    let parent_node = encode_with_node env parent_label env.base_node
    (sub_label, _) ← parse_label label
    pure (parent_node, encode_with_node env sub_label parent_node)

  -- A canonical name of the account must have run out, and its entry is then removed.
  abbrev pub clear_expired : AccountId → Option DomainHash → M ⊤
  clear_expired a none = pure tt
  clear_expired a (some existing) = do
    valid ← gets (still_valid env existing)
    ensure (not valid) (reject RegistrarError.already_has_canonical_name)
    set_primary_name a none

  -- One name to an address: no canonical name that is still valid, and no subname.
  unfoldable pub ensure_nameless : AccountId → M ⊤
  ensure_nameless a = do
    existing ← gets (primary_name a)
    clear_expired a existing
    holds ← gets (has_active_subname a)
    ensure (not holds) (reject RegistrarError.already_holds_subdomain)

  unfoldable pub add_reserved : RawOrigin → Bytes → M ⊤
  add_reserved origin name = do
    who ← ensure_manager env origin
    (label, _) ← parse_label name
    let node = encode_with_node env label env.base_node
    set_reserved node Bool.true
    deposit_event (Event.name_reserved node)

  unfoldable pub remove_reserved : RawOrigin → Bytes → M ⊤
  remove_reserved origin name = do
    who ← ensure_manager env origin
    (label, _) ← parse_label name
    let node = encode_with_node env label env.base_node
    set_reserved node Bool.false
    deposit_event (Event.name_un_reserved node)
