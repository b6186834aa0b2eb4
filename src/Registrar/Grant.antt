-- ===== src/Registrar/Grant.antt =====
-- `for_redeem_code` of pallets/pns-registrar/src/registrar.rs: a name without a fee.
use pns_pallets.Base.{
  ℕ, ◌%◌, Option, none, some, [], length, min, ltb, checked_add, wrapping_add, u64_mod, u32_mod,
}
use pns_pallets.Types.{AccountId, DomainHash, Bytes, RegistrarInfo}
use pns_pallets.Types.Dispatch.{overflow, Event}
use pns_pallets.Runtime.{M, ⊤, Env, ◌>>=◌, ◌>>◌, ensure, ok_or, gets, deposit_event}
use pns_pallets.Label.{Label, encode_with_node}
use pns_pallets.Expiry.{grace_end, registrar_info}
use pns_pallets.Resolvers.{set_origin_record}
use pns_pallets.Registry.Names.{mint_subname}
use pns_pallets.Registrar.{
  set_primary_name, set_info, forget_primary_name, get_official_account, current_block,
  ensure_nameless,
}
use pns_pallets.Registrar.Names.{forget_pre_owner}

abbrev granted_info : Env → ℕ → ℕ → Option RegistrarInfo → RegistrarInfo
granted_info env expire label_len none = record {
  expire = expire;
  capacity = env.default_capacity;
  register_fee = 0;
  label_len = label_len;
  last_block = current_block env;
}
granted_info env expire label_len (some info) = record info {
  expire = expire;
  register_fee = 0;
  last_block = current_block env;
}

module _ (env : Env) where
  -- The closure that `for_redeem_code` hands to `mint_subname`.
  unfoldable pub grant_registration : DomainHash → ℕ → ℕ → Option AccountId → M ⊤
  unfolding forget_primary_name
  grant_registration label_node expire label_len maybe_pre_owner = do
    forget_pre_owner maybe_pre_owner label_node
    info ← gets (registrar_info label_node)
    set_info label_node (some (granted_info env expire (label_len % u32_mod) info))

  unfoldable pub for_redeem_code : Bytes → AccountId → ℕ → Label → M ⊤
  unfolding grant_registration
  for_redeem_code name to duration label = do
    official ← get_official_account
    let duration' = min duration env.max_registration_duration
    expire ← ok_or (checked_add u64_mod env.now duration') overflow
    ensure (ltb (wrapping_add u64_mod env.now env.grace_period) (grace_end env expire)) overflow
    ensure_nameless env to
    let label_node = encode_with_node env label env.base_node
    mint_subname env official [] env.base_node label_node to 0
        (grant_registration label_node expire (length name))
    set_primary_name to (some label_node)
    set_origin_record env label_node env.parent_hash
    deposit_event (Event.name_registered name label_node to expire 0)
