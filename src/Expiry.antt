-- ===== src/Expiry.antt =====
-- The life of a registration, pallets/pns-registrar/src/registrar.rs: the checks that the registry
-- makes of a node through the trait `Registrar`. Moments are `u64`, and `+` on them wraps around.
pub mod Phases
use pns_pallets.Base.{ℕ, Bool, false, Option, none, some, ltb, leb, wrapping_add, u64_mod}
use pns_pallets.Base.Storage.{update}
use pns_pallets.Types.{AccountId, DomainHash, RegistrarInfo}
use pns_pallets.Types.Dispatch.{DispatchError, registrar, RegistrarError}
use pns_pallets.Types.Storage.{State, Registrar}
use pns_pallets.Runtime.{M, ⊤, Env, ◌>>=◌, ◌>>◌, ensure, gets, ok_or, on_registrar}

-- `expire + T::GracePeriod::get()`
abbrev pub grace_end : Env → ℕ → ℕ
grace_end env expire = wrapping_add u64_mod expire env.grace_period

abbrev pub registrar_info : DomainHash → State → Option RegistrarInfo
registrar_info node s = s.registrar.registrar_infos node

abbrev pub existing_info : DomainHash → M RegistrarInfo
existing_info node s =
    ok_or (registrar_info node s) (registrar RegistrarError.not_exist_or_occupied) s

module _ (env : Env) where
  unfoldable pub check_expires_registrable : DomainHash → M ⊤
  check_expires_registrable node = do
    info ← existing_info node
    ensure (ltb (grace_end env info.expire) env.now) (registrar RegistrarError.occupied)

  unfoldable pub check_expires_renewable : DomainHash → M ⊤
  check_expires_renewable node = do
    info ← existing_info node
    ensure (ltb env.now (grace_end env info.expire)) (registrar RegistrarError.not_renewable)

  unfoldable pub check_expires_useable : DomainHash → M ⊤
  check_expires_useable node = do
    info ← existing_info node
    ensure (ltb env.now info.expire) (registrar RegistrarError.not_useable)

  -- `RegistrarInfos::get(node).map(|info| now <= info.expire + grace).unwrap_or(false)`
  unfoldable pub still_valid : DomainHash → State → Bool
  still_valid node s = elim (registrar_info node s) [
    | none ↦ false
    | some info ↦ leb env.now (grace_end env info.expire)
  ]

  unfoldable pub has_valid_canonical_name : AccountId → State → Bool
  unfolding still_valid
  has_valid_canonical_name account s = elim (s.registrar.owner_to_primary_name account) [
    | none ↦ false
    | some node ↦ still_valid node s
  ]

unfoldable pub clear_registrar_info : DomainHash → M ⊤
clear_registrar_info node =
    on_registrar λ r. record r { registrar_infos = update node none r.registrar_infos }
