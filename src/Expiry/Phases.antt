-- ===== src/Expiry/Phases.antt =====
-- The phases of a registration: usable, in grace, free for registration again.
use pns_pallets.Base.{◌+◌, ◌<◌, ◌≤◌, ◌≡◌, ◌↔◌, true, false, some, arith, u64_mod}
use pns_pallets.Types.{DomainHash, RegistrarInfo}
use pns_pallets.Types.Storage.{State}
use pns_pallets.Runtime.{Env, IsOk}
use pns_pallets.Expiry.{
  registrar_info, check_expires_registrable, check_expires_renewable, check_expires_useable,
  still_valid,
}

-- For a node with an info whose grace period does not wrap around: it is usable before `expire`,
-- renewable before the end of the grace period, valid up to and with that end, and free for
-- registration exactly when it is no longer valid.
pub expiry_phases :
    (env : Env) (node : DomainHash) (info : RegistrarInfo) (s : State)
    → registrar_info node s ≡ some info
    → info.expire + env.grace_period < u64_mod
    → (IsOk (check_expires_useable env node s) ↔ (env.now < info.expire))
      × (IsOk (check_expires_renewable env node s) ↔ (env.now < info.expire + env.grace_period))
      × ((still_valid env node s ≡ true) ↔ (env.now ≤ info.expire + env.grace_period))
      × (IsOk (check_expires_registrable env node s) ↔ (still_valid env node s ≡ false))
unfolding check_expires_registrable check_expires_renewable check_expires_useable still_valid
expiry_phases env node info s e bound = (
  (λ h. ground arith, λ h. ground arith),
  (λ h. ground arith, λ h. ground arith),
  (λ h. ground arith, λ h. ground arith),
  (λ h. ground arith, λ h. ground arith),
)
