-- ===== src/Origin.antt =====
-- The managers and the switch of the registrar, pallets/pns-registrar/src/origin.rs.
pub mod Managers
use pns_pallets.Base.{ℕ, Bool, true, false, List, [], ◌∷◌, if◌then◌else◌}
use pns_pallets.Base.Storage.{update}
use pns_pallets.Types.{AccountId}
use pns_pallets.Types.Dispatch.{RawOrigin, root, signed, bad_origin, Event}
use pns_pallets.Types.Storage.{State, Origin}
use pns_pallets.Runtime.{Result, ok, err, M, ⊤, Env, ◌>>=◌, ◌>>◌, lift, modify, deposit_event}

-- `try_origin` and the error of `ensure_origin`.
unfoldable pub ensure_origin : RawOrigin → State → Result AccountId
ensure_origin (signed who) s = if s.origin.origins who then ok who else err bad_origin
ensure_origin root s = err bad_origin
ensure_origin RawOrigin.none s = err bad_origin

-- `IsRegistrarOpen::is_open`
unfoldable pub is_open : State → Bool
is_open s = s.origin.is_registrar_open

-- The genesis build: the configured managers, and the registrar open.
pub genesis_build : List AccountId → Origin
genesis_build [] = record { origins = λ _. false; is_registrar_open = true }
genesis_build (a ∷ rest) =
    let built = genesis_build rest in record built { origins = update a true built.origins }

abbrev pub managed : RawOrigin → M AccountId
managed origin s = lift (ensure_origin origin s) s

unfoldable pub set_registrar_open : RawOrigin → Bool → M ⊤
set_registrar_open origin open_now = do
  who ← managed origin
  modify λ s. record s { origin = record (s.origin) { is_registrar_open = open_now } }

set_account : AccountId → Bool → M ⊤
set_account account approved = do
  modify λ s. record s {
    origin = record (s.origin) { origins = update account approved s.origin.origins };
  }
  deposit_event (if approved then Event.added_origin account else Event.removed_origin account)

module _ (env : Env) where
  unfoldable pub set_origin : RawOrigin → ℕ → Bool → M ⊤
  unfolding set_account
  set_origin origin account approved = do
    who ← managed origin
    account ← lift (env.lookup account)
    set_account account approved

  unfoldable pub set_origin_for_root : RawOrigin → ℕ → Bool → M ⊤
  unfolding set_account
  set_origin_for_root origin account approved = do
    lift (env.ensure_root origin)
    account ← lift (env.lookup account)
    set_account account approved
