-- ===== src/Registrar/Nameless.antt =====
-- The check that an account has no name yet, which `register`, `transfer`, `accept_offered_name` and
-- `transfer_name` of pallets/pns-registrar/src/registrar.rs make.
use pns_pallets.Base.{◌≡◌, true, false, arith}
use pns_pallets.Types.{AccountId, DomainHash}
use pns_pallets.Types.Storage.{State}
use pns_pallets.Runtime.{Env, Result, ok, err, IsOk, ⊤}
use pns_pallets.Expiry.{has_valid_canonical_name}
use pns_pallets.Registry.Offers.{has_active_subname}
use pns_pallets.Registry.Held.{held}
use pns_pallets.Registrar.{ensure_nameless}

-- The account has no valid canonical name and no subname; only an expired name is forgotten.
abbrev pub Nameless : Env → AccountId → State → Result (⊤ × State) → Type 0
Nameless env a s (ok (_, s')) =
    (has_valid_canonical_name env a s ≡ false)
    × (has_active_subname a s ≡ false)
    × (s'.registry ≡ s.registry)
    × (s'.nft ≡ s.nft)
    × (s'.balances ≡ s.balances)
    × (s'.price_oracle ≡ s.price_oracle)
    × (s'.listings ≡ s.listings)
    × (s'.redeems ≡ s.redeems)
Nameless env a s (err _) = ⊤

pub ensure_nameless-Nameless :
    (env : Env) (a : AccountId) (s : State) → Nameless env a s (ensure_nameless env a s)
unfolding ensure_nameless has_valid_canonical_name has_active_subname
ensure_nameless-Nameless env a s = ground arith

-- An account with any entry in the index of subnames is refused a name.
pub held-refuses :
    (env : Env) (a : AccountId) (n : DomainHash) (s : State)
    → held a n s ≡ true
    → ¬ IsOk (ensure_nameless env a s)
unfolding ensure_nameless has_active_subname
held-refuses env a n s h good = ground arith
