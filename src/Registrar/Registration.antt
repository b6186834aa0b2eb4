-- ===== src/Registrar/Registration.antt =====
-- What `register` of pallets/pns-registrar/src/registrar.rs achieves, and whom it refuses.
use pns_pallets.Base.{ℕ, ◌+◌, ◌≡◌, false, Option, none, some, [], arith, Option-cases, inl, inr}
use pns_pallets.Types.{AccountId, DomainHash, Bytes, RegistrarInfo}
use pns_pallets.Types.Dispatch.{RawOrigin}
use pns_pallets.Types.Storage.{State}
use pns_pallets.Runtime.{after, Env, Result, ok, err, ⊤}
use pns_pallets.Label.{Label, new_with_len, encode_with_node}
use pns_pallets.PriceOracle.{registration_fee}
use pns_pallets.Expiry.{registrar_info, has_valid_canonical_name}
use pns_pallets.Resolvers.{set_ss58_record, set_origin_record}
use pns_pallets.Registry.Offers.{owner_of, has_active_subname}
use pns_pallets.Registry.Owners.{mint_subname-Gives}
use pns_pallets.Registry.Frames.{mint_subname-Follows}
use pns_pallets.Registrar.{primary_name, ensure_nameless}
use pns_pallets.Registrar.Nameless.{ensure_nameless-Nameless}
use pns_pallets.Registrar.Names.{register, register_node, pay_registration}

abbrev pub expire_of : Option RegistrarInfo → Option ℕ
expire_of none = none
expire_of (some info) = some info.expire

-- The name `node` is the owner's and its canonical one until `expire`, and the caller has paid the
-- price of a label of this length.
abbrev pub IsRegistered : Env → AccountId → AccountId → DomainHash → ℕ → ℕ → State → State → Type 0
IsRegistered env caller owner node len expire s s' =
    (owner_of node s' ≡ some owner)
    × (primary_name owner s' ≡ some node)
    × (expire_of (registrar_info node s') ≡ some expire)
    × ((fee : ℕ) × (registration_fee len s.price_oracle ≡ some fee)
        × (env.withdraw caller fee s.balances ≡ ok s'.balances))

abbrev Registers :
    (env : Env) (caller owner : AccountId) (node : DomainHash) (len expire : ℕ) (s : State)
    → Result (⊤ × State)
    → Type 0
Registers env caller owner node len expire s (ok (_, s')) =
    IsRegistered env caller owner node len expire s s'
Registers env caller owner node len expire s (err _) = ⊤

module _ (env : Env) (caller owner official : AccountId) (name : Bytes) where
  register_node-Registers :
      (node : DomainHash) (len expire : ℕ) (s : State)
      → Registers env caller owner node len expire s
          (register_node env caller owner official name node len expire s)
  unfolding register_node owner_of set_ss58_record set_origin_record
  register_node-Registers node len expire s =
      elim (Option-cases (registration_fee len s.price_oracle)) [
        | inl unpriced ↦ ground arith
        | inr (fee, priced) ↦ ground (
          arith,
          mint_subname-Gives env node owner official [] env.base_node 0
              (pay_registration env caller node fee expire len) s,
          mint_subname-Follows env node owner (pay_registration env caller node fee expire len)
              official [] env.base_node 0 s,
        )
      ]

-- A registration that goes through, with no offer to reject, was of a name that is not reserved,
-- for an owner with no valid canonical name and no entry in the index of subnames; the owner then
-- owns the name, as the canonical one, for the maximal duration from now, and the caller has paid
-- the oracle's price for the length of the label.
pub register-IsRegistered :
    (env : Env) (origin : RawOrigin) (name : Bytes) (source : ℕ) (caller owner : AccountId)
    (label : Label) (len : ℕ) (s s' : State)
    → env.ensure_signed origin ≡ ok caller
    → env.lookup source ≡ ok owner
    → new_with_len env name ≡ some (label, len)
    → register env origin name source none s ≡ ok (tt, s')
    → let node = encode_with_node env label env.base_node in
      (s.registrar.reserved_list node ≡ false)
      × (has_valid_canonical_name env owner s ≡ false)
      × (has_active_subname owner s ≡ false)
      × IsRegistered env caller owner node len (env.now + env.max_registration_duration) s s'
unfolding register
register-IsRegistered env origin name source caller owner label len s s' signed found parsed e =
    elim (Option-cases s.registry.official) [
      | inl nobody ↦ absurd (ground arith)
      | inr (official, known) ↦
          let t = after (ensure_nameless env owner s) s in
          ground (
            arith,
            ensure_nameless-Nameless env owner s,
            register_node-Registers env caller owner official name
                (encode_with_node env label env.base_node) len
                (env.now + env.max_registration_duration) t,
          )
    ]
