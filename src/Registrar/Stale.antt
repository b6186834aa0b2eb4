-- ===== src/Registrar/Stale.antt =====
-- What is left of a name's former owner after `burn` of pallets/pns-registrar/src/registry.rs.
use pns_pallets.Base.{ℕ, ◌+◌, ◌≡◌, ◌≢◌, none, some, [], arith, Option-cases, inl, inr}
use pns_pallets.Types.{AccountId, DomainHash, Bytes}
use pns_pallets.Types.Dispatch.{RawOrigin}
use pns_pallets.Types.Storage.{State}
use pns_pallets.Runtime.{after, Env, Result, ok, err, ⊤}
use pns_pallets.Nft
use pns_pallets.Label.{Label, parse_name_to_node, new_with_len, encode_with_node}
use pns_pallets.Expiry.{clear_registrar_info}
use pns_pallets.Resolvers.{set_ss58_record, set_origin_record}
use pns_pallets.Registry.{sub_children}
use pns_pallets.Registry.Names.{do_burn, burn}
use pns_pallets.Registry.Offers.{owner_of}
use pns_pallets.Registry.Frames.{clear_subnames-IsAside, mint_subname-Follows}
use pns_pallets.Registrar.{primary_name, ensure_nameless}
use pns_pallets.PriceOracle.{registration_fee}
use pns_pallets.Registrar.Nameless.{ensure_nameless-Nameless}
use pns_pallets.Registrar.Names.{register, register_node, pay_registration}
use pns_pallets.Registrar.Registration.{register-IsRegistered}

-- The call `burn` of a canonical name destroys the name and its registration, but leaves it the
-- canonical name of the account that burned it.
pub burn-primary_name :
    (env : Env) (origin : RawOrigin) (name : Bytes) (caller a : AccountId) (node : DomainHash)
    (s s' : State)
    → env.ensure_signed origin ≡ ok caller
    → parse_name_to_node env name env.base_node ≡ some node
    → burn env origin name s ≡ ok (tt, s')
    → (owner_of node s ≡ some caller)
      × (owner_of node s' ≡ none)
      × (primary_name a s' ≡ primary_name a s)
unfolding burn do_burn owner_of Nft.burn clear_registrar_info sub_children
burn-primary_name env origin name caller a node s s' signed parsed e =
    (ground arith, ground arith, ground (arith, clear_subnames-IsAside node s))

abbrev KeepsName : AccountId → State → Result (⊤ × State) → Type 0
KeepsName a s (ok (_, s')) = primary_name a s' ≡ primary_name a s
KeepsName a s (err _) = ⊤

ensure_nameless-primary_name :
    (env : Env) (owner a : AccountId) (s : State)
    → a ≢ owner
    → KeepsName a s (ensure_nameless env owner s)
unfolding ensure_nameless
ensure_nameless-primary_name env owner a s other = ground arith

-- The account keeps its canonical name while a registration of the name by another runs, if the
-- name had no token.
register_node-primary_name :
    (env : Env) (caller owner official a : AccountId) (name : Bytes) (node : DomainHash)
    (len expire : ℕ) (s s' : State)
    → owner_of node s ≡ none
    → a ≢ owner
    → register_node env caller owner official name node len expire s ≡ ok (tt, s')
    → primary_name a s' ≡ primary_name a s
unfolding register_node owner_of set_ss58_record set_origin_record
register_node-primary_name env caller owner official a name node len expire s s' free other e =
    elim (Option-cases (registration_fee len s.price_oracle)) [
      | inl unpriced ↦ absurd (ground arith)
      | inr (fee, priced) ↦ ground (
        arith,
        mint_subname-Follows env node owner (pay_registration env caller node fee expire len)
            official [] env.base_node 0 s,
      )
    ]

-- When an account burns its canonical name by `burn` and another account then registers the name,
-- it is owned by its new owner, as the canonical name, and is still the canonical name of the
-- account that burned it, by which the calls on a name's subnames and its renewal go.
pub burn-register :
    (env later : Env) (origin origin' : RawOrigin) (name name' : Bytes)
    (caller caller' owner : AccountId) (source len : ℕ) (label : Label) (node : DomainHash)
    (s t u : State)
    → env.ensure_signed origin ≡ ok caller
    → parse_name_to_node env name env.base_node ≡ some node
    → primary_name caller s ≡ some node
    → burn env origin name s ≡ ok (tt, t)
    → later.ensure_signed origin' ≡ ok caller'
    → later.lookup source ≡ ok owner
    → new_with_len later name' ≡ some (label, len)
    → encode_with_node later label later.base_node ≡ node
    → caller ≢ owner
    → register later origin' name' source none t ≡ ok (tt, u)
    → (owner_of node u ≡ some owner)
      × (primary_name owner u ≡ some node)
      × (primary_name caller u ≡ some node)
unfolding register owner_of
burn-register env later origin origin' name name' caller caller' owner source len label node s t u
      signed parsed named burned signed' found parsed' same other e =
    let gone = burn-primary_name env origin name caller caller node s t signed parsed burned in
    let (_, _, _, (owned, canonical, _, _)) =
      register-IsRegistered later origin' name' source caller' owner label len t u signed' found
        parsed' e in
    elim (Option-cases t.registry.official) [
      | inl nobody ↦ absurd (ground arith)
      | inr (official, known) ↦
          let v = after (ensure_nameless later owner t) t in
          (
            ground arith,
            ground arith,
            ground (
              arith,
              gone,
              ensure_nameless-primary_name later owner caller t,
              ensure_nameless-Nameless later owner t,
              register_node-primary_name later caller' owner official caller name' node len
                  (later.now + later.max_registration_duration) v u,
            ),
          )
    ]
