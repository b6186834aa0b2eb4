-- ===== src/Chain/Apis/Resolving.antt =====
-- What the queries of runtime/src/apis.rs tell of a name, and who may use it.
use pns_pallets.Base.{
  ℕ, ◌≡◌, ◌<◌, Bool, true, false, Option, none, some, is_some, ◌==◌, arith, ◌+◌, Option-cases, inl,
  inr,
}
use pns_pallets.Types.{AccountId, DomainHash, Bytes}
use pns_pallets.Types.Dispatch.{RawOrigin}
use pns_pallets.Types.Storage.{State}
use pns_pallets.Runtime.{Env, ok}
use pns_pallets.Label.{Label, new_with_len, encode_with_node}
use pns_pallets.Expiry.{registrar_info, check_expires_useable}
use pns_pallets.Registry.{token_info, verify, verify_with_owner}
use pns_pallets.Registry.Offers.{owner_of}
use pns_pallets.Registrar.Names.{register}
use pns_pallets.Registrar.Registration.{register-IsRegistered}
use pns_pallets.Types.{OfferedNameRecord}
use pns_pallets.Base.{[]}
use pns_pallets.Runtime.{after}
use pns_pallets.PriceOracle.{registration_fee}
use pns_pallets.Resolvers.{set_ss58_record, set_origin_record}
use pns_pallets.Registry.Frames.{mint_subname-Follows, previous_owner}
use pns_pallets.Registrar.{ensure_nameless, forget_primary_name}
use pns_pallets.Registrar.Names.{register_node, reject_requested, pay_registration}
use pns_pallets.Chain.Configs.{check_node_useable}
use pns_pallets.Chain.Apis.{NameRecord, get_info, resolve_name}

-- The account is the one that the query names as owner.
abbrev pub is_reported : AccountId → Option NameRecord → Bool
is_reported a none = false
is_reported a (some r) = a == r.owner

-- Of a registered name with no gift pending, the queries by node and by name tell the owner exactly
-- as long as the resolvers let that account set the name's records, and no other account may.
pub get_info-useable :
    (env : Env) (a : AccountId) (name : Bytes) (label : Label) (len : ℕ) (s : State)
    → new_with_len env name ≡ some (label, len)
    → let node = encode_with_node env label env.base_node in
      is_some (registrar_info node s) ≡ true
      → is_some (s.registrar.offered_names node) ≡ false
      → (is_reported a (get_info env node s) ≡ check_node_useable env node a s)
        × (is_reported a (resolve_name env name s) ≡ check_node_useable env node a s)
unfolding get_info resolve_name check_node_useable verify verify_with_owner check_expires_useable
get_info-useable env a name label len s parsed known settled = ground arith

-- A registration leaves the gifts that are pending.
module _ (env : Env) where
  pay_registration-offered :
      (caller : AccountId) (node : DomainHash) (fee expire len : ℕ) (o : Option AccountId)
      (s s' : State)
      → pay_registration env caller node fee expire len o s ≡ ok (tt, s')
      → s'.registrar.offered_names ≡ s.registrar.offered_names
  unfolding pay_registration forget_primary_name
  pay_registration-offered caller node fee expire len none s s' e = ground arith
  pay_registration-offered caller node fee expire len (some pre) s s' e = ground arith

  register_node-offered :
      (caller owner official : AccountId) (name : Bytes) (node len expire : ℕ) (s s' : State)
      → register_node env caller owner official name node len expire s ≡ ok (tt, s')
      → s'.registrar.offered_names ≡ s.registrar.offered_names
  unfolding register_node set_ss58_record set_origin_record
  register_node-offered caller owner official name node len expire s s' e =
      elim (Option-cases (registration_fee len s.price_oracle)) [
        | inl unpriced ↦ absurd (ground (arith, unpriced, e))
        | inr (fee, priced) ↦
            let pays = pay_registration env caller node fee expire len in
            let o = previous_owner (token_info node s) in
            let u = after (pays o s) s in
            let follows = mint_subname-Follows env node owner pays official [] env.base_node 0 s in
            ground (
              arith,
              priced,
              follows,
              pay_registration-offered caller node fee expire len o s u
                  (ground (arith, priced, e, follows)),
            )
      ]

  register-offered :
      (origin : RawOrigin) (name : Bytes) (owner : ℕ) (s s' : State)
      → register env origin name owner none s ≡ ok (tt, s')
      → s'.registrar.offered_names ≡ s.registrar.offered_names
  unfolding register reject_requested ensure_nameless
  register-offered origin name owner s s' e = grind (arith, e, register_node-offered)

-- The query names this owner, with this expiry.
abbrev pub Reports : AccountId → ℕ → Option NameRecord → Type 0
Reports owner expire none = ⊥
Reports owner expire (some r) = (r.owner ≡ owner) × (r.expire ≡ expire)

-- What the query tells, whether a gift of the name was pending or not.
abbrev pub Told : AccountId → ℕ → Option OfferedNameRecord → Option NameRecord → Type 0
Told owner expire none r = Reports owner expire r
Told owner expire (some gift) r = r ≡ none

-- After a registration that goes through, with no offer to reject and for a positive duration, the
-- query by name reports the owner and the end of the registration, except that it reports nothing if
-- a gift of the name was pending before: the registration leaves it.
pub register-resolve_name :
    (env : Env) (origin : RawOrigin) (name : Bytes) (source : ℕ) (caller owner : AccountId)
    (label : Label) (len : ℕ) (s s' : State)
    → env.ensure_signed origin ≡ ok caller
    → env.lookup source ≡ ok owner
    → new_with_len env name ≡ some (label, len)
    → 0 < env.max_registration_duration
    → register env origin name source none s ≡ ok (tt, s')
    → Told owner
        (env.now + env.max_registration_duration)
        (s.registrar.offered_names (encode_with_node env label env.base_node))
        (resolve_name env name s')
unfolding resolve_name owner_of
register-resolve_name env origin name source caller owner label len s s' signed found parsed long
      e =
    let registered =
      register-IsRegistered env origin name source caller owner label len s s' signed found parsed
        e in
    let offered = register-offered env origin name source s s' e in
    elim (Option-cases (s.registrar.offered_names (encode_with_node env label env.base_node))) [
      | inl settled ↦ ground (arith, settled, registered, offered)
      | inr (gift, pending) ↦ ground (arith, pending, parsed, offered)
    ]
