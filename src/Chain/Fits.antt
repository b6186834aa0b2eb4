-- ===== src/Chain/Fits.antt =====
-- The capacity of every registration stays a `u32`, whichever call runs:
-- the calls of pallets/pns-registrar/src/registrar.rs that write a registration, and all the others.
use pns_pallets.Base.{ℕ, ◌≡◌, ◌<◌, [], none, some, Option, arith, u32_mod, Option-cases, inl, inr}
use pns_pallets.Types.{AccountId, DomainHash, Bytes}
use pns_pallets.Types.Dispatch.{RawOrigin}
use pns_pallets.Types.Storage.{State}
use pns_pallets.Runtime.{Env, ⊤, Result, ok, err, after, Result-cases}
use pns_pallets.Nft
use pns_pallets.Expiry.{clear_registrar_info}
use pns_pallets.Resolvers.{set_ss58_record, set_origin_record, set_record, set_text}
use pns_pallets.PriceOracle.{registration_fee, set_exchange_rate, set_base_price, set_rent_price}
use pns_pallets.Registry.{sub_children, token_info, add_children_with_check}
use pns_pallets.Registry.Names.{do_burn, burn, set_official, pass_base_node}
use pns_pallets.Registry.Offers.{
  offer_subname, accept_subname_offer, reject_subname_offer, revoke_subname, release_subname,
  revoke_pending_offer_for_target,
}
use pns_pallets.Registry.Frames.{
  clear_subnames-IsAside, mint_subname-Follows, previous_owner, do_transfer-Keeps,
}
use pns_pallets.Registrar.{ensure_nameless, forget_primary_name, add_reserved, remove_reserved}
use pns_pallets.Registrar.Names.{
  reject_offered, reject_requested, register_node, register, renew, transfer, release_name,
  accept_offered_name, pay_registration,
}
use pns_pallets.Registrar.Subnames.{
  offer_subdomain, accept_subdomain, reject_subdomain, revoke_subdomain, release_subdomain,
}
use pns_pallets.Registrar.Trade.{transfer_name, offer_bought_name}
use pns_pallets.Marketplace.{create_listing, cancel_listing, buy_name, deliver}
use pns_pallets.Chain.Fresh.{Fits}
use pns_pallets.Chain.Calls.{RuntimeCall, dispatch}

-- A call that goes through leaves every registration a `u32`.
abbrev FitsAfter : Result (⊤ × State) → Type 0
FitsAfter (ok (_, s')) = Fits s'
FitsAfter (err _) = ⊤

do_burn-Fits :
    (env : Env) (caller : AccountId) (node : DomainHash) (s s' : State)
    → Fits s
    → do_burn env caller node s ≡ ok (tt, s')
    → Fits s'
unfolding do_burn Nft.burn clear_registrar_info sub_children
do_burn-Fits env caller node s s' f e n = ground (arith, f n, clear_subnames-IsAside node s)

ensure_nameless-Fits :
    (env : Env) (a : AccountId) (s s' : State)
    → Fits s
    → ensure_nameless env a s ≡ ok (tt, s')
    → Fits s'
unfolding ensure_nameless
ensure_nameless-Fits env a s s' f e n = ground (arith, f n)

revoke_pending-Fits :
    (node : DomainHash) (target : AccountId) (s s' : State)
    → Fits s
    → revoke_pending_offer_for_target node target s ≡ ok (tt, s')
    → Fits s'
unfolding revoke_pending_offer_for_target revoke_subname sub_children
revoke_pending-Fits node target s s' f e n = ground (arith, f n)

module _ (env : Env) where
  reject_requested-Fits :
      (caller : AccountId) (name : Option Bytes) (s s' : State)
      → Fits s
      → reject_requested env caller name s ≡ ok (tt, s')
      → Fits s'
  unfolding reject_requested reject_offered
  reject_requested-Fits caller none s s' f e n = ground (arith, f n)
  reject_requested-Fits caller (some name) s s' f e n =
      grind (arith, f n, do_burn-Fits env caller, revoke_pending-Fits)

  offer_subdomain-Fits :
      (origin : RawOrigin) (label : Bytes) (target : ℕ) (s s' : State)
      → Fits s
      → offer_subdomain env origin label target s ≡ ok (tt, s')
      → Fits s'
  unfolding offer_subdomain offer_subname add_children_with_check
  offer_subdomain-Fits origin label target s s' f e n = ground (arith, f n)

  renew-Fits :
      (origin : RawOrigin) (s s' : State) → Fits s → renew env origin s ≡ ok (tt, s') → Fits s'
  unfolding renew
  renew-Fits origin s s' f e n = ground (arith, f n)

  transfer-Fits :
      (origin : RawOrigin) (to : ℕ) (s s' : State)
      → Fits s
      → transfer env origin to s ≡ ok (tt, s')
      → Fits s'
  unfolding transfer ensure_nameless
  transfer-Fits origin to s s' f e n = grind (arith, f n, do_transfer-Keeps env)

  burn-Fits :
      (origin : RawOrigin) (name : Bytes) (s s' : State)
      → Fits s
      → burn env origin name s ≡ ok (tt, s')
      → Fits s'
  unfolding burn
  burn-Fits origin name s s' f e n = grind (arith, f n, do_burn-Fits env)

  release_name-Fits :
      (origin : RawOrigin) (s s' : State)
      → Fits s
      → release_name env origin s ≡ ok (tt, s')
      → Fits s'
  unfolding release_name
  release_name-Fits origin s s' f e n = grind (arith, f, do_burn-Fits env)

  buy_name-Fits :
      (origin : RawOrigin) (name : Bytes) (recipient : Option AccountId) (s s' : State)
      → Fits s
      → buy_name env origin name recipient s ≡ ok (tt, s')
      → Fits s'
  unfolding buy_name deliver transfer_name offer_bought_name forget_primary_name ensure_nameless
      set_ss58_record set_origin_record
  buy_name-Fits origin name recipient s s' f e n = grind (arith, f n, do_transfer-Keeps env)

  set_official-Fits :
      (origin : RawOrigin) (official : AccountId) (s s' : State)
      → Fits s
      → set_official env origin official s ≡ ok (tt, s')
      → Fits s'
  unfolding set_official pass_base_node
  set_official-Fits origin official s s' f e n = ground (arith, f n)

  pay_registration-Fits :
      (caller : AccountId) (node : DomainHash) (fee expire label_len : ℕ) (o : Option AccountId)
      (s s' : State)
      → env.default_capacity < u32_mod
      → Fits s
      → pay_registration env caller node fee expire label_len o s ≡ ok (tt, s')
      → Fits s'
  unfolding pay_registration forget_primary_name
  pay_registration-Fits caller node fee expire label_len none s s' bound f e n =
      ground (arith, f n, f node)
  pay_registration-Fits caller node fee expire label_len (some pre) s s' bound f e n =
      ground (arith, f n, f node)

  register_node-Fits :
      (caller owner official : AccountId) (name : Bytes) (node label_len expire : ℕ) (s s' : State)
      → env.default_capacity < u32_mod
      → Fits s
      → register_node env caller owner official name node label_len expire s ≡ ok (tt, s')
      → Fits s'
  unfolding register_node set_ss58_record set_origin_record
  register_node-Fits caller owner official name node label_len expire s s' bound f e n =
      elim (Option-cases (registration_fee label_len s.price_oracle)) [
        | inl unpriced ↦ absurd (ground (arith, unpriced, e))
        | inr (fee, priced) ↦
            let pays = pay_registration env caller node fee expire label_len in
            let o = previous_owner (token_info node s) in
            let u = after (pays o s) s in
            ground (
              arith,
              priced,
              mint_subname-Follows env node owner pays official [] env.base_node 0 s,
              pay_registration-Fits caller node fee expire label_len o s u bound f
                  (ground (
                    arith,
                    priced,
                    e,
                    mint_subname-Follows env node owner pays official [] env.base_node 0 s,
                  ))
                  n,
            )
      ]

  register-Fits :
      (origin : RawOrigin) (name : Bytes) (owner : ℕ) (reject : Option Bytes) (s s' : State)
      → env.default_capacity < u32_mod
      → Fits s
      → register env origin name owner reject s ≡ ok (tt, s')
      → Fits s'
  unfolding register
  register-Fits origin name owner reject s s' bound f e n =
      elim (Result-cases (env.ensure_signed origin)) [
        | inl (x, failed) ↦ absurd (ground (arith, failed, e))
        | inr (caller, signed) ↦ elim (Result-cases (reject_requested env caller reject s)) [
          | inl (x, failed) ↦ absurd (ground (arith, signed, failed, e))
          | inr ((_, t), ran) ↦
              let fits_t = reject_requested-Fits caller reject s t f ran in
              grind (arith, e, signed, ran, fits_t, ensure_nameless-Fits env, register_node-Fits)
        ]
      ]

  -- Every call of the runtime.
  pub dispatch-Fits :
      (origin : RawOrigin) (call : RuntimeCall) (s s' : State)
      → env.default_capacity < u32_mod
      → Fits s
      → dispatch env origin call s ≡ ok (tt, s')
      → Fits s'
  unfolding dispatch set_exchange_rate set_base_price set_rent_price add_reserved remove_reserved
      accept_subdomain reject_subdomain revoke_subdomain release_subdomain accept_subname_offer
      reject_subname_offer revoke_subname release_subname accept_offered_name set_record set_text
      create_listing cancel_listing sub_children ensure_nameless set_ss58_record set_origin_record
  dispatch-Fits origin (RuntimeCall.set_exchange_rate rate) s s' bound f e n = ground (arith, f n)
  dispatch-Fits origin (RuntimeCall.set_base_price prices) s s' bound f e n = ground (arith, f n)
  dispatch-Fits origin (RuntimeCall.set_rent_price prices) s s' bound f e n = ground (arith, f n)
  dispatch-Fits origin (RuntimeCall.burn name) s s' bound f e n = burn-Fits origin name s s' f e n
  dispatch-Fits origin (RuntimeCall.set_official official) s s' bound f e n =
      set_official-Fits origin official s s' f e n
  dispatch-Fits origin (RuntimeCall.add_reserved name) s s' bound f e n = ground (arith, f n)
  dispatch-Fits origin (RuntimeCall.remove_reserved name) s s' bound f e n = ground (arith, f n)
  dispatch-Fits origin (RuntimeCall.register name owner reject) s s' bound f e n =
      register-Fits origin name owner reject s s' bound f e n
  dispatch-Fits origin RuntimeCall.renew s s' bound f e n = renew-Fits origin s s' f e n
  dispatch-Fits origin (RuntimeCall.transfer to) s s' bound f e n =
      transfer-Fits origin to s s' f e n
  dispatch-Fits origin RuntimeCall.release_name s s' bound f e n =
      release_name-Fits origin s s' f e n
  dispatch-Fits origin (RuntimeCall.offer_subdomain label target) s s' bound f e n =
      offer_subdomain-Fits origin label target s s' f e n
  dispatch-Fits origin (RuntimeCall.accept_subdomain parent label) s s' bound f e n =
      ground (arith, f n)
  dispatch-Fits origin (RuntimeCall.reject_subdomain parent label) s s' bound f e n =
      ground (arith, f n)
  dispatch-Fits origin (RuntimeCall.revoke_subdomain label) s s' bound f e n = ground (arith, f n)
  dispatch-Fits origin (RuntimeCall.accept_offered_name name) s s' bound f e n = ground (arith, f n)
  dispatch-Fits origin (RuntimeCall.release_subdomain parent label) s s' bound f e n =
      ground (arith, f n)
  dispatch-Fits origin (RuntimeCall.set_record name t content) s s' bound f e n =
      ground (arith, f n)
  dispatch-Fits origin (RuntimeCall.set_text name k content) s s' bound f e n = ground (arith, f n)
  dispatch-Fits origin (RuntimeCall.create_listing price expires_at) s s' bound f e n =
      ground (arith, f n)
  dispatch-Fits origin RuntimeCall.cancel_listing s s' bound f e n = ground (arith, f n)
  dispatch-Fits origin (RuntimeCall.buy_name name recipient) s s' bound f e n =
      buy_name-Fits origin name recipient s s' f e n
