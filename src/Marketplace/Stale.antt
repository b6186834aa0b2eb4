-- ===== src/Marketplace/Stale.antt =====
-- Listings that outlive the seller's ownership, of pallets/pns-marketplace/src/lib.rs: a listing stays
-- while its name is released and registered again.
use pns_pallets.Base.{
  ℕ, ◌≡◌, ◌≢◌, Option, none, some, [], arith, ◌∙◌, ap, Option-cases, inl, inr, subst, sym,
}
use pns_pallets.Types.{AccountId, DomainHash, Bytes}
use pns_pallets.Types.Dispatch.{RawOrigin}
use pns_pallets.Types.Storage.{State, Listing}
use pns_pallets.Runtime.{Env, ok, IsOk, after}
use pns_pallets.Nft
use pns_pallets.Label.{Label, new, new_with_len, encode_with_node}
use pns_pallets.PriceOracle.{registration_fee}
use pns_pallets.Resolvers.{set_ss58_record, set_origin_record}
use pns_pallets.Expiry.{clear_registrar_info}
use pns_pallets.Registry.{token_info, sub_children}
use pns_pallets.Registry.Names.{do_burn}
use pns_pallets.Registry.Offers.{owner_of}
use pns_pallets.Registry.Frames.{
  clear_subnames-IsAside, do_transfer-Keeps, mint_subname-Follows, previous_owner,
}
use pns_pallets.Registrar.{primary_name, ensure_nameless, forget_primary_name, set_primary_name}
use pns_pallets.Registrar.Names.{
  register, register_node, pay_registration, reject_requested, release_name, transfer,
}
use pns_pallets.Registrar.Nameless.{ensure_nameless-Nameless}
use pns_pallets.Registrar.Registration.{register-IsRegistered}
use pns_pallets.Registrar.Handover.{release_name_lem, transfer_lem}
use pns_pallets.Marketplace.{buy_name, create_listing, cancel_listing}

stale_listing :
    (env : Env) (origin buying : RawOrigin) (name : Bytes) (recipient : Option AccountId)
    (price expires_at owner : ℕ) (label : Label) (listing : Listing) (s : State)
    → let node = encode_with_node env label env.base_node in
      new env name ≡ some label
      → s.listings node ≡ some listing
      → owner_of node s ≡ some owner
      → listing.seller ≢ owner
      → env.ensure_signed origin ≡ ok owner
      → primary_name owner s ≡ some node
      → (¬ IsOk (buy_name env buying name recipient s))
        × (¬ IsOk (create_listing env origin price expires_at s))
        × IsOk (cancel_listing env origin s)
unfolding buy_name create_listing cancel_listing
stale_listing env origin buying name recipient price expires_at owner label listing s parsed listed
      owned other signed named =
    (λ good. ground (arith, good), λ good. ground (arith, good), ground arith)

module _ (env : Env) where
  transfer-listings :
      (origin : RawOrigin) (source : ℕ) (who to : AccountId) (node : DomainHash) (s s' : State)
      → env.ensure_signed origin ≡ ok who
      → env.lookup source ≡ ok to
      → primary_name who s ≡ some node
      → transfer env origin source s ≡ ok (tt, s')
      → s'.listings ≡ s.listings
  unfolding transfer
  transfer-listings origin source who to node s s' signed found named e =
      let t = after (ensure_nameless env to s) s in
      ground (arith, ensure_nameless-Nameless env to s, do_transfer-Keeps env who to node t)

  do_burn-listings :
      (caller : AccountId) (node : DomainHash) (s s' : State)
      → do_burn env caller node s ≡ ok (tt, s')
      → s'.listings ≡ s.listings
  unfolding do_burn Nft.burn clear_registrar_info sub_children
  do_burn-listings caller node s s' e = ground (arith, clear_subnames-IsAside node s)

  release_name-listings :
      (origin : RawOrigin) (caller : AccountId) (node : DomainHash) (s s' : State)
      → env.ensure_signed origin ≡ ok caller
      → primary_name caller s ≡ some node
      → release_name env origin s ≡ ok (tt, s')
      → s'.listings ≡ s.listings
  unfolding release_name
  release_name-listings origin caller node s s' signed named e =
      let t = after (set_primary_name caller none s) s in
      ground (arith, do_burn-listings caller node t s')

  pay_registration-listings :
      (caller : AccountId) (node : DomainHash) (fee expire len : ℕ) (o : Option AccountId)
      (s s' : State)
      → pay_registration env caller node fee expire len o s ≡ ok (tt, s')
      → s'.listings ≡ s.listings
  unfolding pay_registration forget_primary_name
  pay_registration-listings caller node fee expire len none s s' e = ground arith
  pay_registration-listings caller node fee expire len (some pre) s s' e = ground arith

  register_node-listings :
      (caller owner official : AccountId) (name : Bytes) (node len expire : ℕ) (s s' : State)
      → register_node env caller owner official name node len expire s ≡ ok (tt, s')
      → s'.listings ≡ s.listings
  unfolding register_node set_ss58_record set_origin_record
  register_node-listings caller owner official name node len expire s s' e =
      elim (Option-cases (registration_fee len s.price_oracle)) [
        | inl unpriced ↦ absurd (ground (arith, unpriced, e))
        | inr (fee, priced) ↦
            let pays = pay_registration env caller node fee expire len in
            let o = previous_owner (token_info node s) in
            let u = after (pays o s) s in
            let follows = mint_subname-Follows env node owner pays official [] env.base_node 0 s in
            ground (
              arith,
              priced,
              follows,
              pay_registration-listings caller node fee expire len o s u
                  (ground (arith, priced, e, follows)),
            )
      ]

  register-listings :
      (origin : RawOrigin) (name : Bytes) (owner : ℕ) (s s' : State)
      → register env origin name owner none s ≡ ok (tt, s')
      → s'.listings ≡ s.listings
  unfolding register reject_requested ensure_nameless
  register-listings origin name owner s s' e = grind (arith, e, register_node-listings)

cancelled :
    (env : Env) (origin : RawOrigin) (owner node : ℕ) (s : State)
    → env.ensure_signed origin ≡ ok owner
    → primary_name owner s ≡ some node
    → IsOk (cancel_listing env origin s)
    → (after (cancel_listing env origin s) s).listings node ≡ none
unfolding cancel_listing
cancelled env origin owner node s signed named good = ground (arith, good)

-- When the seller of a listed name transfers it to another account, the listing stays. Then nobody can
-- buy the name, with or without a recipient, and the new owner, whose canonical name it is, can not list
-- it, whatever the price; the new owner can cancel the listing, which is then gone.
pub transfer-stale_listing :
    (env later : Env) (origin origin' buying : RawOrigin) (source : ℕ) (name : Bytes)
    (recipient : Option AccountId) (price expires_at : ℕ) (who to : AccountId) (label : Label)
    (node : DomainHash) (listing : Listing) (s s' : State)
    → env.ensure_signed origin ≡ ok who
    → env.lookup source ≡ ok to
    → primary_name who s ≡ some node
    → s.listings node ≡ some listing
    → listing.seller ≡ who
    → who ≢ to
    → transfer env origin source s ≡ ok (tt, s')
    → new later name ≡ some label
    → encode_with_node later label later.base_node ≡ node
    → later.ensure_signed origin' ≡ ok to
    → (s'.listings node ≡ some listing)
      × (¬ IsOk (buy_name later buying name recipient s'))
      × (¬ IsOk (create_listing later origin' price expires_at s'))
      × IsOk (cancel_listing later origin' s')
      × ((after (cancel_listing later origin' s') s').listings node ≡ none)
transfer-stale_listing env later origin origin' buying source name recipient price expires_at who to
      label node listing s s' signed found named listed sold_by other e parsed same signed' =
    let (_, _, _, owned, canonical) =
      transfer_lem env origin source who to node s s' signed found named e in
    let kept =
      ap (λ f. f node) (transfer-listings env origin source who to node s s' signed found named e)
      ∙ listed in
    let (unsold, unlisted, cancels) =
      stale_listing later origin' buying name recipient price expires_at to label listing s' parsed
        (ap (λ n. s'.listings n) same ∙ kept) (ap (λ n. owner_of n s') same ∙ owned)
        (λ h. other (sym sold_by ∙ h)) signed' (canonical ∙ ap some (sym same)) in
    (kept, unsold, unlisted, cancels, cancelled later origin' to node s' signed' canonical cancels)

-- When the seller of a listed name releases it and the name is registered again for the same account,
-- the listing stands as it was, with its price and its end, and its seller owns the name: it is for
-- sale again.
pub release_name-register :
    (env later : Env) (origin origin' : RawOrigin) (name : Bytes) (caller payer : AccountId)
    (source len : ℕ) (label : Label) (node : DomainHash) (listing : Listing) (s t u : State)
    → env.ensure_signed origin ≡ ok caller
    → primary_name caller s ≡ some node
    → s.listings node ≡ some listing
    → listing.seller ≡ caller
    → release_name env origin s ≡ ok (tt, t)
    → later.ensure_signed origin' ≡ ok payer
    → later.lookup source ≡ ok caller
    → new_with_len later name ≡ some (label, len)
    → encode_with_node later label later.base_node ≡ node
    → register later origin' name source none t ≡ ok (tt, u)
    → (owner_of node t ≡ none)
      × (owner_of node u ≡ some listing.seller)
      × (u.listings node ≡ some listing)
release_name-register env later origin origin' name caller payer source len label node listing s t u
      signed named listed sold_by released signed' found parsed same e =
    let (_, _, _, (owned, canonical, _, _)) =
      register-IsRegistered later origin' name source payer caller label len t u signed' found
        parsed e in
    let kept =
      register-listings later origin' name source t u e
      ∙ release_name-listings env origin caller node s t signed named released in
    (
      (release_name_lem env origin caller node s t signed named released).1,
      subst (λ n. owner_of n u ≡ some listing.seller) same (owned ∙ ap some (sym sold_by)),
      ap (λ f. f node) kept ∙ listed,
    )
