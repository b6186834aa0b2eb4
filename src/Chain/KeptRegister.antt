-- ===== src/Chain/KeptRegister.antt =====
-- `register` of pallets/pns-registrar/src/registrar.rs and `set_official` of registry.rs keep the
-- registry in order.
use pns_pallets.Base.{
  ℕ, ◌≡◌, ◌≢◌, none, some, false, Option, arith, refl, Option-cases, inl, inr, checked_add, u64_mod,
  [],
}
use pns_pallets.Types.{AccountId, DomainHash, Bytes}
use pns_pallets.Types.Dispatch.{RawOrigin}
use pns_pallets.Types.Storage.{State}
use pns_pallets.Runtime.{Env, ok, after, Result-cases}
use pns_pallets.Label.{new_with_len, encode_with_node, parse_name_to_node}
use pns_pallets.PriceOracle.{registration_fee}
use pns_pallets.Expiry.{clear_registrar_info}
use pns_pallets.Nft
use pns_pallets.Resolvers.{set_ss58_record, set_origin_record}
use pns_pallets.Registry.{sub_children}
use pns_pallets.Registry.Names.{do_burn, mint_subname, set_official, pass_base_node}
use pns_pallets.Registry.Offers.{revoke_subname, revoke_pending_offer_for_target}
use pns_pallets.Registry.Clear.{record_of, record_of-clear_subnames}
use pns_pallets.Registrar.{set_offered_name, ensure_nameless}
use pns_pallets.Registrar.Nameless.{ensure_nameless-Nameless}
use pns_pallets.Registrar.Names.{
  reject_offered, reject_requested, register_node, register, pay_registration,
}
use pns_pallets.Registry.Tidy.{IsTidy, IsTidy-same}
use pns_pallets.Registry.TidyCalls.{do_burn-IsTidy, mint_subname-IsTidy}
use pns_pallets.Registry.TidyOffers.{revoke_pending-IsTidy}
use pns_pallets.Chain.Aside.{pay_registration-PaysAside}
use pns_pallets.Chain.Fresh.{taken_by_subname, node_of}

-- Burning a name or withdrawing an offer makes no record of a subname.
do_burn-no_record :
    (env : Env) (caller : AccountId) (node n : DomainHash) (s s' : State)
    → do_burn env caller node s ≡ ok (tt, s')
    → record_of n s ≡ none
    → record_of n s' ≡ none
unfolding do_burn clear_registrar_info sub_children Nft.burn
do_burn-no_record env caller node n s s' e h = ground (arith, record_of-clear_subnames node n s)

revoke_pending-no_record :
    (node n : DomainHash) (target : AccountId) (s s' : State)
    → revoke_pending_offer_for_target node target s ≡ ok (tt, s')
    → record_of n s ≡ none
    → record_of n s' ≡ none
unfolding revoke_pending_offer_for_target revoke_subname sub_children
revoke_pending-no_record node n target s s' e h = ground arith

module _ (env : Env) (caller : AccountId) (base : DomainHash) where
  reject_offered-IsTidy :
      (rej_node n : DomainHash) (s s' : State)
      → IsTidy base s
      → reject_offered env caller rej_node (s.registrar.offered_names rej_node) s ≡ ok (tt, s')
      → IsTidy base s' × (record_of n s ≡ none → record_of n s' ≡ none)
  unfolding reject_offered
  reject_offered-IsTidy rej_node n s s' v e =
      elim (Option-cases (s.registrar.offered_names rej_node)) [
        | inl absent ↦
            let t = after (revoke_pending_offer_for_target rej_node caller s) s in
            let ran : revoke_pending_offer_for_target rej_node caller s ≡ ok (tt, t) =
              ground (arith, absent, e) in
            (
              IsTidy-same base t s' (ground (arith, absent, e)) (ground (arith, absent, e))
                  (revoke_pending-IsTidy base rej_node caller s t v ran),
              λ h. ground (arith, absent, e, revoke_pending-no_record rej_node n caller s t ran h),
            )
        | inr (offer, present) ↦
            let t = after (set_offered_name rej_node none s) s in
            let u = after (do_burn env caller rej_node t) t in
            let ran : do_burn env caller rej_node t ≡ ok (tt, u) = ground (arith, present, e) in
            (
              IsTidy-same base u s' (ground (arith, present, e)) (ground (arith, present, e)) (
                  do_burn-IsTidy env caller base rej_node t u (IsTidy-same base s t refl refl v)
                    ran),
              λ h. ground (arith, present, e, do_burn-no_record env caller rej_node n t u ran h),
            )
      ]

  reject_requested-IsTidy :
      (name : Option Bytes) (n : DomainHash) (s s' : State)
      → IsTidy base s
      → reject_requested env caller name s ≡ ok (tt, s')
      → IsTidy base s' × (record_of n s ≡ none → record_of n s' ≡ none)
  unfolding reject_requested
  reject_requested-IsTidy none n s s' v e =
      (IsTidy-same base s s' (ground arith) (ground arith) v, λ h. ground arith)
  reject_requested-IsTidy (some name) n s s' v e =
      elim (Option-cases (parse_name_to_node env name env.base_node)) [
        | inl wrong ↦ absurd (ground (arith, wrong, e))
        | inr (rej_node, named) ↦ reject_offered-IsTidy rej_node n s s' v (ground (arith, named, e))
      ]

module _ (env : Env) where
  register_node-IsTidy :
      (caller owner official : AccountId) (name : Bytes) (node label_len expire : ℕ) (s s' : State)
      → IsTidy env.base_node s
      → record_of node s ≡ none
      → node ≢ env.base_node
      → register_node env caller owner official name node label_len expire s ≡ ok (tt, s')
      → IsTidy env.base_node s'
  unfolding register_node set_ss58_record set_origin_record
  register_node-IsTidy caller owner official name node label_len expire s s' v fresh other e =
      elim (Option-cases (registration_fee label_len s.price_oracle)) [
        | inl unpriced ↦ absurd (ground (arith, unpriced, e))
        | inr (fee, priced) ↦
            let pays = pay_registration env caller node fee expire label_len in
            let t = after (mint_subname env official [] env.base_node node owner 0 pays s) s in
            IsTidy-same env.base_node t s' (ground (arith, priced, e)) (ground (arith, priced, e)) (
              mint_subname-IsTidy env env.base_node node owner pays
                (pay_registration-PaysAside env caller node fee expire label_len) official [] s t v
                fresh other (ground (arith, priced, e)))
      ]

  pub register-IsTidy :
      (origin : RawOrigin) (name : Bytes) (owner : ℕ) (reject : Option Bytes) (s s' : State)
      → taken_by_subname env (node_of env name env.base_node) s ≡ false
      → IsTidy env.base_node s
      → register env origin name owner reject s ≡ ok (tt, s')
      → IsTidy env.base_node s'
  unfolding register
  register-IsTidy origin name owner reject s s' free v e =
      elim (Result-cases (env.ensure_signed origin)) [
        | inl (x, failed) ↦ absurd (ground (arith, failed, e))
        | inr (caller, signed) ↦ elim (Result-cases (env.lookup owner)) [
          | inl (x, failed) ↦ absurd (ground (arith, signed, failed, e))
          | inr (to, found) ↦ elim (Result-cases (reject_requested env caller reject s)) [
            | inl (x, failed) ↦ absurd (ground (arith, signed, found, failed, e))
            | inr ((_, t), ran) ↦ elim (Option-cases (new_with_len env name)) [
              | inl wrong ↦ absurd (ground (arith, signed, found, ran, wrong, e))
              | inr ((label, len), parsed) ↦ elim (Option-cases t.registry.official) [
                | inl vacant ↦ absurd (ground (arith, signed, found, ran, parsed, vacant, e))
                | inr (official, held) ↦
                    elim (Option-cases
                      (checked_add u64_mod env.now env.max_registration_duration)) [
                        | inl long ↦
                            absurd (ground (arith, signed, found, ran, parsed, held, long, e))
                        | inr (expire, short) ↦
                            let node = encode_with_node env label env.base_node in
                            let rejected =
                              reject_requested-IsTidy env caller env.base_node reject node s t v
                                ran in
                            let gone : record_of node t ≡ none =
                              rejected.1 (ground (arith, parsed, free)) in
                            let u = after (ensure_nameless env to t) t in
                            let nameless = ensure_nameless-Nameless env to t in
                            register_node-IsTidy caller to official name node len expire u s'
                              (IsTidy-same env.base_node t u (ground (arith, nameless))
                                (ground (arith, nameless)) rejected.0)
                              (ground (arith, nameless, gone))
                              (λ same. ground (arith, parsed, free))
                              (ground (arith, signed, found, ran, parsed, held, short, e))
                      ]
              ]
            ]
          ]
        ]
      ]

  pub set_official-IsTidy :
      (origin : RawOrigin) (official : AccountId) (base : DomainHash) (s s' : State)
      → IsTidy base s
      → set_official env origin official s ≡ ok (tt, s')
      → IsTidy base s'
  unfolding set_official pass_base_node Nft.transfer
  set_official-IsTidy origin official base s s' v e =
      let l = v.linked in
      record {
        linked = record {
          offers = λ b n. ground (arith, l.offers b n);
          below = λ p n. ground (arith, l.below p n);
          holds = λ b n h. ground (arith, l.holds b n);
          distinct = λ p. ground (arith, l.distinct p);
          rooted = λ p n h. ground (arith, l.rooted p n);
          counted = λ p h. ground (arith, l.counted p);
        };
        apart = λ n h. ground (arith, v.apart n);
        flat = λ n. ground (arith, v.flat n);
        based = ground (arith, v.based);
        minted = λ n h. ground (arith, v.minted n);
      }
