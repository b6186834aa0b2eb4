-- ===== src/Chain/KeptSubnames.antt =====
-- The calls on subnames of pallets/pns-registrar/src/registrar.rs keep the registry in order.
use pns_pallets.Base.{ℕ, ◌≡◌, false, arith, Option-cases, inl, inr}
use pns_pallets.Types.{DomainHash, Bytes}
use pns_pallets.Types.Dispatch.{RawOrigin}
use pns_pallets.Types.Storage.{State}
use pns_pallets.Runtime.{Env, ok, after, Result-cases}
use pns_pallets.Label.{new_with_len, encode_with_node}
use pns_pallets.Expiry.{registrar_info}
use pns_pallets.Resolvers.{set_ss58_record}
use pns_pallets.Registrar.{primary_name}
use pns_pallets.Registrar.Subnames.{
  offer_subdomain, accept_subdomain, reject_subdomain, revoke_subdomain, release_subdomain,
}
use pns_pallets.Registry.Offers.{
  offer_subname, accept_subname_offer, reject_subname_offer, revoke_subname, release_subname,
}
use pns_pallets.Registry.Tidy.{IsTidy, IsTidy-same}
use pns_pallets.Registry.TidyOffers.{
  offer_subname-IsTidy, accept_subname_offer-IsTidy, reject_subname_offer-IsTidy,
  revoke_subname-IsTidy, release_subname-IsTidy,
}
use pns_pallets.Chain.Fresh.{Fits, subname_collides}

module _ (env : Env) (base : DomainHash) where
  pub offer_subdomain-IsTidy :
      (origin : RawOrigin) (label : Bytes) (target : ℕ) (s s' : State)
      → subname_collides env origin label s ≡ false
      → Fits s
      → IsTidy base s
      → offer_subdomain env origin label target s ≡ ok (tt, s')
      → IsTidy base s'
  unfolding offer_subdomain
  offer_subdomain-IsTidy origin label target s s' free f v e =
      elim (Result-cases (env.ensure_signed origin)) [
        | inl (x, failed) ↦ absurd (ground (arith, failed, e))
        | inr (caller, signed) ↦ elim (Result-cases (env.lookup target)) [
          | inl (x, failed) ↦ absurd (ground (arith, signed, failed, e))
          | inr (to, found) ↦ elim (Option-cases (primary_name caller s)) [
            | inl missing ↦ absurd (ground (arith, signed, found, missing, e))
            | inr (parent, named) ↦ elim (Option-cases (registrar_info parent s)) [
              | inl unregistered ↦ absurd (ground (arith, signed, found, named, unregistered, e))
              | inr (info, known) ↦ elim (Option-cases (new_with_len env label)) [
                | inl wrong ↦ absurd (ground (arith, signed, found, named, known, wrong, e))
                | inr ((sub, len), parsed) ↦
                    let node = encode_with_node env sub parent in
                    let t = after (offer_subname parent node label to info.capacity s) s in
                    IsTidy-same base t s' (ground (arith, signed, found, named, known, parsed, e))
                      (ground (arith, signed, found, named, known, parsed, e))
                      (offer_subname-IsTidy base parent node label to info.capacity s t
                        (ground (arith, f parent, known))
                        (ground (arith, free, signed, named, parsed)) v
                        (ground (arith, signed, found, named, known, parsed, e)))
              ]
            ]
          ]
        ]
      ]

  -- The calls that name a subname by its parent's label and its own.
  module _ (origin : RawOrigin) (parent label : Bytes) (s s' : State) (v : IsTidy base s) where
    pub accept_subdomain-IsTidy :
        accept_subdomain env origin parent label s ≡ ok (tt, s') → IsTidy base s'
    unfolding accept_subdomain set_ss58_record
    accept_subdomain-IsTidy e = elim (Result-cases (env.ensure_signed origin)) [
      | inl (x, failed) ↦ absurd (ground (arith, failed, e))
      | inr (caller, signed) ↦ elim (Option-cases (new_with_len env parent)) [
        | inl wrong ↦ absurd (ground (arith, signed, wrong, e))
        | inr ((above, len), first) ↦ elim (Option-cases (new_with_len env label)) [
          | inl wrong ↦ absurd (ground (arith, signed, first, wrong, e))
          | inr ((sub, len'), second) ↦
              let node = encode_with_node env sub (encode_with_node env above env.base_node) in
              elim (Result-cases (accept_subname_offer env node caller s)) [
                | inl (x, failed) ↦ absurd (ground (arith, signed, first, second, failed, e))
                | inr ((p, t), ran) ↦
                    IsTidy-same base t s' (ground (arith, signed, first, second, ran, e))
                      (ground (arith, signed, first, second, ran, e))
                      (accept_subname_offer-IsTidy env base node caller p s t v ran)
              ]
        ]
      ]
    ]

    pub reject_subdomain-IsTidy :
        reject_subdomain env origin parent label s ≡ ok (tt, s') → IsTidy base s'
    unfolding reject_subdomain
    reject_subdomain-IsTidy e = elim (Result-cases (env.ensure_signed origin)) [
      | inl (x, failed) ↦ absurd (ground (arith, failed, e))
      | inr (caller, signed) ↦ elim (Option-cases (new_with_len env parent)) [
        | inl wrong ↦ absurd (ground (arith, signed, wrong, e))
        | inr ((above, len), first) ↦ elim (Option-cases (new_with_len env label)) [
          | inl wrong ↦ absurd (ground (arith, signed, first, wrong, e))
          | inr ((sub, len'), second) ↦
              let node = encode_with_node env sub (encode_with_node env above env.base_node) in
              let t = after (reject_subname_offer node caller s) s in
              IsTidy-same base t s' (ground (arith, signed, first, second, e))
                (ground (arith, signed, first, second, e))
                (reject_subname_offer-IsTidy base node caller s t v
                  (ground (arith, signed, first, second, e)))
        ]
      ]
    ]

    pub release_subdomain-IsTidy :
        release_subdomain env origin parent label s ≡ ok (tt, s') → IsTidy base s'
    unfolding release_subdomain
    release_subdomain-IsTidy e = elim (Result-cases (env.ensure_signed origin)) [
      | inl (x, failed) ↦ absurd (ground (arith, failed, e))
      | inr (caller, signed) ↦ elim (Option-cases (new_with_len env parent)) [
        | inl wrong ↦ absurd (ground (arith, signed, wrong, e))
        | inr ((above, len), first) ↦ elim (Option-cases (new_with_len env label)) [
          | inl wrong ↦ absurd (ground (arith, signed, first, wrong, e))
          | inr ((sub, len'), second) ↦
              let node = encode_with_node env sub (encode_with_node env above env.base_node) in
              elim (Result-cases (release_subname node caller s)) [
                | inl (x, failed) ↦ absurd (ground (arith, signed, first, second, failed, e))
                | inr ((p, t), ran) ↦
                    IsTidy-same base t s' (ground (arith, signed, first, second, ran, e))
                      (ground (arith, signed, first, second, ran, e))
                      (release_subname-IsTidy base node caller p s t v ran)
              ]
        ]
      ]
    ]

  pub revoke_subdomain-IsTidy :
      (origin : RawOrigin) (label : Bytes) (s s' : State)
      → IsTidy base s
      → revoke_subdomain env origin label s ≡ ok (tt, s')
      → IsTidy base s'
  unfolding revoke_subdomain
  revoke_subdomain-IsTidy origin label s s' v e = elim (Result-cases (env.ensure_signed origin)) [
    | inl (x, failed) ↦ absurd (ground (arith, failed, e))
    | inr (caller, signed) ↦ elim (Option-cases (primary_name caller s)) [
      | inl missing ↦ absurd (ground (arith, signed, missing, e))
      | inr (parent, named) ↦ elim (Option-cases (new_with_len env label)) [
        | inl wrong ↦ absurd (ground (arith, signed, named, wrong, e))
        | inr ((sub, len), parsed) ↦
            let node = encode_with_node env sub parent in
            let t = after (revoke_subname parent node s) s in
            IsTidy-same base t s' (ground (arith, signed, named, parsed, e))
              (ground (arith, signed, named, parsed, e))
              (revoke_subname-IsTidy base parent node s t v
                (ground (arith, signed, named, parsed, e)))
      ]
    ]
  ]
