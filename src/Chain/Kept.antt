-- ===== src/Chain/Kept.antt =====
-- The calls on names and subnames keep the registry in order, pallets/pns-registrar/src/registrar.rs,
-- the call `burn` of registry.rs, and `buy_name` of pallets/pns-marketplace/src/lib.rs.
use pns_pallets.Base.{ℕ, ◌≡◌, Option, none, some, arith, refl, Option-cases, inl, inr}
use pns_pallets.Types.{AccountId, DomainHash, Bytes}
use pns_pallets.Types.Dispatch.{RawOrigin}
use pns_pallets.Types.Storage.{State, Listing}
use pns_pallets.Runtime.{Env, ⊤, Result, ok, after, Result-cases, burn_fee, pay}
use pns_pallets.Label.{new, encode_with_node, parse_name_to_node}
use pns_pallets.Resolvers.{set_ss58_record, set_origin_record}
use pns_pallets.Registry.Names.{do_transfer, burn}
use pns_pallets.Registrar.{primary_name, set_primary_name, forget_primary_name, ensure_nameless}
use pns_pallets.Registrar.Nameless.{ensure_nameless-Nameless}
use pns_pallets.Registrar.Names.{transfer, release_name}
use pns_pallets.Registrar.Trade.{transfer_name, offer_bought_name}
use pns_pallets.Marketplace.{buy_name, deliver, set_listing, protocol_fee}
use pns_pallets.Registry.Tidy.{IsTidy, IsTidy-same}
use pns_pallets.Registry.TidyCalls.{Aside, do_burn-IsTidy, do_transfer-IsTidy}

-- A state that has come from another by what leaves the registry and the NFTs alone.
pub Aside-IsTidy :
    (base : DomainHash) (s s' : State) (r : Result (⊤ × State))
    → Aside s r
    → r ≡ ok (tt, s')
    → IsTidy base s
    → IsTidy base s'
Aside-IsTidy base s s' r a e v = IsTidy-same base s s' (ground arith) (ground arith) v

module _ (env : Env) (base : DomainHash) where
  pub burn-IsTidy :
      (origin : RawOrigin) (name : Bytes) (s s' : State)
      → IsTidy base s
      → burn env origin name s ≡ ok (tt, s')
      → IsTidy base s'
  unfolding burn
  burn-IsTidy origin name s s' v e = elim (Result-cases (env.ensure_signed origin)) [
    | inl (x, failed) ↦ absurd (ground (arith, failed, e))
    | inr (caller, signed) ↦ elim (Option-cases (parse_name_to_node env name env.base_node)) [
      | inl wrong ↦ absurd (ground (arith, signed, wrong, e))
      | inr (node, named) ↦
          do_burn-IsTidy env caller base node s s' v (ground (arith, signed, named, e))
    ]
  ]

  pub release_name-IsTidy :
      (origin : RawOrigin) (s s' : State)
      → IsTidy base s
      → release_name env origin s ≡ ok (tt, s')
      → IsTidy base s'
  unfolding release_name
  release_name-IsTidy origin s s' v e = elim (Result-cases (env.ensure_signed origin)) [
    | inl (x, failed) ↦ absurd (ground (arith, failed, e))
    | inr (caller, signed) ↦ elim (Option-cases (primary_name caller s)) [
      | inl missing ↦ absurd (ground (arith, signed, missing, e))
      | inr (node, named) ↦
          let t = after (set_primary_name caller none s) s in
          do_burn-IsTidy env caller base node t s' (IsTidy-same base s t refl refl v)
            (ground (arith, signed, named, e))
    ]
  ]

  pub transfer-IsTidy :
      (origin : RawOrigin) (to : ℕ) (s s' : State)
      → IsTidy base s
      → transfer env origin to s ≡ ok (tt, s')
      → IsTidy base s'
  unfolding transfer
  transfer-IsTidy origin to s s' v e = elim (Result-cases (env.ensure_signed origin)) [
    | inl (x, failed) ↦ absurd (ground (arith, failed, e))
    | inr (who, signed) ↦ elim (Result-cases (env.lookup to)) [
      | inl (x, failed) ↦ absurd (ground (arith, signed, failed, e))
      | inr (target, found) ↦ elim (Option-cases (primary_name who s)) [
        | inl missing ↦ absurd (ground (arith, signed, found, missing, e))
        | inr (node, named) ↦
            let t = after (ensure_nameless env target s) s in
            let u = after (do_transfer env who target node t) t in
            let nameless = ensure_nameless-Nameless env target s in
            let w = IsTidy-same base s t (ground (arith, nameless)) (ground (arith, nameless)) v in
            IsTidy-same base u s' (ground (arith, signed, found, named, e))
              (ground (arith, signed, found, named, e))
              (do_transfer-IsTidy env who target base node t u w
                (ground (arith, signed, found, named, e)))
      ]
    ]
  ]

  transfer_name-IsTidy :
      (from to : AccountId) (node : DomainHash) (s s' : State)
      → IsTidy base s
      → transfer_name env from to node s ≡ ok (tt, s')
      → IsTidy base s'
  unfolding transfer_name forget_primary_name
  transfer_name-IsTidy from to node s s' v e =
      let t = after (ensure_nameless env to s) s in
      let u = after (do_transfer env from to node t) t in
      let nameless = ensure_nameless-Nameless env to s in
      let w = IsTidy-same base s t (ground (arith, nameless)) (ground (arith, nameless)) v in
      IsTidy-same base u s' (ground (arith, e)) (ground (arith, e))
        (do_transfer-IsTidy env from to base node t u w (ground (arith, e)))

  offer_bought_name-IsTidy :
      (seller buyer recipient : AccountId) (node : DomainHash) (s s' : State)
      → IsTidy base s
      → offer_bought_name env seller buyer recipient node s ≡ ok (tt, s')
      → IsTidy base s'
  unfolding offer_bought_name forget_primary_name
  offer_bought_name-IsTidy seller buyer recipient node s s' v e =
      let u = after (do_transfer env seller recipient node s) s in
      IsTidy-same base u s' (ground (arith, e)) (ground (arith, e))
        (do_transfer-IsTidy env seller recipient base node s u v (ground (arith, e)))

  deliver-IsTidy :
      (buyer : AccountId) (listing : Listing) (node : DomainHash) (fee : ℕ)
      (recipient : Option AccountId) (s s' : State)
      → IsTidy base s
      → deliver env buyer listing node fee recipient s ≡ ok (tt, s')
      → IsTidy base s'
  unfolding deliver set_ss58_record set_origin_record
  deliver-IsTidy buyer listing node fee none s s' v e =
      let t = after (transfer_name env listing.seller buyer node s) s in
      IsTidy-same base t s' (ground (arith, e)) (ground (arith, e))
        (transfer_name-IsTidy listing.seller buyer node s t v (ground (arith, e)))
  deliver-IsTidy buyer listing node fee (some recip) s s' v e =
      let t = after (offer_bought_name env listing.seller buyer recip node s) s in
      IsTidy-same base t s' (ground (arith, e)) (ground (arith, e))
        (offer_bought_name-IsTidy listing.seller buyer recip node s t v (ground (arith, e)))

  pub buy_name-IsTidy :
      (origin : RawOrigin) (name : Bytes) (recipient : Option AccountId) (s s' : State)
      → IsTidy base s
      → buy_name env origin name recipient s ≡ ok (tt, s')
      → IsTidy base s'
  unfolding buy_name
  buy_name-IsTidy origin name recipient s s' v e = elim (Result-cases (env.ensure_signed origin)) [
    | inl (x, failed) ↦ absurd (ground (arith, failed, e))
    | inr (buyer, signed) ↦ elim (Option-cases (new env name)) [
      | inl wrong ↦ absurd (ground (arith, signed, wrong, e))
      | inr (label, named) ↦
          let node = encode_with_node env label env.base_node in
          elim (Option-cases (s.listings node)) [
            | inl missing ↦ absurd (ground (arith, signed, named, missing, e))
            | inr (listing, listed) ↦
                let fee = protocol_fee env listing.price in
                let t = after (pay env buyer listing.seller listing.price s) s in
                let u = after (burn_fee env listing.seller fee t) t in
                let w = after (set_listing node none u) u in
                deliver-IsTidy buyer listing node fee recipient w s'
                  (IsTidy-same base s w (ground arith) (ground arith) v)
                  (ground (arith, signed, named, listed, e))
          ]
    ]
  ]
