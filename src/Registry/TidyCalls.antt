-- ===== src/Registry/TidyCalls.antt =====
-- Burns, transfers and mints of names keep the registry in order:
-- `do_burn`, `do_transfer` and `mint_subname` of pallets/pns-registrar/src/registry.rs.
use pns_pallets.Base.{
  ℕ, ◌≡◌, ◌≢◌, refl, false, Option, none, some, List, [], ◌∷◌, arith, elem, length, Option-cases,
  inl, inr, Bool-cases,
}
use pns_pallets.Base.Storage.{elem-del_key, elem-add_key, del_key}
use pns_pallets.Types.{AccountId, DomainHash, Bytes}
use pns_pallets.Types.Storage.{State}
use pns_pallets.Runtime.{after, Env, M, Result, ok, err, ⊤}
use pns_pallets.Nft
use pns_pallets.Expiry.{
  check_expires_registrable, check_expires_renewable, check_expires_useable, clear_registrar_info,
}
use pns_pallets.Resolvers.{set_ss58_record, set_origin_record}
use pns_pallets.Registry.{
  token_info, clear_subnames, sub_children, add_children, add_children_with_check,
}
use pns_pallets.Registry.Names.{do_burn, do_transfer, mint_subname, mint_new, remint}
use pns_pallets.Registry.Offers.{is_root}
use pns_pallets.Registry.Children.{IsLinked}
use pns_pallets.Registry.Clear.{record_of, record_of-clear_subnames, sub_names-clear_subnames}
use pns_pallets.Registry.Tidy.{IsTidy, IsTidy-same, clear_subnames-IsTidy}

pub do_burn-IsTidy :
    (env : Env) (caller : AccountId) (base node : DomainHash) (s s' : State)
    → IsTidy base s
    → do_burn env caller node s ≡ ok (tt, s')
    → IsTidy base s'
unfolding do_burn clear_registrar_info sub_children Nft.burn
do_burn-IsTidy env caller base node s s' v e =
    let w = clear_subnames-IsTidy base node s v in
    let l = w.linked in
    record {
      linked = record {
        offers = λ a n. ground (arith, v.flat node, l.offers a n);
        below = λ p n. ground (arith, v.flat node, l.below p n);
        holds = λ a n h. ground (
          arith,
          v.flat node,
          v.apart node,
          l.holds a n,
          record_of-clear_subnames node node s,
          elem-del_key n node ((clear_subnames node s).registry.account_to_subnames caller),
        );
        distinct = λ p. ground (arith, v.flat node, l.distinct p);
        rooted =
            λ p n h. ground (arith, v.flat node, l.rooted p n, sub_names-clear_subnames node p s);
        counted = λ p h. ground (arith, v.flat node, l.counted p);
      };
      apart = λ n h. ground (arith, v.flat node, w.apart n);
      flat = λ n. ground (arith, v.flat node, w.flat n);
      based = ground (arith, v.flat node, w.based);
      minted = λ n h. ground (arith, v.flat node, w.minted n);
    }

pub do_transfer-IsTidy :
    (env : Env) (from to : AccountId) (base node : DomainHash) (s s' : State)
    → IsTidy base s
    → do_transfer env from to node s ≡ ok (tt, s')
    → IsTidy base s'
unfolding do_transfer Nft.transfer set_ss58_record set_origin_record check_expires_renewable
do_transfer-IsTidy env from to base node s s' v e =
    let w = clear_subnames-IsTidy base node s v in
    let l = w.linked in
    record {
      linked = record {
        offers = λ a n. ground (arith, v.flat node, l.offers a n);
        below = λ p n. ground (arith, v.flat node, l.below p n);
        holds = λ a n h. ground (arith, v.flat node, l.holds a n);
        distinct = λ p. ground (arith, v.flat node, l.distinct p);
        rooted = λ p n h. ground (arith, v.flat node, l.rooted p n);
        counted = λ p h. ground (arith, v.flat node, l.counted p);
      };
      apart = λ n h. ground (arith, v.flat node, w.apart n);
      flat = λ n. ground (arith, v.flat node, w.flat n);
      based = ground (arith, v.flat node, w.based);
      minted = λ n h. ground (arith, v.flat node, w.minted n);
    }

length-eq-zero : (xs : List ℕ) → ((n : ℕ) → elem n xs ≡ false) → length xs ≡ 0
length-eq-zero [] h = refl
length-eq-zero (x ∷ xs) h = absurd (let here = h x in ground arith)

-- A node without a token has no subnames.
nothing_below :
    (s : State) (p : DomainHash)
    → IsLinked s
    → token_info p s ≡ none
    → length (s.registry.sub_names p) ≡ 0
nothing_below s p l new = elim (Bool-cases (is_root (s.registry.runtime_origin p))) [
  | inl named ↦ ground (arith, l.counted p)
  | inr unnamed ↦ length-eq-zero (s.registry.sub_names p) (λ n. ground (arith, l.rooted p n))
]

-- A call that goes through has left the registry and the NFTs alone.
abbrev pub Aside : State → Result (⊤ × State) → Type 0
Aside s (ok (_, s')) = (s'.registry ≡ s.registry) × (s'.nft ≡ s.nft)
Aside s (err _) = ⊤

-- The payments of a mint change neither the registry nor the NFTs.
abbrev pub PaysAside : (Option AccountId → M ⊤) → Type 0
PaysAside pays = (o : Option AccountId) (s : State) → Aside s (pays o s)

module _ (env : Env) (base node : DomainHash) (to : AccountId) (pays : Option AccountId → M ⊤)
    (aside : PaysAside pays) where
  remint-IsTidy :
      (from : AccountId) (s s' : State)
      → IsTidy base s
      → record_of node s ≡ none
      → remint env node from to pays s ≡ ok (tt, s')
      → IsTidy base s'
  unfolding remint Nft.transfer check_expires_registrable
  remint-IsTidy from s s' v fresh e =
      let t = after (pays (some from) s) s in
      let a = aside (some from) s in
      let fresh' : record_of node t ≡ none = ground (arith, a) in
      let w =
        clear_subnames-IsTidy base node t (IsTidy-same base s t (ground arith) (ground arith) v) in
      let l = w.linked in
      record {
        linked = record {
          offers = λ b n. ground (arith, l.offers b n);
          below = λ p n. ground (arith, l.below p n);
          holds = λ b n h. ground (
            arith,
            l.holds b n,
            record_of-clear_subnames node node t,
            elem-del_key n node ((clear_subnames node t).registry.account_to_subnames from),
            elem-add_key n node ((clear_subnames node t).registry.account_to_subnames to),
            elem-add_key n node
                (del_key node ((clear_subnames node t).registry.account_to_subnames to)),
          );
          distinct = λ p. ground (arith, l.distinct p);
          rooted = λ p n h. ground (arith, l.rooted p n);
          counted = λ p h. ground (arith, l.counted p);
        };
        apart = λ n h. ground (arith, w.apart n);
        flat = λ n. ground (arith, w.flat n);
        based = ground (arith, w.based);
        minted = λ n h. ground (arith, w.minted n);
      }

  mint_new-IsTidy :
      (metadata : Bytes) (s s' : State)
      → IsTidy base s
      → record_of node s ≡ none
      → node ≢ base
      → token_info node s ≡ none
      → mint_new env metadata base node to 0 pays s ≡ ok (tt, s')
      → IsTidy base s'
  unfolding mint_new Nft.mint add_children add_children_with_check check_expires_useable
  mint_new-IsTidy metadata s s' v fresh other new e =
      let t = after (pays none s) s in
      let a = aside none s in
      let fresh' : record_of node t ≡ none = ground (arith, a) in
      let w = IsTidy-same base s t (ground (arith, a)) (ground (arith, a)) v in
      let l = w.linked in
      record {
        linked = record {
          offers = λ b n. ground (arith, w.based, l.offers b n);
          below = λ p n. ground (arith, w.based, l.below p n);
          holds = λ b n h. ground (
            arith,
            w.based,
            l.holds b n,
            elem-add_key n node (t.registry.account_to_subnames to),
          );
          distinct = λ p. ground (arith, w.based, l.distinct p);
          rooted = λ p n h. ground (arith, w.based, l.rooted p n);
          counted = λ p h. ground (arith, w.based, l.counted p, nothing_below t node l);
        };
        apart = λ n h. ground (arith, w.based, w.apart n);
        flat = λ n. ground (arith, w.based, w.flat n);
        based = ground (arith, w.based);
        minted = λ n h. ground (arith, w.minted n);
      }

  pub mint_subname-IsTidy :
      (owner : AccountId) (metadata : Bytes) (s s' : State)
      → IsTidy base s
      → record_of node s ≡ none
      → node ≢ base
      → mint_subname env owner metadata base node to 0 pays s ≡ ok (tt, s')
      → IsTidy base s'
  unfolding mint_subname
  mint_subname-IsTidy owner metadata s s' v fresh other e =
      elim (Option-cases (token_info node s)) [
        | inl new ↦
            let t = after (mint_new env metadata base node to 0 pays s) s in
            IsTidy-same base t s' (ground arith) (ground arith)
              (mint_new-IsTidy metadata s t v fresh other new (ground arith))
        | inr (info, old) ↦
            let t = after (remint env node info.owner to pays s) s in
            IsTidy-same base t s' (ground arith) (ground arith)
              (remint-IsTidy info.owner s t v fresh (ground arith))
      ]
