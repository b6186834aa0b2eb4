-- ===== src/Registry/Tidy.antt =====
-- The registry of a chain whose names are all root names and whose subnames are all delegated:
-- clearing, burning and transferring a name keep it in order. pallets/pns-registrar/src/registry.rs.
use pns_pallets.Base.{
  ◌≡◌, refl, Bool, true, false, Option, none, some, is_some, ◌||◌, ◌==◌, List, [], ◌∷◌, arith, elem,
  if◌then◌else◌,
}
use pns_pallets.Base.Storage.{contains_pair, elem-del_key, del_key}
use pns_pallets.Types.{AccountId, DomainHash, DomainTracing, root, runtime_origin}
use pns_pallets.Types.Storage.{State}
use pns_pallets.Registry.{token_info, clear_child, clear_children, clear_subnames}
use pns_pallets.Registry.Children.{IsLinked, is_held_by}
use pns_pallets.Registry.Clear.{
  record_of, clear_children-OffersMatch, record_of-clear_children, sub_names-clear_children,
}

abbrev pub is_child : Option DomainTracing → Bool
is_child none = false
is_child (some root) = false
is_child (some (runtime_origin _)) = true

-- The indexes are in step, no subname is a name of the tree, every name of the tree is a root name, the
-- base node is none of them, and only they and the base node have tokens.
pub record IsTidy (base : DomainHash) (s : State) : Type 0 where
  pub linked : IsLinked s
  pub apart : (n : DomainHash) → is_some (record_of n s) ≡ true → s.registry.runtime_origin n ≡ none
  pub flat : (n : DomainHash) → is_child (s.registry.runtime_origin n) ≡ false
  pub based : s.registry.runtime_origin base ≡ none
  pub minted :
      (n : DomainHash)
      → is_some (token_info n s) ≡ true
      → (is_some (s.registry.runtime_origin n) || n == base) ≡ true

-- Whatever leaves the registry and the NFTs alone.
pub IsTidy-same :
    (base : DomainHash) (s s' : State)
    → s'.registry ≡ s.registry
    → s'.nft ≡ s.nft
    → IsTidy base s
    → IsTidy base s'
IsTidy-same base s s' same_registry same_nft v = record {
  linked = record {
    offers = λ a n. ground (arith, v.linked.offers a n);
    below = λ p n. ground (arith, v.linked.below p n);
    holds = λ a n h. ground (arith, v.linked.holds a n);
    distinct = λ p. ground (arith, v.linked.distinct p);
    rooted = λ p n h. ground (arith, v.linked.rooted p n);
    counted = λ p h. ground (arith, v.linked.counted p);
  };
  apart = λ n h. ground (arith, v.apart n);
  flat = λ n. ground (arith, v.flat n);
  based = ground (arith, v.based);
  minted = λ n h. ground (arith, v.minted n);
}

abbrev HoldsMatch : State → Type 0
HoldsMatch s =
    (a : AccountId) (n : DomainHash)
    → is_held_by a (record_of n s) ≡ true
    → contains_pair a n s.registry.account_to_subnames ≡ true

clear_child-HoldsMatch :
    (child : DomainHash) (s : State) → HoldsMatch s → HoldsMatch (clear_child child s)
unfolding clear_child
clear_child-HoldsMatch child s v a n h = ground (
  arith,
  v a n,
  elem-del_key n child (s.registry.account_to_subnames a),
  elem-del_key n child (del_key child (s.registry.account_to_subnames a)),
)

clear_children-HoldsMatch :
    (children : List DomainHash) (s : State) → HoldsMatch s → HoldsMatch (clear_children children s)
unfolding clear_children
clear_children-HoldsMatch [] s v = v
clear_children-HoldsMatch (c ∷ cs) s v =
    clear_children-HoldsMatch cs (clear_child c s) (clear_child-HoldsMatch c s v)

runtime_origin-clear_children :
    (children : List DomainHash) (n : DomainHash) (s : State)
    → (clear_children children s).registry.runtime_origin n
      ≡ (if elem n children then none else s.registry.runtime_origin n)
unfolding clear_children clear_child
runtime_origin-clear_children [] n s = refl
runtime_origin-clear_children (c ∷ cs) n s =
    ground (arith, runtime_origin-clear_children cs n (clear_child c s))

token_info-clear_children :
    (children : List DomainHash) (n : DomainHash) (s : State)
    → elem n children ≡ false
    → token_info n (clear_children children s) ≡ token_info n s
unfolding clear_children clear_child
token_info-clear_children [] n s h = refl
token_info-clear_children (c ∷ cs) n s h =
    ground (arith, token_info-clear_children cs n (clear_child c s))

-- Tokens go and never come when names are cleared.
is_some-clear_children :
    (children : List DomainHash) (n : DomainHash) (s : State)
    → is_some (token_info n (clear_children children s)) ≡ true
    → is_some (token_info n s) ≡ true
unfolding clear_children clear_child
is_some-clear_children [] n s h = h
is_some-clear_children (c ∷ cs) n s h =
    ground (arith, is_some-clear_children cs n (clear_child c s))

-- Clearing a name drops its subnames from every index.
pub clear_subnames-IsTidy :
    (base node : DomainHash) (s : State) → IsTidy base s → IsTidy base (clear_subnames node s)
unfolding clear_subnames
clear_subnames-IsTidy base node s v =
    let cs = s.registry.sub_names node in
    let w = v.linked in
    record {
      linked = record {
        offers = λ a n. ground (arith, clear_children-OffersMatch cs s w.offers a n);
        below = λ p n. ground (
          arith,
          w.below p n,
          w.below node n,
          record_of-clear_children cs n s,
          sub_names-clear_children cs p s,
        );
        holds = λ a n h. ground (arith, clear_children-HoldsMatch cs s w.holds a n);
        distinct = λ p. ground (arith, w.distinct p, sub_names-clear_children cs p s);
        rooted = λ p n h. ground (
          arith,
          w.rooted p n,
          sub_names-clear_children cs p s,
          runtime_origin-clear_children cs p s,
          w.below node p,
          v.apart p,
        );
        counted = λ p h. ground (
          arith,
          w.counted p,
          sub_names-clear_children cs p s,
          runtime_origin-clear_children cs p s,
          token_info-clear_children cs p s,
        );
      };
      apart = λ n h.
          ground (
            arith,
            v.apart n,
            record_of-clear_children cs n s,
            runtime_origin-clear_children cs n s,
          );
      flat = λ n. ground (arith, v.flat n, runtime_origin-clear_children cs n s);
      based = ground (arith, v.based, runtime_origin-clear_children cs base s);
      minted = λ n h. ground (
        arith,
        v.minted n,
        v.apart n,
        w.below node n,
        runtime_origin-clear_children cs n s,
        is_some-clear_children cs n s,
      );
    }
