-- ===== src/Registry/Children.antt =====
-- The indexes of the delegated subnames agree with their records, and a name counts its children.
use pns_pallets.Base.{
  ℕ, ◌<◌, ◌≡◌, Bool, true, false, Option, none, some, ◌&&◌, ◌==◌, arith, length, u32_mod,
  Option-cases, inl, inr,
}
use pns_pallets.Base.Storage.{
  contains_pair, elem-add_key, elem-del_key, Distinct, length-add_key, length-del_key,
  add_key-Distinct, del_key-Distinct,
}
use pns_pallets.Types.{AccountId, DomainHash, Bytes, SubnameRecord}
use pns_pallets.Types.Storage.{State, TokenInfo}
use pns_pallets.Runtime.{Env, ok}
use pns_pallets.Registry.{token_info, add_children_with_check, sub_children}
use pns_pallets.Registry.Offers.{
  is_offered, is_active, is_root, offer_subname, accept_subname_offer, reject_subname_offer,
  revoke_subname, release_subname, revoke_pending_offer_for_target,
}

abbrev pub is_offer_to : AccountId → Option SubnameRecord → Bool
is_offer_to a none = false
is_offer_to a (some rec) = is_offered rec.state && rec.target == a

abbrev pub is_held_by : AccountId → Option SubnameRecord → Bool
is_held_by a none = false
is_held_by a (some rec) = is_active rec.state && rec.target == a

abbrev pub is_below : DomainHash → Option SubnameRecord → Bool
is_below parent none = false
is_below parent (some rec) = rec.parent == parent

abbrev pub target_of : Option SubnameRecord → AccountId
target_of none = 0
target_of (some rec) = rec.target

-- The `children` of a node's token, and 0 with no token.
abbrev pub children_of : Option TokenInfo → ℕ
children_of none = 0
children_of (some info) = info.token_data.children

pub record IsLinked (s : State) : Type 0 where
  -- The pending offers of an account are the records that are offered to it.
  pub offers :
      (a : AccountId) (n : DomainHash)
      → contains_pair a n s.registry.offered_to_account
        ≡ is_offer_to a (s.registry.subname_records n)
  -- The subnames of a node are the records with it as parent.
  pub below :
      (p n : DomainHash)
      → contains_pair p n s.registry.sub_names ≡ is_below p (s.registry.subname_records n)
  -- The holder of an active subname is indexed.
  pub holds :
      (a : AccountId) (n : DomainHash)
      → is_held_by a (s.registry.subname_records n) ≡ true
      → contains_pair a n s.registry.account_to_subnames ≡ true
  pub distinct : (p : DomainHash) → Distinct (s.registry.sub_names p)
  -- Only root names have subnames, and a root name counts them.
  pub rooted :
      (p n : DomainHash)
      → contains_pair p n s.registry.sub_names ≡ true
      → is_root (s.registry.runtime_origin p) ≡ true
  pub counted :
      (p : DomainHash)
      → is_root (s.registry.runtime_origin p) ≡ true
      → children_of (token_info p s) ≡ length (s.registry.sub_names p)

pub offer_subname-IsLinked :
    (parent label_node : DomainHash) (label : Bytes) (to : AccountId) (capacity : ℕ) (s s' : State)
    → capacity < u32_mod
    → IsLinked s
    → offer_subname parent label_node label to capacity s ≡ ok (tt, s')
    → IsLinked s'
unfolding offer_subname add_children_with_check
offer_subname-IsLinked parent label_node label to capacity s s' bound v e = record {
  offers = λ a n.
      ground (arith, v.offers a n, elem-add_key n label_node (s.registry.offered_to_account to));
  below =
      λ p n. ground (arith, v.below p n, elem-add_key n label_node (s.registry.sub_names parent));
  holds = λ a n h. ground (arith, v.holds a n);
  distinct =
      λ p. ground (arith, v.distinct p, add_key-Distinct label_node (s.registry.sub_names parent));
  rooted = λ p n h.
      ground (arith, v.rooted p n, elem-add_key n label_node (s.registry.sub_names parent));
  counted = λ p h. ground (
    arith,
    v.counted p,
    v.below parent label_node,
    length-add_key label_node (s.registry.sub_names parent),
  );
}

pub accept_subname_offer-IsLinked :
    (env : Env) (label_node : DomainHash) (acceptor : AccountId) (s s' : State)
    (parent : DomainHash)
    → IsLinked s
    → accept_subname_offer env label_node acceptor s ≡ ok (parent, s')
    → IsLinked s'
unfolding accept_subname_offer
accept_subname_offer-IsLinked env label_node acceptor s s' parent v e = record {
  offers = λ a n.
      ground
        (arith, v.offers a n, elem-del_key n label_node (s.registry.offered_to_account acceptor));
  below = λ p n. ground (arith, v.below p n);
  holds = λ a n h.
      ground
        (arith, v.holds a n, elem-add_key n label_node (s.registry.account_to_subnames acceptor));
  distinct = λ p. ground (arith, v.distinct p);
  rooted = λ p n h. ground (arith, v.rooted p n);
  counted = λ p h. ground (arith, v.counted p);
}

pub reject_subname_offer-IsLinked :
    (label_node : DomainHash) (caller : AccountId) (s s' : State)
    → IsLinked s
    → reject_subname_offer label_node caller s ≡ ok (tt, s')
    → IsLinked s'
unfolding reject_subname_offer
reject_subname_offer-IsLinked label_node caller s s' v e = record {
  offers = λ a n.
      ground
        (arith, v.offers a n, elem-del_key n label_node (s.registry.offered_to_account caller));
  below = λ p n. ground (arith, v.below p n);
  holds = λ a n h. ground (arith, v.holds a n);
  distinct = λ p. ground (arith, v.distinct p);
  rooted = λ p n h. ground (arith, v.rooted p n);
  counted = λ p h. ground (arith, v.counted p);
}

pub revoke_subname-IsLinked :
    (parent label_node : DomainHash) (s s' : State)
    → IsLinked s
    → revoke_subname parent label_node s ≡ ok (tt, s')
    → IsLinked s'
unfolding revoke_subname sub_children
revoke_subname-IsLinked parent label_node s s' v e = record {
  offers = λ a n. ground (
    arith,
    v.offers a n,
    elem-del_key n label_node
        (s.registry.offered_to_account (target_of (s.registry.subname_records label_node))),
  );
  below =
      λ p n. ground (arith, v.below p n, elem-del_key n label_node (s.registry.sub_names parent));
  holds = λ a n h. ground (
    arith,
    v.holds a n,
    elem-del_key n label_node
        (s.registry.account_to_subnames (target_of (s.registry.subname_records label_node))),
  );
  distinct =
      λ p. ground (arith, v.distinct p, del_key-Distinct label_node (s.registry.sub_names parent));
  rooted = λ p n h.
      ground (arith, v.rooted p n, elem-del_key n label_node (s.registry.sub_names parent));
  counted = λ p h. ground (
    arith,
    v.counted p,
    v.below parent label_node,
    v.distinct parent,
    length-del_key label_node (s.registry.sub_names parent),
  );
}

pub release_subname-IsLinked :
    (label_node : DomainHash) (by : AccountId) (parent : DomainHash) (s s' : State)
    → IsLinked s
    → release_subname label_node by s ≡ ok (parent, s')
    → IsLinked s'
unfolding release_subname sub_children
release_subname-IsLinked label_node by parent s s' v e = record {
  offers = λ a n. ground (arith, v.offers a n);
  below =
      λ p n. ground (arith, v.below p n, elem-del_key n label_node (s.registry.sub_names parent));
  holds = λ a n h.
      ground (arith, v.holds a n, elem-del_key n label_node (s.registry.account_to_subnames by));
  distinct =
      λ p. ground (arith, v.distinct p, del_key-Distinct label_node (s.registry.sub_names parent));
  rooted = λ p n h.
      ground (arith, v.rooted p n, elem-del_key n label_node (s.registry.sub_names parent));
  counted = λ p h. ground (
    arith,
    v.counted p,
    v.below parent label_node,
    v.distinct parent,
    length-del_key label_node (s.registry.sub_names parent),
  );
}

pub revoke_pending-IsLinked :
    (label_node : DomainHash) (target : AccountId) (s s' : State)
    → IsLinked s
    → revoke_pending_offer_for_target label_node target s ≡ ok (tt, s')
    → IsLinked s'
unfolding revoke_pending_offer_for_target
revoke_pending-IsLinked label_node target s s' v e =
    elim (Option-cases (s.registry.subname_records label_node)) [
      | inl missing ↦ absurd (ground arith)
      | inr (rec, found) ↦ revoke_subname-IsLinked rec.parent label_node s s' v (ground arith)
    ]
