-- ===== src/Registry/TidyOffers.antt =====
-- The operations on delegated subnames keep the registry in order.
use pns_pallets.Base.{ℕ, ◌<◌, ◌≡◌, none, u32_mod, arith, Option-cases, inl, inr}
use pns_pallets.Types.{AccountId, DomainHash, Bytes}
use pns_pallets.Types.Storage.{State}
use pns_pallets.Runtime.{Env, ok}
use pns_pallets.Registry.{sub_children, add_children_with_check}
use pns_pallets.Registry.Offers.{
  offer_subname, accept_subname_offer, reject_subname_offer, revoke_subname, release_subname,
  revoke_pending_offer_for_target,
}
use pns_pallets.Registry.Children.{
  offer_subname-IsLinked, accept_subname_offer-IsLinked, reject_subname_offer-IsLinked,
  revoke_subname-IsLinked, release_subname-IsLinked,
}
use pns_pallets.Registry.Lifecycle.{no_record, withdraw-revoke}
use pns_pallets.Registry.Clear.{record_of}
use pns_pallets.Registry.Tidy.{IsTidy}

pub offer_subname-IsTidy :
    (base parent node : DomainHash) (label : Bytes) (to : AccountId) (capacity : ℕ) (s s' : State)
    → capacity < u32_mod
    → s.registry.runtime_origin node ≡ none
    → IsTidy base s
    → offer_subname parent node label to capacity s ≡ ok (tt, s')
    → IsTidy base s'
unfolding offer_subname add_children_with_check
offer_subname-IsTidy base parent node label to capacity s s' bound free v e = record {
  linked = offer_subname-IsLinked parent node label to capacity s s' bound v.linked e;
  apart = λ n h. ground (arith, v.apart n);
  flat = λ n. ground (arith, v.flat n);
  based = ground (arith, v.based);
  minted = λ n h. ground (arith, v.minted n);
}

pub accept_subname_offer-IsTidy :
    (env : Env) (base node : DomainHash) (acceptor : AccountId) (parent : DomainHash) (s s' : State)
    → IsTidy base s
    → accept_subname_offer env node acceptor s ≡ ok (parent, s')
    → IsTidy base s'
unfolding accept_subname_offer
accept_subname_offer-IsTidy env base node acceptor parent s s' v e = record {
  linked = accept_subname_offer-IsLinked env node acceptor s s' parent v.linked e;
  apart = λ n h. ground (arith, v.apart n);
  flat = λ n. ground (arith, v.flat n);
  based = ground (arith, v.based);
  minted = λ n h. ground (arith, v.minted n);
}

pub reject_subname_offer-IsTidy :
    (base node : DomainHash) (caller : AccountId) (s s' : State)
    → IsTidy base s
    → reject_subname_offer node caller s ≡ ok (tt, s')
    → IsTidy base s'
unfolding reject_subname_offer
reject_subname_offer-IsTidy base node caller s s' v e = record {
  linked = reject_subname_offer-IsLinked node caller s s' v.linked e;
  apart = λ n h. ground (arith, v.apart n);
  flat = λ n. ground (arith, v.flat n);
  based = ground (arith, v.based);
  minted = λ n h. ground (arith, v.minted n);
}

pub revoke_subname-IsTidy :
    (base parent node : DomainHash) (s s' : State)
    → IsTidy base s
    → revoke_subname parent node s ≡ ok (tt, s')
    → IsTidy base s'
unfolding revoke_subname sub_children
revoke_subname-IsTidy base parent node s s' v e = record {
  linked = revoke_subname-IsLinked parent node s s' v.linked e;
  apart = λ n h. ground (arith, v.apart n);
  flat = λ n. ground (arith, v.flat n);
  based = ground (arith, v.based);
  minted = λ n h. ground (arith, v.minted n);
}

pub release_subname-IsTidy :
    (base node : DomainHash) (by : AccountId) (parent : DomainHash) (s s' : State)
    → IsTidy base s
    → release_subname node by s ≡ ok (parent, s')
    → IsTidy base s'
unfolding release_subname sub_children
release_subname-IsTidy base node by parent s s' v e = record {
  linked = release_subname-IsLinked node by parent s s' v.linked e;
  apart = λ n h. ground (arith, v.apart n);
  flat = λ n. ground (arith, v.flat n);
  based = ground (arith, v.based);
  minted = λ n h. ground (arith, v.minted n);
}

pub revoke_pending-IsTidy :
    (base node : DomainHash) (target : AccountId) (s s' : State)
    → IsTidy base s
    → revoke_pending_offer_for_target node target s ≡ ok (tt, s')
    → IsTidy base s'
revoke_pending-IsTidy base node target s s' v e = elim (Option-cases (record_of node s)) [
  | inl missing ↦ absurd (no_record node target s s' missing e)
  | inr (rec, found) ↦
      revoke_subname-IsTidy base rec.parent node s s' v
        (withdraw-revoke node target rec s s' found e)
]
