-- ===== src/Registry/Rights.antt =====
-- Who may act on a delegated subname, and that the entitled may always do so.
use pns_pallets.Base.{ℕ, ◌≡◌, ◌≢◌, ◌↔◌, true, false, some, List, [], ◌∷◌, arith, elem, length}
use pns_pallets.Types.{AccountId, DomainHash, SubnameRecord, active}
use pns_pallets.Types.Storage.{State}
use pns_pallets.Runtime.{Env, IsOk}
use pns_pallets.Expiry.{has_valid_canonical_name}
use pns_pallets.Registry.{sub_children}
use pns_pallets.Registry.Offers.{
  has_active_subname, accept_subname_offer, revoke_subname, release_subname,
}
use pns_pallets.Registry.Children.{IsLinked, is_offer_to}
use pns_pallets.Registry.Lifecycle.{record_of}

-- An account can accept a subname exactly when the subname is offered to it and it has neither a
-- valid canonical name nor an entry in the index of subnames.
pub accept_subname_offer_iff :
    (env : Env) (node : DomainHash) (acceptor : AccountId) (s : State)
    → (IsOk (accept_subname_offer env node acceptor s) ↔ (
        (is_offer_to acceptor (record_of node s) ≡ true)
        × (has_valid_canonical_name env acceptor s ≡ false)
        × (has_active_subname acceptor s ≡ false)))
unfolding accept_subname_offer
accept_subname_offer_iff env node acceptor s = (λ h. ground arith, λ h. ground arith)

elem-nonempty : (k : ℕ) (xs : List ℕ) → elem k xs ≡ true → length xs ≢ 0
elem-nonempty k [] h e = cc
elem-nonempty k (x ∷ xs) h e = ground arith

-- Where the indexes are in step with the records, revoking a subname under its own parent succeeds in
-- every state of the subname: no counter runs below zero.
pub revoke_subname_total :
    (node : DomainHash) (rec : SubnameRecord) (s : State)
    → IsLinked s
    → record_of node s ≡ some rec
    → IsOk (revoke_subname rec.parent node s)
unfolding revoke_subname sub_children
revoke_subname_total node rec s v found = ground (
  arith,
  v.below rec.parent node,
  v.rooted rec.parent node,
  v.counted rec.parent,
  elem-nonempty node (s.registry.sub_names rec.parent),
)

-- Where the indexes are in step with the records, the holder of an active subname can release it.
pub release_subname_total :
    (node : DomainHash) (rec : SubnameRecord) (s : State)
    → IsLinked s
    → record_of node s ≡ some rec
    → rec.state ≡ active
    → IsOk (release_subname node rec.target s)
unfolding release_subname sub_children
release_subname_total node rec s v found live = ground (
  arith,
  v.below rec.parent node,
  v.rooted rec.parent node,
  v.counted rec.parent,
  elem-nonempty node (s.registry.sub_names rec.parent),
)
