-- ===== src/Registry/Clear.antt =====
-- `clear_subnames` of pallets/pns-registrar/src/registry.rs: what is left of the subnames of a name
-- that changes hands.
use pns_pallets.Base.{
  ◌≢◌, ◌≡◌, refl, Option, none, List, [], ◌∷◌, ◌==◌, arith, elem, if◌then◌else◌, ◌∙◌,
}
use pns_pallets.Base.Storage.{contains_pair, elem-del_key}
use pns_pallets.Types.{AccountId, DomainHash, SubnameRecord}
use pns_pallets.Types.Storage.{State}
use pns_pallets.Registry.{token_info, clear_child, clear_children, clear_subnames}
use pns_pallets.Registry.Children.{IsLinked, is_offer_to, is_below, children_of, target_of}

abbrev pub record_of : DomainHash → State → Option SubnameRecord
record_of n s = s.registry.subname_records n

-- The part of the invariant that a half-cleared name still has.
abbrev pub OffersMatch : State → Type 0
OffersMatch s =
    (a : AccountId) (n : DomainHash)
    → contains_pair a n s.registry.offered_to_account ≡ is_offer_to a (record_of n s)

clear_child-OffersMatch :
    (child : DomainHash) (s : State) → OffersMatch s → OffersMatch (clear_child child s)
unfolding clear_child
clear_child-OffersMatch child s v a n = ground (
  arith,
  v a n,
  elem-del_key n child (s.registry.offered_to_account (target_of (record_of child s))),
)

-- One round removes the child's record and keeps the others, and the sets of children.
record_of-clear_child :
    (child n : DomainHash) (s : State)
    → record_of n (clear_child child s) ≡ (if child == n then none else record_of n s)
unfolding clear_child
record_of-clear_child child n s = ground arith

sub_names-clear_child :
    (child p : DomainHash) (s : State)
    → (clear_child child s).registry.sub_names p ≡ s.registry.sub_names p
unfolding clear_child
sub_names-clear_child child p s = ground arith

pub clear_children-OffersMatch :
    (children : List DomainHash) (s : State)
    → OffersMatch s
    → OffersMatch (clear_children children s)
unfolding clear_children
clear_children-OffersMatch [] s v = v
clear_children-OffersMatch (c ∷ cs) s v =
    clear_children-OffersMatch cs (clear_child c s) (clear_child-OffersMatch c s v)

pub record_of-clear_children :
    (children : List DomainHash) (n : DomainHash) (s : State)
    → record_of n (clear_children children s) ≡ (if elem n children then none else record_of n s)
unfolding clear_children
record_of-clear_children [] n s = refl
record_of-clear_children (c ∷ cs) n s =
    ground (arith, record_of-clear_children cs n (clear_child c s), record_of-clear_child c n s)

pub sub_names-clear_children :
    (children : List DomainHash) (p : DomainHash) (s : State)
    → (clear_children children s).registry.sub_names p ≡ s.registry.sub_names p
unfolding clear_children
sub_names-clear_children [] p s = refl
sub_names-clear_children (c ∷ cs) p s =
    sub_names-clear_children cs p (clear_child c s) ∙ sub_names-clear_child c p s

pub record_of-clear_subnames :
    (node n : DomainHash) (s : State)
    → record_of n (clear_subnames node s)
      ≡ (if elem n (s.registry.sub_names node) then none else record_of n s)
unfolding clear_subnames
record_of-clear_subnames node n s =
    ground (arith, record_of-clear_children (s.registry.sub_names node) n s)

pub sub_names-clear_subnames :
    (node p : DomainHash) (s : State)
    → (clear_subnames node s).registry.sub_names p
      ≡ (if node == p then [] else s.registry.sub_names p)
unfolding clear_subnames
sub_names-clear_subnames node p s =
    ground (arith, sub_names-clear_children (s.registry.sub_names node) p s)

module _ (node : DomainHash) (s : State) (v : IsLinked s) where
  -- In a chain whose indexes are in step, clearing a name deletes the record of each of its
  -- subnames and of no other label, withdraws their offers, empties its set of subnames and sets
  -- its counter of children to zero; the subnames of other names stay.
  pub clear_subnames_lem :
      (n p : DomainHash)
      → p ≢ node
      → let s' = clear_subnames node s in
        (record_of n s' ≡ (if is_below node (record_of n s) then none else record_of n s))
        × OffersMatch s'
        × (s'.registry.sub_names node ≡ [])
        × (s'.registry.sub_names p ≡ s.registry.sub_names p)
        × (children_of (token_info node s') ≡ 0)
  unfolding clear_subnames
  clear_subnames_lem n p h = (
    ground (arith, record_of-clear_children (s.registry.sub_names node) n s, v.below node n),
    λ a m. ground (arith, clear_children-OffersMatch (s.registry.sub_names node) s v.offers a m),
    ground arith,
    ground (arith, sub_names-clear_children (s.registry.sub_names node) p s),
    ground arith,
  )
