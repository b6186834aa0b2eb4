-- ===== src/Registry/Held.antt =====
-- The index of names by account, `AccountToSubnames` of pallets/pns-registrar/src/registry.rs,
-- through transfers and burns.
use pns_pallets.Base.{◌≡◌, refl, Bool, false, none, some, List, [], ◌∷◌, ◌==◌, arith, elem, ◌∙◌}
use pns_pallets.Base.Storage.{contains_pair, elem-del_key, del_key}
use pns_pallets.Types.{AccountId, DomainHash, root}
use pns_pallets.Types.Storage.{State}
use pns_pallets.Runtime.{Env, ok}
use pns_pallets.Nft
use pns_pallets.Expiry.{check_expires_renewable, clear_registrar_info}
use pns_pallets.Resolvers.{set_ss58_record, set_origin_record}
use pns_pallets.Registry.{clear_child, clear_children, clear_subnames, sub_children}
use pns_pallets.Registry.Names.{do_transfer, do_burn}
use pns_pallets.Registry.Offers.{owner_of}

abbrev pub held : AccountId → DomainHash → State → Bool
held a n s = contains_pair a n s.registry.account_to_subnames

held-clear_child :
    (child : DomainHash) (a : AccountId) (n : DomainHash) (s : State)
    → (child == n) ≡ false
    → held a n (clear_child child s) ≡ held a n s
unfolding clear_child
held-clear_child child a n s h = ground (
  arith,
  elem-del_key n child (s.registry.account_to_subnames a),
  elem-del_key n child (del_key child (s.registry.account_to_subnames a)),
)

held-clear_children :
    (children : List DomainHash) (a : AccountId) (n : DomainHash) (s : State)
    → elem n children ≡ false
    → held a n (clear_children children s) ≡ held a n s
unfolding clear_children
held-clear_children [] a n s h = refl
held-clear_children (c ∷ cs) a n s h =
    held-clear_children cs a n (clear_child c s) (ground arith)
    ∙ held-clear_child c a n s (ground arith)

pub held-clear_subnames :
    (node : DomainHash) (a : AccountId) (n : DomainHash) (s : State)
    → contains_pair node n s.registry.sub_names ≡ false
    → held a n (clear_subnames node s) ≡ held a n s
unfolding clear_subnames
held-clear_subnames node a n s h =
    ground (arith, held-clear_children (s.registry.sub_names node) a n s)

-- What a transfer of a root name does to the index: nothing at the name itself.
pub held-do_transfer :
    (env : Env) (from to : AccountId) (node : DomainHash) (a : AccountId) (s s' : State)
    → s.registry.runtime_origin node ≡ some root
    → contains_pair node node s.registry.sub_names ≡ false
    → do_transfer env from to node s ≡ ok (tt, s')
    → held a node s' ≡ held a node s
unfolding do_transfer Nft.transfer set_ss58_record set_origin_record check_expires_renewable
held-do_transfer env from to node a s s' rooted flat e =
    ground (arith, held-clear_subnames node a node s)

-- A burn that goes through was by the owner, takes the name out of the owner's index and destroys
-- its token and its place in the tree.
pub do_burn_lem :
    (env : Env) (caller : AccountId) (node : DomainHash) (s s' : State)
    → do_burn env caller node s ≡ ok (tt, s')
    → (owner_of node s ≡ some caller)
      × (owner_of node s' ≡ none)
      × (held caller node s' ≡ false)
      × (s'.registry.runtime_origin node ≡ none)
unfolding do_burn owner_of Nft.burn clear_registrar_info sub_children
do_burn_lem env caller node s s' e = (
  ground arith,
  ground arith,
  ground (
    arith,
    elem-del_key node node (s.registry.account_to_subnames caller),
    elem-del_key node node ((clear_subnames node s).registry.account_to_subnames caller),
  ),
  ground arith,
)
