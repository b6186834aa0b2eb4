-- ===== src/Registry/Frames.antt =====
-- What the registry leaves alone: the registrar's storage, the balances and the price tables.
use pns_pallets.Base.{
  ℕ, ◌≡◌, refl, Option, none, some, List, [], ◌∷◌, arith, Option-cases, inl, inr,
}
use pns_pallets.Types.{AccountId, DomainHash, Bytes}
use pns_pallets.Types.Storage.{State, TokenInfo}
use pns_pallets.Runtime.{after, Env, M, Result, ok, err, ⊤}
use pns_pallets.Nft
use pns_pallets.Expiry.{
  clear_registrar_info, check_expires_registrable, check_expires_renewable, check_expires_useable,
}
use pns_pallets.Resolvers.{set_ss58_record, set_origin_record}
use pns_pallets.Registry.{
  sub_children, token_info, clear_child, clear_children, clear_subnames, add_children,
  add_children_with_check,
}
use pns_pallets.Registry.Names.{do_burn, mint_subname, remint, mint_new, do_transfer}

-- The two states agree on what is not the registry's.
abbrev pub IsAside : State → State → Type 0
IsAside s s' =
    (s'.registrar ≡ s.registrar)
    × (s'.balances ≡ s.balances)
    × (s'.listings ≡ s.listings)
    × (s'.redeems ≡ s.redeems)

clear_child-IsAside : (child : DomainHash) (s : State) → IsAside s (clear_child child s)
unfolding clear_child
clear_child-IsAside child s = (ground arith, ground arith, ground arith, ground arith)

clear_children-IsAside :
    (children : List DomainHash) (s : State) → IsAside s (clear_children children s)
unfolding clear_children
clear_children-IsAside [] s = (refl, refl, refl, refl)
clear_children-IsAside (c ∷ cs) s =
    ground (arith, clear_child-IsAside c s, clear_children-IsAside cs (clear_child c s))

pub clear_subnames-IsAside : (node : DomainHash) (s : State) → IsAside s (clear_subnames node s)
unfolding clear_subnames
clear_subnames-IsAside node s = ground (arith, clear_children-IsAside (s.registry.sub_names node) s)

-- A call that goes through has run the payment, which went through too, and has changed nothing
-- beside the registry since.
abbrev pub Follows : Result (⊤ × State) → Result (⊤ × State) → Type 0
Follows (ok (_, s')) (ok (_, u)) = IsAside u s'
Follows (ok _) (err _) = ⊥
Follows (err _) _ = ⊤

abbrev pub previous_owner : Option TokenInfo → Option AccountId
previous_owner none = none
previous_owner (some info) = some info.owner

module _ (env : Env) (label_node : DomainHash) (to : AccountId)
    (pays : Option AccountId → M ⊤) where
  remint-Follows :
      (from : AccountId) (s : State)
      → Follows (remint env label_node from to pays s) (pays (some from) s)
  unfolding remint Nft.transfer check_expires_registrable
  remint-Follows from s =
      ground (arith, clear_subnames-IsAside label_node (after (pays (some from) s) s))

  mint_new-Follows :
      (metadata : Bytes) (node : DomainHash) (capacity : ℕ) (s : State)
      → Follows (mint_new env metadata node label_node to capacity pays s) (pays none s)
  unfolding mint_new Nft.mint add_children add_children_with_check check_expires_useable
  mint_new-Follows metadata node capacity s = ground arith

  pub mint_subname-Follows :
      (owner : AccountId) (metadata : Bytes) (node : DomainHash) (capacity : ℕ) (s : State)
      → Follows
          (mint_subname env owner metadata node label_node to capacity pays s)
          (pays (previous_owner (token_info label_node s)) s)
  unfolding mint_subname
  mint_subname-Follows owner metadata node capacity s =
      elim (Option-cases (token_info label_node s)) [
        | inl new ↦ ground (arith, mint_new-Follows metadata node capacity s)
        | inr (info, old) ↦ ground (arith, remint-Follows info.owner s)
      ]

abbrev pub Keeps : State → Result (⊤ × State) → Type 0
Keeps s (ok (_, s')) = IsAside s s'
Keeps s (err _) = ⊤

pub do_transfer-Keeps :
    (env : Env) (from to : AccountId) (token : DomainHash) (s : State)
    → Keeps s (do_transfer env from to token s)
unfolding do_transfer Nft.transfer set_ss58_record set_origin_record check_expires_renewable
do_transfer-Keeps env from to token s = ground (arith, clear_subnames-IsAside token s)

pub do_burn-primary_names :
    (env : Env) (caller : AccountId) (node : DomainHash) (s s' : State)
    → do_burn env caller node s ≡ ok (tt, s')
    → s'.registrar.owner_to_primary_name ≡ s.registrar.owner_to_primary_name
unfolding do_burn Nft.burn clear_registrar_info sub_children
do_burn-primary_names env caller node s s' e = ground (arith, clear_subnames-IsAside node s)
