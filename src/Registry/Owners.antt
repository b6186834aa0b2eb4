-- ===== src/Registry/Owners.antt =====
-- Who owns a name after `mint_subname`, `do_transfer` and `do_burn` of
-- pallets/pns-registrar/src/registry.rs.
use pns_pallets.Base.{ℕ, ◌≡◌, Option, some, arith, Option-cases, inl, inr}
use pns_pallets.Types.{AccountId, DomainHash, Bytes}
use pns_pallets.Types.Storage.{State}
use pns_pallets.Runtime.{Env, M, Result, ok, err, ⊤}
use pns_pallets.Nft
use pns_pallets.Expiry.{check_expires_useable}
use pns_pallets.Resolvers.{set_ss58_record, set_origin_record}
use pns_pallets.Registry.{token_info, add_children, add_children_with_check}
use pns_pallets.Registry.Names.{mint_subname, remint, mint_new, do_transfer}
use pns_pallets.Registry.Offers.{owner_of}

-- A call that goes through leaves the node with this owner.
abbrev pub Gives : DomainHash → AccountId → Result (⊤ × State) → Type 0
Gives node to (ok (_, s')) = owner_of node s' ≡ some to
Gives node to (err e) = ⊤

module _ (env : Env) (label_node : DomainHash) (to : AccountId) where
  remint-Gives :
      (from : AccountId) (pays : Option AccountId → M ⊤) (s : State)
      → Gives label_node to (remint env label_node from to pays s)
  unfolding remint owner_of Nft.transfer
  remint-Gives from pays s = ground arith

  mint_new-Gives :
      (metadata : Bytes) (node : DomainHash) (capacity : ℕ) (pays : Option AccountId → M ⊤)
      (s : State)
      → Gives label_node to (mint_new env metadata node label_node to capacity pays s)
  unfolding mint_new owner_of Nft.mint add_children add_children_with_check check_expires_useable
  mint_new-Gives metadata node capacity pays s = ground arith

  -- Whatever the payments do, a mint that goes through leaves the name with its recipient.
  pub mint_subname-Gives :
      (owner : AccountId) (metadata : Bytes) (node : DomainHash) (capacity : ℕ)
      (pays : Option AccountId → M ⊤) (s : State)
      → Gives label_node to (mint_subname env owner metadata node label_node to capacity pays s)
  unfolding mint_subname owner_of
  mint_subname-Gives owner metadata node capacity pays s =
      elim (Option-cases (token_info label_node s)) [
        | inl new ↦ ground (arith, mint_new-Gives metadata node capacity pays s)
        | inr (info, old) ↦ ground (arith, remint-Gives info.owner pays s)
      ]

  -- A transfer that goes through was from the owner, and leaves the name with the recipient.
  pub do_transfer-owner_of :
      (from : AccountId) (s s' : State)
      → do_transfer env from to label_node s ≡ ok (tt, s')
      → (owner_of label_node s ≡ some from) × (owner_of label_node s' ≡ some to)
  unfolding do_transfer owner_of Nft.transfer set_ss58_record set_origin_record
  do_transfer-owner_of from s s' e = (ground arith, ground arith)
