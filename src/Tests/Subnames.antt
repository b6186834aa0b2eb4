-- ===== src/Tests/Subnames.antt =====
-- Runs of the calls on subnames: account 5 owns `abc` and offers `x.abc` to account 6.
use pns_pallets.Base.{ℕ, ◌<◌, ◌≡◌, ◌↔◌, ◌&&◌, not, refl, false, none, [], arith}
use pns_pallets.Types.{active, RegistrarInfo, DomainHash, SubnameRecord, SubnameState}
use pns_pallets.Types.Storage.{State}
use pns_pallets.Runtime.{after, ok, err, IsOk}
use pns_pallets.Label.{encode_with_node, new_with_len}
use pns_pallets.Expiry.{has_valid_canonical_name}
use pns_pallets.Registry.{token_info, clear_subnames}
use pns_pallets.Registry.Offers.{
  has_active_subname, offer_subname, accept_subname_offer, revoke_subname,
}
use pns_pallets.Registry.Children.{IsLinked, children_of}
use pns_pallets.Registry.Lifecycle.{
  here, next, Delegates, offers, accepts, Reaches-IsLinked, Moves, Delegates-Moves, record_of,
  is_unrecorded,
}
use pns_pallets.Registry.Rights.{revoke_subname_total}
use pns_pallets.Registrar.Subnames.{offer_subdomain, accept_subdomain}
use pns_pallets.Registrar.Invitations.{offer-accept_subdomain}
use pns_pallets.Types.Dispatch.{signed}
use pns_pallets.Registry.Clear.{OffersMatch, clear_subnames_lem}
use pns_pallets.Tests.Sample.{chain, later_chain, abc, x, abc_label, abc_node, registered, label_of}
use pns_pallets.Tests.Steps.{steps}

abbrev x_node : DomainHash
x_node = encode_with_node chain (label_of (new_with_len chain x)) abc_node

registered-IsLinked : IsLinked registered
unfolding steps
registered-IsLinked = record {
  offers = λ a n. refl;
  below = λ p n. refl;
  holds = λ a n h. absurd (ground arith);
  distinct = λ p. tt;
  rooted = λ p n h. absurd (ground arith);
  counted = λ p h. ground arith;
}

abbrev offered_x : State
offered_x = after (offer_subname abc_node x_node x 6 2 registered) registered

abbrev held_x : State
held_x =
    after
      (elim (accept_subname_offer chain x_node 6 offered_x) [
        | ok (_, s) ↦ ok (tt, s)
        | err e ↦ err e
      ])
      offered_x

abbrev offer : Delegates chain registered offered_x
unfolding steps
offer = offers abc_node x_node x 6 2 (omega arith) refl

abbrev accept : Delegates chain offered_x held_x
unfolding steps
accept = accepts x_node 6 abc_node refl

abbrev record_x : SubnameState → SubnameRecord
record_x state = record { parent = abc_node; label = x; target = 6; state = state }

Reaches-IsLinked_example :
    IsLinked held_x
    × ((is_unrecorded 6 x_node held_x && not (is_unrecorded 6 x_node registered)) ≡ false)
Reaches-IsLinked_example =
    Reaches-IsLinked chain registered held_x 6 x_node registered-IsLinked
      (next (next here offer) accept)

Delegates-Moves_example : Moves (record_of x_node offered_x) (record_of x_node held_x)
Delegates-Moves_example = Delegates-Moves chain offered_x held_x x_node accept

abbrev info : RegistrarInfo
info = record { expire = 1010; capacity = 2; register_fee = 9; label_len = 3; last_block = 10 }

abbrev invited : State
invited = after (offer_subdomain chain (signed 5) x 6 registered) registered

offer-accept_subdomain_example : IsOk (accept_subdomain later_chain (signed 6) abc x invited) ↔ (
    (later_chain.now < 1010)
    × (◌≡◌ {A = ℕ} 6 6)
    × (has_valid_canonical_name later_chain 6 registered ≡ false)
    × (has_active_subname 6 registered ≡ false))
unfolding steps
offer-accept_subdomain_example =
    offer-accept_subdomain chain later_chain (signed 5) (signed 6) abc x 6 1 3 5 6 6 abc_node
      abc_label (label_of (new_with_len chain x)) info registered invited refl refl refl refl refl
      refl refl (ground arith) refl refl refl refl

held_x-IsLinked : IsLinked held_x
held_x-IsLinked =
    (Reaches-IsLinked chain registered held_x 6 x_node registered-IsLinked
      (next (next here offer) accept)).0

revoke_subname_total_example : IsOk (revoke_subname abc_node x_node held_x)
unfolding steps
revoke_subname_total_example =
    revoke_subname_total x_node (record_x active) held_x held_x-IsLinked refl

clear_subnames_lem_example :
    let s' = clear_subnames abc_node held_x in
    (record_of x_node s' ≡ none)
    × OffersMatch s'
    × (s'.registry.sub_names abc_node ≡ [])
    × (s'.registry.sub_names 3 ≡ held_x.registry.sub_names 3)
    × (children_of (token_info abc_node s') ≡ 0)
unfolding steps
clear_subnames_lem_example =
    clear_subnames_lem abc_node held_x held_x-IsLinked x_node 3 (ground arith)
