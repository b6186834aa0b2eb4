-- ===== src/Tests/Queries.antt =====
-- Queries of the runtime on the small chain.
use pns_pallets.Base.{some, ◌≡◌, refl, none, arith}
use pns_pallets.Types.Dispatch.{signed}
use pns_pallets.Chain.Configs.{check_node_useable}
use pns_pallets.Chain.Apis.{get_info, resolve_name}
use pns_pallets.Chain.Apis.Resolving.{Told, is_reported, get_info-useable, register-resolve_name}
use pns_pallets.Types.Storage.{State}
use pns_pallets.Runtime.{after}
use pns_pallets.Registry.Offers.{owner_of}
use pns_pallets.Registrar.{primary_name}
use pns_pallets.Registrar.Names.{register, accept_offered_name}
use pns_pallets.Registrar.Trade.{offer_bought_name}
use pns_pallets.Tests.Sample.{
  chain_at, chain, later_chain, genesis, abc, x, abc_label, abc_node, registered,
}
use pns_pallets.Tests.Steps.{steps}

register-resolve_name_example : Told 5 1010 none (resolve_name chain abc registered)
unfolding steps
register-resolve_name_example =
    register-resolve_name chain (signed 5) abc 5 5 5 abc_label 3 genesis registered refl refl refl
      (ground arith) refl

get_info-useable_example :
    (is_reported 5 (get_info later_chain abc_node registered)
      ≡ check_node_useable later_chain abc_node 5 registered)
    × (is_reported 5 (resolve_name later_chain abc registered)
        ≡ check_node_useable later_chain abc_node 5 registered)
unfolding steps
get_info-useable_example = get_info-useable later_chain 5 abc abc_label 3 registered refl refl refl

-- Account 5 loses its name to a gift for account 6, which never answers; the name expires, and account
-- 8 registers it.
abbrev gifted : State
gifted = after (offer_bought_name (chain_at 20) 5 1 6 abc_node registered) registered

abbrev old_gift : State
old_gift = after (register (chain_at 1200) (signed 8) abc 8 none gifted) gifted

registered_again : owner_of abc_node old_gift ≡ some 8
unfolding steps
registered_again = refl

resolves_to_nothing : resolve_name (chain_at 1300) abc old_gift ≡ none
unfolding steps
resolves_to_nothing = refl

-- The recipient can still accept, and then has the name of the other as its canonical one.
gift_accepted :
    primary_name 6 (after (accept_offered_name (chain_at 1300) (signed 6) abc old_gift) old_gift)
    ≡ some abc_node
unfolding steps
gift_accepted = refl

-- Account 6 rejects the gift as it registers `x`.
abbrev rejected : State
rejected = after (register (chain_at 30) (signed 6) x 6 (some abc) gifted) gifted
