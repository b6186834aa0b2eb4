-- ===== src/Tests/Listings.antt =====
-- A listing that outlives its seller's ownership, on the small chain.
use pns_pallets.Base.{◌≡◌, refl, none, some, arith}
use pns_pallets.Types.Dispatch.{signed}
use pns_pallets.Types.Storage.{State, Listing}
use pns_pallets.Runtime.{after, IsOk}
use pns_pallets.Registry.Offers.{owner_of}
use pns_pallets.Registrar.Names.{register, transfer, release_name}
use pns_pallets.Marketplace.{create_listing, cancel_listing, buy_name}
use pns_pallets.Marketplace.Stale.{transfer-stale_listing, release_name-register}
use pns_pallets.Tests.Sample.{chain, chain_at, later_chain, abc, abc_label, abc_node, registered}
use pns_pallets.Tests.Steps.{steps}

-- Account 5 lists its name until 600 for 300.
abbrev listed : State
listed = after (create_listing chain (signed 5) 300 600 registered) registered

abbrev listing : Listing
listing = record { seller = 5; price = 300; expires_at = 600 }

-- The name passes to account 6, with the listing in place.
abbrev passed_on : State
passed_on = after (transfer (chain_at 20) (signed 5) 6 listed) listed

transfer-stale_listing_example :
    (passed_on.listings abc_node ≡ some listing)
    × (¬ IsOk (buy_name later_chain (signed 7) abc none passed_on))
    × (¬ IsOk (create_listing later_chain (signed 6) 400 900 passed_on))
    × IsOk (cancel_listing later_chain (signed 6) passed_on)
    × ((after (cancel_listing later_chain (signed 6) passed_on) passed_on).listings abc_node ≡ none)
unfolding steps
transfer-stale_listing_example =
    transfer-stale_listing (chain_at 20) later_chain (signed 5) (signed 6) (signed 7) 6 abc none 400
      900 5 6 abc_label abc_node listing listed passed_on refl refl refl refl refl (ground arith)
      refl refl refl refl

-- Account 5 releases the name instead, and registers it again.
abbrev released : State
released = after (release_name (chain_at 20) (signed 5) listed) listed

abbrev again : State
again = after (register (chain_at 30) (signed 5) abc 5 none released) released

release_name-register_example :
    (owner_of abc_node released ≡ none)
    × (owner_of abc_node again ≡ some 5)
    × (again.listings abc_node ≡ some listing)
unfolding steps
release_name-register_example =
    release_name-register (chain_at 20) (chain_at 30) (signed 5) (signed 5) abc 5 5 5 3 abc_label
      abc_node listing listed released again refl refl refl refl refl refl refl refl refl refl

-- Its listing of before is bought.
sold_again :
    owner_of abc_node (after (buy_name later_chain (signed 6) abc none again) again) ≡ some 6
unfolding steps
sold_again = refl
