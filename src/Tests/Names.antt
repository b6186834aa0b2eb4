-- ===== src/Tests/Names.antt =====
-- Runs of the calls on canonical names, and of the redeem codes.
use pns_pallets.Base.{◌≡◌, ◌<◌, ◌≤◌, ◌+◌, u64_mod, refl, false, none, some, arith}
use pns_pallets.Types.Dispatch.{signed, Event}
use pns_pallets.Types.Storage.{State}
use pns_pallets.Runtime.{after, ok, IsOk}
use pns_pallets.Expiry.{grace_end, has_valid_canonical_name}
use pns_pallets.Registry.Names.{burn}
use pns_pallets.Registry.Offers.{owner_of, has_active_subname, accept_subname_offer}
use pns_pallets.Registrar.{primary_name}
use pns_pallets.Registrar.Names.{accept_offered_name, register, renew, transfer, release_name}
use pns_pallets.Registrar.Registration.{IsRegistered, register-IsRegistered}
use pns_pallets.Registrar.Handover.{transfer_locks_out}
use pns_pallets.Registrar.Subnames.{offer_subdomain}
use pns_pallets.Registrar.Trade.{offer_bought_name}
use pns_pallets.Registrar.Stale.{burn-register}
use pns_pallets.Registrar.Grant.{for_redeem_code}
use pns_pallets.Registrar.Renewal.{renew_lem}
use pns_pallets.Types.{RegistrarInfo}
use pns_pallets.Base.{◌∷◌}
use pns_pallets.Base.Storage.{update}
use pns_pallets.Tests.Sample.{
  chain, chain_at, later_chain, genesis, abc, x, abc_label, abc_node, registered,
}
use pns_pallets.Tests.Steps.{steps}

register-runs : register chain (signed 5) abc 5 none genesis ≡ ok (tt, registered)
unfolding steps
register-runs = refl

register-IsRegistered_example :
    (genesis.registrar.reserved_list abc_node ≡ false)
    × (has_valid_canonical_name chain 5 genesis ≡ false)
    × (has_active_subname 5 genesis ≡ false)
    × IsRegistered chain 5 5 abc_node 3 1010 genesis registered
unfolding steps
register-IsRegistered_example =
    register-IsRegistered chain (signed 5) abc 5 5 5 abc_label 3 genesis registered refl refl refl
      refl

abbrev info : RegistrarInfo
info = record { expire = 1010; capacity = 2; register_fee = 9; label_len = 3; last_block = 10 }

abbrev renewed : State
renewed = after (renew later_chain (signed 5) registered) registered

renew_lem_example :
    (later_chain.now ≤ grace_end later_chain info.expire)
    × (later_chain.now + later_chain.max_registration_duration < u64_mod)
    × (later_chain.withdraw 5 9 registered.balances ≡ ok renewed.balances)
    × (renewed ≡ record registered {
      balances = renewed.balances;
      events = Event.name_renewed abc_node 5 1500 9 ∷ registered.events;
      registrar = record (registered.registrar) {
        registrar_infos =
            update abc_node
              (some (record info { expire = 1500 }))
              registered.registrar.registrar_infos;
      };
    })
unfolding steps
renew_lem_example =
    renew_lem later_chain (signed 5) 5 abc_node info 9 registered renewed refl refl refl refl refl

abbrev transferred : State
transferred = after (transfer later_chain (signed 5) 6 registered) registered

transfer_locks_out_example :
    (¬ IsOk (register (chain_at 900) (signed 8) x 5 none transferred))
    × (¬ IsOk (transfer (chain_at 900) (signed 8) 5 transferred))
    × (¬ IsOk (for_redeem_code (chain_at 900) x 5 60 abc_label transferred))
    × (¬ IsOk (accept_subname_offer (chain_at 900) 7 5 transferred))
    × (¬ IsOk (accept_offered_name (chain_at 900) (signed 5) x transferred))
unfolding steps
transfer_locks_out_example =
    transfer_locks_out later_chain (chain_at 900) (signed 5) (signed 8) (signed 5) 6 5 5 6 abc_node
      7 x 60 abc_label registered transferred transferred refl refl refl refl refl refl refl refl
      refl refl

abbrev released : State
released = after (release_name later_chain (signed 5) registered) registered

abbrev burned : State
burned = after (burn later_chain (signed 5) abc registered) registered

abbrev taken : State
taken = after (register (chain_at 900) (signed 6) abc 6 none burned) burned

burn-register_example :
    (owner_of abc_node taken ≡ some 6)
    × (primary_name 6 taken ≡ some abc_node)
    × (primary_name 5 taken ≡ some abc_node)
unfolding steps
burn-register_example =
    burn-register later_chain (chain_at 900) (signed 5) (signed 6) abc abc 5 6 6 6 3 abc_label
      abc_node registered burned taken refl refl refl refl refl refl refl refl (ground arith) refl

abbrev gifted : State
gifted = after (offer_bought_name later_chain 5 6 8 abc_node registered) registered

abbrev accepted : State
accepted = after (accept_offered_name (chain_at 600) (signed 8) abc gifted) gifted

-- Account 5, which has burned the name, still offers a subname of it, which account 6 owns by now.
former_owner-offers : IsOk (offer_subdomain (chain_at 900) (signed 5) x 9 taken)
unfolding steps
former_owner-offers = tt

-- It also renews the name.
former_owner-renews : IsOk (renew (chain_at 900) (signed 5) taken)
unfolding steps
former_owner-renews = tt
