-- ===== src/Tests/Sales.antt =====
-- A sale on the marketplace, a redeemed code, and the records of a name.
use pns_pallets.Base.{
  ℕ, ◌-◌, ◌≡◌, ◌<◌, ◌&&◌, ◌||◌, refl, Bool, true, false, none, some, [], ◌∷◌, arith, ltb, leb,
  u32_mod,
}
use pns_pallets.Base.Storage.{update}
use pns_pallets.Types.{AccountId}
use pns_pallets.Types.Ddns.{RecordType}
use pns_pallets.Types.Dispatch.{signed, redeem, RedeemError}
use pns_pallets.Types.Storage.{State, Listing}
use pns_pallets.Runtime.{after, ok, err}
use pns_pallets.Expiry.{has_valid_canonical_name}
use pns_pallets.Resolvers.{get_record, set_record}
use pns_pallets.Resolvers.Anchors.{set_record_lem}
use pns_pallets.Registry.Offers.{owner_of, has_active_subname}
use pns_pallets.Registrar.{primary_name}
use pns_pallets.Marketplace.{create_listing, protocol_fee, buy_name}
use pns_pallets.Marketplace.Sale.{buy_name_lem}
use pns_pallets.Redeem.{name_redeem, name_redeem_any, named_code, mint_redeem, genesis_range}
use pns_pallets.Redeem.Range.{mint_redeem_lem, mint_redeem_forever}
use pns_pallets.Redeem.Once.{name_redeem_lem}
use pns_pallets.Tests.Sample.{chain, later_chain, genesis, abc, x, abc_label, abc_node, registered}
use pns_pallets.Tests.Steps.{steps}

abbrev listed : State
listed = after (create_listing chain (signed 5) 300 600 registered) registered

abbrev sold : State
sold = after (buy_name later_chain (signed 6) abc none listed) listed

abbrev listing : Listing
listing = record { seller = 5; price = 300; expires_at = 600 }

buy_name_lem_example :
    (¬ (◌≡◌ {A = ℕ} 6 5))
    × (later_chain.now < 600)
    × (owner_of abc_node listed ≡ some 5)
    × (has_valid_canonical_name later_chain 6 listed ≡ false)
    × (has_active_subname 6 listed ≡ false)
    × (owner_of abc_node sold ≡ some 6)
    × (primary_name 6 sold ≡ some abc_node)
    × (sold.listings abc_node ≡ none)
    × ((paid : AccountId → ℕ) × (later_chain.transfer 6 5 300 listed.balances ≡ ok paid)
        × (later_chain.withdraw 5 (protocol_fee later_chain 300) paid ≡ ok sold.balances))
unfolding steps
buy_name_lem_example =
    buy_name_lem later_chain (signed 6) abc 6 abc_label listing listed sold refl refl refl refl

abbrev redeemed : State
redeemed = after (name_redeem chain (signed 5) abc 60 21 [] 5 genesis) genesis

-- A manager has minted other numbers since.
abbrev kept_code : State
kept_code = record redeemed { redeems = update 30 true redeemed.redeems }

name_redeem_lem_example :
    (genesis.redeems 21 ≡ true)
    × (chain.verify_signature [] (named_code abc_label.node 60 21) 1 ≡ true)
    × (has_valid_canonical_name chain 5 genesis ≡ false)
    × (has_active_subname 5 genesis ≡ false)
    × (owner_of abc_node redeemed ≡ some 5)
    × (primary_name 5 redeemed ≡ some abc_node)
    × (redeemed.balances ≡ genesis.balances)
    × (redeemed.redeems 22 ≡ genesis.redeems 22)
    × (name_redeem later_chain (signed 6) x 60 21 [] 6 kept_code
        ≡ err (redeem RedeemError.redeems_has_been_used))
    × (name_redeem_any later_chain (signed 6) x 60 21 [] 6 kept_code
        ≡ err (redeem RedeemError.redeems_has_been_used))
unfolding steps
name_redeem_lem_example =
    name_redeem_lem chain later_chain (signed 5) (signed 6) 5 6 5 6 1 abc x [] [] 60 60 21 22
      abc_label 3 genesis redeemed kept_code refl refl refl refl (ground arith) refl refl

mint_redeem_lem_example :
    ((s' : State) × (mint_redeem chain 6 (signed 1) 3 7 genesis ≡ some (ok (tt, s')))
      × (s'.redeems 7 ≡ (leb 3 7 && leb 7 7 || genesis.redeems 7)))
    × ((minted : ℕ → Bool) × (genesis_range 6 3 7 genesis.redeems ≡ some minted)
        × (minted 7 ≡ (leb 3 7 && ltb 7 7 || genesis.redeems 7)))
mint_redeem_lem_example =
    mint_redeem_lem chain (signed 1) 1 6 3 7 7 genesis refl (omega arith) (omega arith)
      (omega arith)

mint_redeem_forever_example : mint_redeem chain 40 (signed 1) 3 (u32_mod - 1) genesis ≡ none
mint_redeem_forever_example = mint_redeem_forever chain (signed 1) 1 40 3 genesis refl (omega arith)

abbrev recorded : State
recorded =
    after (set_record chain (λ node a s. true) (signed 5) abc RecordType.a (1 ∷ []) registered)
      registered

set_record_lem_example :
    (Bool.true ≡ true)
    × (Bool.false ≡ false)
    × (Bool.false ≡ false)
    × (get_record abc_node RecordType.a recorded.resolvers ≡ 1 ∷ [])
    × (get_record abc_node RecordType.ss58 recorded.resolvers
        ≡ get_record abc_node RecordType.ss58 registered.resolvers)
    × (get_record abc_node RecordType.origin recorded.resolvers
        ≡ get_record abc_node RecordType.origin registered.resolvers)
    × (get_record abc_node RecordType.txt recorded.resolvers
        ≡ get_record abc_node RecordType.txt registered.resolvers)
    × (get_record 7 RecordType.mx recorded.resolvers
        ≡ get_record 7 RecordType.mx registered.resolvers)
    × (recorded.resolvers.texts ≡ registered.resolvers.texts)
unfolding steps
set_record_lem_example =
    set_record_lem chain (λ node a s. true) (signed 5) abc (1 ∷ []) RecordType.a RecordType.txt
      RecordType.mx 5 abc_node 7 registered recorded refl refl refl (ground arith) refl
