-- ===== src/Tests/Chains.antt =====
-- A run of the chain from its genesis.
use pns_pallets.Base.{
  arith, ℕ, ◌≡◌, refl, true, false, Option, none, some, List, [], ◌∷◌, ◌==◌, elem,
}
use pns_pallets.Types.{AccountId, DomainHash, OfferedNameRecord}
use pns_pallets.Types.Dispatch.{signed}
use pns_pallets.Types.Storage.{State}
use pns_pallets.Runtime.{ok}
use pns_pallets.Registry.Offers.{has_active_subname}
use pns_pallets.Chain.Configs.{Externals, runtime}
use pns_pallets.Chain.Calls.{
  register, offer_subdomain, accept_subdomain, transfer, create_listing, buy_name,
}
use pns_pallets.Chain.Genesis.{testnet_genesis, empty}
use pns_pallets.Chain.Tidy.{Extrinsic, run, InOrder}
use pns_pallets.Chain.Start.{genesis-run}
use pns_pallets.Registry.Children.{is_offer_to}
use pns_pallets.Registry.Clear.{record_of}
use pns_pallets.Chain.Apis.{account_dashboard}
use pns_pallets.Chain.Apis.Dashboard.{is_gift_to, account_dashboard_lem}
use pns_pallets.Label.{encode_with_node}
use pns_pallets.Tests.Sample.{
  hash_from, sign_in, root_in, withdraw_from, move_funds, abc, x, abc_label,
}
use pns_pallets.Types.{SubnameRecord, active}
use pns_pallets.Types.Ddns.{RecordType}
use pns_pallets.Types.Dispatch.{email}
use pns_pallets.Runtime.{IsOk}
use pns_pallets.Resolvers.{set_record, set_text}
use pns_pallets.Label.{parse_name_to_node}
use pns_pallets.Chain.Configs.{check_node_useable}
use pns_pallets.Chain.Apis.{node_or_zero}
use pns_pallets.Chain.Holders.{subname-set_record}
use pns_pallets.Tests.Sample.{x_abc}
use pns_pallets.Tests.Steps.{steps}

-- The world outside the pallets at a moment.
abbrev world_at : ℕ → Externals
world_at now = record {
  keccak_256 = hash_from 7;
  encode_account = λ a. a ∷ [];
  verify_signature = λ code bytes a. a == 1;
  ensure_signed = sign_in;
  ensure_root = root_in;
  lookup = λ a. ok a;
  withdraw = withdraw_from;
  transfer = move_funds;
  now = now;
  block_number = now;
  parent_hash = 9 ∷ [];
}

abbrev endowed : List AccountId
endowed = 1 ∷ 5 ∷ 6 ∷ []

abbrev started : Option State → State
started none = empty
started (some s) = s

abbrev start : State
start = started (testnet_genesis (runtime (world_at 0)) endowed 1)

-- Account 5 registers a name and offers a subname to account 6, which accepts it; then the name is
-- transferred, which clears the subname.
abbrev calls : List Extrinsic
calls =
    record { externals = world_at 10; origin = signed 5; call = register abc 5 none }
    ∷ record { externals = world_at 20; origin = signed 5; call = offer_subdomain x 6 }
    ∷ record { externals = world_at 30; origin = signed 6; call = accept_subdomain abc x }
    ∷ []

calls_accepted : has_active_subname 6 (run calls start) ≡ true
unfolding steps
calls_accepted = refl

transferred_clears :
    has_active_subname 6 (
      run
        (record { externals = world_at 40; origin = signed 5; call = transfer 1 } ∷ [])
        (run calls start))
    ≡ false
unfolding steps
transferred_clears = refl

abbrev x_abc_node : DomainHash
x_abc_node =
    node_or_zero
      (parse_name_to_node (runtime (world_at 40)) x_abc (runtime (world_at 40)).base_node)

abbrev held : SubnameRecord
held = record {
  parent = encode_with_node (runtime (world_at 0)) abc_label (runtime (world_at 0)).base_node;
  label = x;
  target = 6;
  state = active;
}

calls-InOrder : InOrder (run calls start)
unfolding steps
calls-InOrder = genesis-run (world_at 0) endowed 1 calls start refl refl

subname-set_record_example :
    (¬ IsOk (
      set_record
        (runtime (world_at 40))
        (check_node_useable (runtime (world_at 40)))
        (signed 6)
        x_abc
        RecordType.txt
        (104 ∷ 105 ∷ [])
        (run calls start)))
    × (¬ IsOk (
        set_text
          (runtime (world_at 40))
          (check_node_useable (runtime (world_at 40)))
          (signed 6)
          x_abc
          email
          (104 ∷ 105 ∷ [])
          (run calls start)))
unfolding steps
subname-set_record_example =
    subname-set_record (runtime (world_at 40)) (signed 6) x_abc (104 ∷ 105 ∷ []) RecordType.txt
      email x_abc_node held (run calls start) calls-InOrder.0 refl (ground arith) refl

genesis-run_example : InOrder (run calls start)
unfolding steps
genesis-run_example = genesis-run (world_at 0) endowed 1 calls start refl refl

-- Account 1 buys the name for account 6.
abbrev gift_calls : List Extrinsic
gift_calls =
    record { externals = world_at 10; origin = signed 5; call = register abc 5 none }
    ∷ record { externals = world_at 20; origin = signed 5; call = create_listing 100 90 }
    ∷ record { externals = world_at 30; origin = signed 1; call = buy_name abc (some 6) }
    ∷ []

abbrev gifted_node : DomainHash
gifted_node = encode_with_node (runtime (world_at 0)) abc_label (runtime (world_at 0)).base_node

-- The only entry that there is.
abbrev iter : (DomainHash → Option OfferedNameRecord) → List (DomainHash × OfferedNameRecord)
iter m = elim (m gifted_node) [ none ↦ [] | some rec ↦ (gifted_node, rec) ∷ [] ]

account_dashboard_lem_example :
    (elem gifted_node (account_dashboard iter 6 (run gift_calls start)).pending_subname_offers
      ≡ is_offer_to 6 (record_of gifted_node (run gift_calls start)))
    × (elem gifted_node (account_dashboard iter 6 (run gift_calls start)).pending_name_offers
        ≡ is_gift_to 6 ((run gift_calls start).registrar.offered_names gifted_node))
unfolding steps
account_dashboard_lem_example =
    account_dashboard_lem iter (world_at 0) endowed 1 6 gift_calls gifted_node start refl refl
      (refl, tt) refl

gift_shown :
    (account_dashboard iter 6 (run gift_calls start)).pending_name_offers ≡ gifted_node ∷ []
unfolding steps
gift_shown = refl
