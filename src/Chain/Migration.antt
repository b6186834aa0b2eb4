-- ===== src/Chain/Migration.antt =====
-- The initial storage of a chain that adopts the pallets, pallets/pns-registrar/src/migration.rs.
-- The weights that the functions return are left out.
use pns_pallets.Base.{ℕ, ◌≡◌, true, Option, none, some, List, [], ◌∷◌, refl}
use pns_pallets.Base.Storage.{update}
use pns_pallets.Types.{AccountId, DomainHash}
use pns_pallets.Types.Storage.{State, Nft, Registry}
use pns_pallets.Runtime.{Env, ok, err}
use pns_pallets.Nft
use pns_pallets.Chain.Configs.{Externals, runtime, native_basenode}
use pns_pallets.Chain.Genesis.{
  empty, build_nft, mint_tokens, base_tokens, build_registry, put_origins,
}

-- The panic of `expect` is `none`.
unfoldable pub initial_registry : Env → AccountId → DomainHash → State → Option State
initial_registry env official root_domain s = elim (Nft.create_class env official [] s.nft) [
  | err e ↦ none
  | ok (class_id, n) ↦
      elim (Nft.mint env official class_id root_domain [] (record { children = 0 }) n) [
        | err e ↦ none
        | ok (_, n') ↦
            some
              (record s { nft = n'; registry = record (s.registry) { official = some official } })
      ]
]

unfoldable pub initial_origin : List AccountId → State → State
initial_origin [] s = s
initial_origin (manager ∷ managers) s =
    initial_origin managers
      (record s { origin = record (s.origin) { origins = update manager true s.origin.origins } })

abbrev pub initial_price_oracle : List ℕ → List ℕ → ℕ → State → State
initial_price_oracle base_prices rent_prices init_rate s = record s {
  price_oracle = record {
    base_price = base_prices;
    rent_price = rent_prices;
    exchange_rate = init_rate;
  };
}

-- The NFTs and the registry of a build that goes through.
abbrev names_of : Option State → Option (Nft × Registry)
names_of none = none
names_of (some s) = some (s.nft, s.registry)

abbrev office : AccountId → Option State → Option State
office official none = none
office official (some s) = some (build_registry [] (some official) s)

-- On a chain with nothing stored, the migration mints the same token for the same official as the
-- genesis does.
pub initial_registry-build_nft :
    (x : Externals) (official : AccountId)
    → names_of (initial_registry (runtime x) official native_basenode empty)
      ≡ names_of (office official (build_nft (runtime x) (base_tokens official) empty))
unfolding initial_registry build_nft mint_tokens build_registry put_origins Nft.create_class
    Nft.mint
initial_registry-build_nft x official = refl
