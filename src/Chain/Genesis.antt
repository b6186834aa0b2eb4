-- ===== src/Chain/Genesis.antt =====
-- The state that the chain starts from: the genesis builds of the pallets, in
-- pallets/pns-registrar/src/{nft,price_oracle,registry,registrar}.rs and
-- pallets/pns-resolvers/src/resolvers.rs, and the preset of
-- runtime/src/genesis_config_presets.rs.
use pns_pallets.Base.{
  ℕ, ◌*◌, ◌/◌, ◌^◌, true, false, Option, none, some, List, [], ◌∷◌, if◌then◌else◌, elem,
}
use pns_pallets.Base.Storage.{update}
use pns_pallets.Types.{AccountId, DomainHash, Bytes, DomainTracing, RegistrarInfo, Record}
use pns_pallets.Types.Dispatch.{TextKind}
use pns_pallets.Resolvers.{set_entry, text_key}
use pns_pallets.Types.Storage.{State, PriceOracle}
use pns_pallets.Runtime.{Env, ok, err, after}
use pns_pallets.Nft
use pns_pallets.Label.{parse_name_to_node}
use pns_pallets.Chain.Configs.{native_basenode}
use pns_pallets.Registrar.{set_info, set_reserved}

-- A token of `GenesisTokens` with its owner, metadata, data and number.
pub record GenesisToken : Type 0 where
  pub owner : AccountId
  pub metadata : Bytes
  pub token_data : Record
  pub token_id : DomainHash

-- `GenesisTokens`: a class with its tokens.
pub record GenesisTokens : Type 0 where
  pub owner : AccountId
  pub metadata : Bytes
  pub tokens : List GenesisToken

-- A chain with no entry in any storage.
abbrev pub empty : State
empty = record {
  nft = record {
    next_class_id = 0;
    classes = λ _. none;
    tokens = λ _ _. none;
    tokens_by_owner = λ _ _. [];
  };
  registry = record {
    runtime_origin = λ _. none;
    sub_names = λ _. [];
    account_to_subnames = λ _. [];
    subname_records = λ _. none;
    offered_to_account = λ _. [];
    official = none;
  };
  registrar = record {
    registrar_infos = λ _. none;
    reserved_list = λ _. false;
    owner_to_primary_name = λ _. none;
    offered_names = λ _. none;
  };
  origin = record { origins = λ _. false; is_registrar_open = false };
  price_oracle = record { base_price = []; rent_price = []; exchange_rate = 0 };
  redeems = λ _. false;
  listings = λ _. none;
  resolvers = record { records = λ _. []; texts = λ _. [] };
  balances = λ _. 0;
  events = [];
}

-- The tokens of a class; a token that cannot be minted stops the build.
unfoldable pub mint_tokens : Env → ℕ → List GenesisToken → State → Option State
mint_tokens env class_id [] s = some s
mint_tokens env class_id (t ∷ ts) s =
    elim (Nft.mint env t.owner class_id t.token_id t.metadata t.token_data s.nft) [
      | err e ↦ none
      | ok (_, n) ↦ mint_tokens env class_id ts (record s { nft = n })
    ]

unfoldable pub build_nft : Env → List GenesisTokens → State → Option State
unfolding mint_tokens
build_nft env [] s = some s
build_nft env (c ∷ cs) s = elim (Nft.create_class env c.owner c.metadata s.nft) [
  | err e ↦ none
  | ok (class_id, n) ↦ elim (mint_tokens env class_id c.tokens (record s { nft = n })) [
    | none ↦ none
    | some s' ↦ build_nft env cs s'
  ]
]

abbrev pub build_price_oracle : PriceOracle → State → State
build_price_oracle oracle s = record s { price_oracle = oracle }

unfoldable pub put_origins : List (DomainHash × DomainTracing) → State → State
put_origins [] s = s
put_origins ((node, tracing) ∷ rest) s = put_origins rest (record s {
  registry = record (s.registry) {
    runtime_origin = update node (some tracing) s.registry.runtime_origin;
  };
})

abbrev pub put_official : Option AccountId → State → State
put_official none s = s
put_official (some official) s = record s {
  registry = record (s.registry) { official = some official };
}

unfoldable pub build_registry : List (DomainHash × DomainTracing) → Option AccountId → State → State
unfolding put_origins
build_registry origins official s = put_official official (put_origins origins s)

unfoldable pub put_infos : List (DomainHash × RegistrarInfo) → State → State
put_infos [] s = s
put_infos ((node, info) ∷ rest) s = put_infos rest (after (set_info node (some info) s) s)

unfoldable pub put_reserved : List DomainHash → State → State
put_reserved [] s = s
put_reserved (node ∷ rest) s = put_reserved rest (after (set_reserved node true s) s)

-- A name that is no name is skipped.
unfoldable pub put_reserved_names : Env → List Bytes → State → State
put_reserved_names env [] s = s
put_reserved_names env (name ∷ rest) s =
    put_reserved_names env rest (elim (parse_name_to_node env name env.base_node) [
      | none ↦ s
      | some node ↦ after (set_reserved node true s) s
    ])

unfoldable pub build_registrar :
    Env → List (DomainHash × RegistrarInfo) → List DomainHash → List Bytes → State → State
unfolding put_infos put_reserved put_reserved_names
build_registrar env infos reserved_list reserved_names s =
    put_reserved_names env reserved_names (put_reserved reserved_list (put_infos infos s))

unfoldable pub build_resolvers : List (DomainHash × TextKind × Bytes) → State → State
unfolding set_entry
build_resolvers [] s = s
build_resolvers ((node, kind, content) ∷ rest) s = build_resolvers rest (record s {
  resolvers = record (s.resolvers) {
    texts =
        update node (set_entry (text_key kind) content (s.resolvers.texts node)) s.resolvers.texts;
  };
})

abbrev unit : ℕ
unit = 1000000000000

abbrev base_prices : List ℕ
base_prices =
    1000 * unit
    ∷ 100 * unit
    ∷ 45 * unit
    ∷ 25 * unit
    ∷ 10 * unit
    ∷ unit / 2
    ∷ unit / 2
    ∷ unit / 2
    ∷ unit / 2
    ∷ unit / 2
    ∷ unit / 2
    ∷ []

-- `vec![0; 11]` of the rents.
abbrev rent_prices : List ℕ
rent_prices = 0 ∷ 0 ∷ 0 ∷ 0 ∷ 0 ∷ 0 ∷ 0 ∷ 0 ∷ 0 ∷ 0 ∷ 0 ∷ []

abbrev pub genesis_prices : PriceOracle
genesis_prices = record { base_price = base_prices; rent_price = rent_prices; exchange_rate = 1 }

-- polkadot, kusama, paseo, westend, fellowship, hub, polkadothub, assethub, collectives, pusd, pop,
-- revive, jam, people, dap.
abbrev pub reserved_names : List Bytes
reserved_names =
    (112 ∷ 111 ∷ 108 ∷ 107 ∷ 97 ∷ 100 ∷ 111 ∷ 116 ∷ [])
    ∷ (107 ∷ 117 ∷ 115 ∷ 97 ∷ 109 ∷ 97 ∷ [])
    ∷ (112 ∷ 97 ∷ 115 ∷ 101 ∷ 111 ∷ [])
    ∷ (119 ∷ 101 ∷ 115 ∷ 116 ∷ 101 ∷ 110 ∷ 100 ∷ [])
    ∷ (102 ∷ 101 ∷ 108 ∷ 108 ∷ 111 ∷ 119 ∷ 115 ∷ 104 ∷ 105 ∷ 112 ∷ [])
    ∷ (104 ∷ 117 ∷ 98 ∷ [])
    ∷ (112 ∷ 111 ∷ 108 ∷ 107 ∷ 97 ∷ 100 ∷ 111 ∷ 116 ∷ 104 ∷ 117 ∷ 98 ∷ [])
    ∷ (97 ∷ 115 ∷ 115 ∷ 101 ∷ 116 ∷ 104 ∷ 117 ∷ 98 ∷ [])
    ∷ (99 ∷ 111 ∷ 108 ∷ 108 ∷ 101 ∷ 99 ∷ 116 ∷ 105 ∷ 118 ∷ 101 ∷ 115 ∷ [])
    ∷ (112 ∷ 117 ∷ 115 ∷ 100 ∷ [])
    ∷ (112 ∷ 111 ∷ 112 ∷ [])
    ∷ (114 ∷ 101 ∷ 118 ∷ 105 ∷ 118 ∷ 101 ∷ [])
    ∷ (106 ∷ 97 ∷ 109 ∷ [])
    ∷ (112 ∷ 101 ∷ 111 ∷ 112 ∷ 108 ∷ 101 ∷ [])
    ∷ (100 ∷ 97 ∷ 112 ∷ [])
    ∷ []

abbrev pub base_tokens : AccountId → List GenesisTokens
base_tokens root =
    record {
      owner = root;
      metadata = [];
      tokens =
          record {
            owner = root;
            metadata = [];
            token_data = record { children = 0 };
            token_id = native_basenode;
          }
          ∷ [];
    }
    ∷ []

-- The balances of the genesis.
abbrev pub endow : List AccountId → State
endow accounts = record empty { balances = λ a. if elem a accounts then 2 ^ 60 else 0 }

-- The builds behind that of the tokens.
unfoldable pub build_rest : Env → AccountId → State → State
unfolding build_registry build_registrar
build_rest env root s =
    build_registrar env [] [] reserved_names
      (build_registry [] (some root) (build_price_oracle genesis_prices s))

-- The names' part of `testnet_genesis`, with the balances; a panic of a build is `none`.
unfoldable pub testnet_genesis : Env → List AccountId → AccountId → Option State
unfolding build_nft build_rest
testnet_genesis env endowed_accounts root =
    elim (build_nft env (base_tokens root) (endow endowed_accounts)) [
      | none ↦ none
      | some s ↦ some (build_rest env root s)
    ]
