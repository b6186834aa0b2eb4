-- ===== src/Chain/Start.antt =====
-- The genesis of runtime/src/genesis_config_presets.rs never panics, and starts the chain in order.
use pns_pallets.Registry.{token_info}
use pns_pallets.Base.{
  is_some, ◌==◌, ◌≡◌, sym, ◌∙◌, ap, subst, true, false, none, some, List, [], ◌∷◌, arith, refl,
  Option-cases, inl, inr,
}
use pns_pallets.Types.{AccountId, DomainHash, Bytes}
use pns_pallets.Base.Storage.{Distinct}
use pns_pallets.Registrar.{set_reserved}
use pns_pallets.Types.Storage.{State, Nft}
use pns_pallets.Runtime.{Env, after}
use pns_pallets.Nft
use pns_pallets.Label.{parse_name_to_node}
use pns_pallets.Registry.Tidy.{IsTidy}
use pns_pallets.Chain.Configs.{Externals, runtime, native_basenode}
use pns_pallets.Chain.Genesis.{
  endow, base_tokens, build_nft, mint_tokens, build_registry, build_registrar, testnet_genesis,
  build_rest, build_price_oracle, genesis_prices, put_reserved_names, put_reserved, put_infos,
  put_origins, reserved_names,
}
use pns_pallets.Chain.Fresh.{fits}
use pns_pallets.Chain.Tidy.{InOrder, Extrinsic, run, run_collides, run-InOrder}

-- Reserving names changes the reserved list alone.
put_reserved_names-aside :
    (env : Env) (names : List Bytes) (s : State)
    → ((put_reserved_names env names s).registry ≡ s.registry)
      × ((put_reserved_names env names s).nft ≡ s.nft)
      × ((put_reserved_names env names s).registrar.registrar_infos ≡ s.registrar.registrar_infos)
unfolding put_reserved_names
put_reserved_names-aside env [] s = (refl, refl, refl)
put_reserved_names-aside env (name ∷ rest) s =
    elim (Option-cases (parse_name_to_node env name env.base_node)) [
      | inl wrong ↦ ground (arith, wrong, put_reserved_names-aside env rest s)
      | inr (node, named) ↦
          ground
            (arith, named, put_reserved_names-aside env rest (after (set_reserved node true s) s))
    ]

-- A registry without an entry is in order if no node but the base node has a token.
blank-IsTidy :
    (base : DomainHash) (s : State)
    → ((n : DomainHash) → s.registry.runtime_origin n ≡ none)
    → ((n : DomainHash) → s.registry.sub_names n ≡ [])
    → ((n : DomainHash) → s.registry.account_to_subnames n ≡ [])
    → ((n : DomainHash) → s.registry.subname_records n ≡ none)
    → ((n : DomainHash) → s.registry.offered_to_account n ≡ [])
    → ((n : DomainHash) → is_some (token_info n s) ≡ true → (n == base) ≡ true)
    → IsTidy base s
blank-IsTidy base s origins names holds records offers tokens = record {
  linked = record {
    offers = λ a n. ground (arith, offers a, records n);
    below = λ p n. ground (arith, names p, records n);
    holds = λ a n h. ground (arith, records n);
    distinct = λ p. subst Distinct (sym (names p)) tt;
    rooted = λ p n h. ground (arith, names p);
    counted = λ p h. ground (arith, origins p);
  };
  apart = λ n h. origins n;
  flat = λ n. ground (arith, origins n);
  based = origins base;
  minted = λ n h. ground (arith, origins n, tokens n h);
}

module _ (x : Externals) (endowed : List AccountId) (root : AccountId) where
  -- The tokens of the base node's class can be minted.
  build_nft-runs :
      (n : Nft) × (build_nft (runtime x) (base_tokens root) (endow endowed)
        ≡ some (record (endow endowed) { nft = n }))
  unfolding build_nft mint_tokens Nft.create_class Nft.mint
  build_nft-runs = (_, refl)

  build_nft-base :
      (n : DomainHash)
      → is_some (build_nft-runs.0.tokens 0 n) ≡ true
      → (n == native_basenode) ≡ true
  unfolding build_nft-runs
  build_nft-base n h = ground arith

  -- The genesis goes through, and leaves the registry in order.
  pub genesis-InOrder :
      (s : State) × (testnet_genesis (runtime x) endowed root ≡ some s) × InOrder s
  unfolding testnet_genesis build_rest build_registry build_registrar put_origins put_infos
      put_reserved
  genesis-InOrder =
      let n = build_nft-runs.0 in
      let start = record (endow endowed) { nft = n } in
      let s = build_rest (runtime x) root start in
      let aside =
        put_reserved_names-aside (runtime x) reserved_names
          (build_registry [] (some root) (build_price_oracle genesis_prices start)) in
      (
        s,
        ap (λ o. elim o [ none ↦ none | some s ↦ some (build_rest (runtime x) root s) ])
            build_nft-runs.1,
        (
          blank-IsTidy native_basenode s (λ n. ap (λ r. r.runtime_origin n) aside.0)
              (λ n. ap (λ r. r.sub_names n) aside.0)
              (λ n. ap (λ r. r.account_to_subnames n) aside.0)
              (λ n. ap (λ r. r.subname_records n) aside.0)
              (λ n. ap (λ r. r.offered_to_account n) aside.0)
              (λ n h. build_nft-base n (ap (λ f. is_some (f.tokens 0 n)) (sym aside.1) ∙ h)),
          λ n. ap (λ r. fits (r n)) aside.2,
        ),
      )

some_injective : (s t : State) → some s ≡ some t → s ≡ t
some_injective s t e = ap (λ o. elim o [ none ↦ s | some u ↦ u ]) e

-- From the genesis on, whatever the accounts call in whichever blocks, as long as no call enters a name
-- at a node that is another name's already: the indexes of offers and of the subnames below a name are
-- those of the records, every holder of an active subname is indexed, a root name counts its subnames,
-- only root names stand in the tree, no subname is one of them, only they and the base node have
-- tokens, and every capacity is a 32-bit number.
pub genesis-run :
    (x : Externals) (endowed : List AccountId) (root : AccountId) (xs : List Extrinsic) (s : State)
    → testnet_genesis (runtime x) endowed root ≡ some s
    → run_collides xs s ≡ false
    → InOrder (run xs s)
genesis-run x endowed root xs s started free =
    let (t, runs, good) = genesis-InOrder x endowed root in
    let same : s ≡ t = some_injective s t (sym started ∙ runs) in
    run-InOrder xs s free (subst InOrder (sym same) good)
