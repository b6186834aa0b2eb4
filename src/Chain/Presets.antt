-- ===== src/Chain/Presets.antt =====
-- The presets of the genesis, runtime/src/genesis_config_presets.rs, without the consensus keys. What
-- `get_preset` gives is built by `build_state` of runtime/src/apis.rs.
use pns_pallets.Base.{
  ◌≡◌, Bool, true, false, not, Option, none, some, is_some, List, [], ◌∷◌, ◌==◌, ◌&&◌, ◌||◌,
  if◌then◌else◌, refl, subst, sym, Bool-cases, inl, inr,
}
use pns_pallets.Types.{AccountId, Bytes}
use pns_pallets.Types.Storage.{State}
use pns_pallets.Dns.Records.{same_bytes}
use pns_pallets.Chain.Configs.{Externals, runtime}
use pns_pallets.Chain.Genesis.{testnet_genesis}
use pns_pallets.Chain.Tidy.{InOrder}
use pns_pallets.Chain.Start.{genesis-InOrder}

-- The accounts of the development keys, `Sr25519Keyring`, with the list of all of them, and the two
-- identifiers of presets that `sp_genesis_builder` defines.
pub record Keyring : Type 0 where
  pub alice : AccountId
  pub bob : AccountId
  pub alice_stash : AccountId
  pub bob_stash : AccountId
  pub one : AccountId
  pub two : AccountId
  pub iter : List AccountId
  pub dev_runtime_preset : Bytes
  pub local_testnet_runtime_preset : Bytes

-- `iter().filter(|v| v != &One && v != &Two)`
unfoldable pub without : AccountId → AccountId → List AccountId → List AccountId
without one two [] = []
without one two (v ∷ vs) =
    let rest = without one two vs in if not (v == one) && not (v == two) then v ∷ rest else rest

module _ (x : Externals) (k : Keyring) where
  unfoldable pub development_config_genesis : Option State
  development_config_genesis =
      testnet_genesis (runtime x) (k.alice ∷ k.bob ∷ k.alice_stash ∷ k.bob_stash ∷ []) k.alice

  unfoldable pub local_config_genesis : Option State
  unfolding without
  local_config_genesis = testnet_genesis (runtime x) (without k.one k.two k.iter) k.alice

  unfoldable pub get_preset : Bytes → Option State
  unfolding development_config_genesis local_config_genesis
  get_preset id =
      if same_bytes id k.dev_runtime_preset
      then development_config_genesis
      else if same_bytes id k.local_testnet_runtime_preset
      then local_config_genesis
      else none

  abbrev pub preset_names : List Bytes
  preset_names = k.dev_runtime_preset ∷ k.local_testnet_runtime_preset ∷ []

  abbrev pub is_supported : Bytes → List Bytes → Bool
  is_supported id [] = false
  is_supported id (name ∷ names) = same_bytes id name || is_supported id names

  -- A state that is in order, if there is one.
  abbrev pub Orderly : Option State → Type 0
  Orderly none = Unit {0}
  Orderly (some s) = InOrder s

  abbrev Starts : Option State → Type 0
  Starts o = (is_some o ≡ true) × Orderly o

  genesis-Starts :
      (endowed : List AccountId) (root : AccountId)
      → Starts (testnet_genesis (runtime x) endowed root)
  genesis-Starts endowed root =
      let (s, built, ordered) = genesis-InOrder x endowed root in
      subst Starts (sym built) (refl, ordered)

  -- Exactly the listed presets exist, and each builds a chain that is in order.
  pub get_preset-preset_names :
      (id : Bytes)
      → (is_some (get_preset id) ≡ is_supported id preset_names) × Orderly (get_preset id)
  unfolding get_preset
  get_preset-preset_names id = elim (Bool-cases (same_bytes id k.dev_runtime_preset)) [
    | inl dev ↦ rw dev (genesis-Starts (k.alice ∷ k.bob ∷ k.alice_stash ∷ k.bob_stash ∷ []) k.alice)
    | inr other ↦ elim (Bool-cases (same_bytes id k.local_testnet_runtime_preset)) [
      | inl local ↦ rw (other, local) (genesis-Starts (without k.one k.two k.iter) k.alice)
      | inr unknown ↦ rw (other, unknown) (refl, tt)
    ]
  ]
