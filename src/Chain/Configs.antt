-- ===== src/Chain/Configs.antt =====
-- How the runtime configures the pallets, runtime/src/configs/mod.rs with the constants of
-- runtime/src/lib.rs and pallets/pns-types/src/lib.rs.
use pns_pallets.Base.{ℕ, ◌*◌, ◌/◌, Bool, true, false, none, some}
use pns_pallets.Types.{AccountId, DomainHash, Bytes}
use pns_pallets.Types.Dispatch.{RawOrigin}
use pns_pallets.Types.Storage.{State}
use pns_pallets.Runtime.{Result, ok, err, ⊤, Env}
use pns_pallets.Expiry.{registrar_info, check_expires_useable}
use pns_pallets.Registry.{verify}

abbrev pub milli_secs_per_block : ℕ
milli_secs_per_block = 6000

abbrev pub minutes : ℕ
minutes = 60000 / milli_secs_per_block

abbrev pub hours : ℕ
hours = minutes * 60

abbrev pub days : ℕ
days = hours * 24

-- `DOT_BASENODE`, the native base node of a build without the feature `kusama`.
abbrev pub native_basenode : DomainHash
native_basenode = 28860543197223043133013784600372423225309622540484740764100769870428629070030

-- What lies outside the repository, in one block.
pub record Externals : Type 0 where
  pub keccak_256 : Bytes → DomainHash
  pub encode_account : AccountId → Bytes
  pub verify_signature : Bytes → Bytes → AccountId → Bool
  pub ensure_signed : RawOrigin → Result AccountId
  pub ensure_root : RawOrigin → Result ⊤
  pub lookup : ℕ → Result AccountId
  pub withdraw : AccountId → ℕ → (AccountId → ℕ) → Result (AccountId → ℕ)
  pub transfer : AccountId → AccountId → ℕ → (AccountId → ℕ) → Result (AccountId → ℕ)
  pub now : ℕ
  pub block_number : ℕ
  pub parent_hash : Bytes

-- `EnsureRootAsAccountId`: the root origin, as the account of 32 zero bytes.
abbrev pub ensure_root_as_account_id : (RawOrigin → Result ⊤) → RawOrigin → Result AccountId
ensure_root_as_account_id ensure_root origin = elim (ensure_root origin) [
  | ok _ ↦ ok 0
  | err e ↦ err e
]

-- `PnsIsOpen`
abbrev pub is_open : State → Bool
is_open s = true

-- The `Config` of each pallet.
abbrev pub runtime : Externals → Env
runtime x = record {
  keccak_256 = x.keccak_256;
  encode_account = x.encode_account;
  verify_signature = x.verify_signature;
  ensure_signed = x.ensure_signed;
  ensure_root = x.ensure_root;
  lookup = x.lookup;
  withdraw = x.withdraw;
  transfer = x.transfer;
  manager = λ origin s. ensure_root_as_account_id x.ensure_root origin;
  is_open = is_open;
  base_node = native_basenode;
  grace_period = 30 * days * milli_secs_per_block;
  default_capacity = 10;
  max_registration_duration = 365 * days * milli_secs_per_block;
  protocol_fee_bps = 200;
  max_content_len = 1024;
  max_class_metadata = 0;
  max_token_metadata = 0;
  now = x.now;
  block_number = x.block_number;
  parent_hash = x.parent_hash;
}

abbrev pub is_ok {ℓ} : {A : Type ℓ} → Result A → Bool
is_ok (ok a) = true
is_ok (err e) = false

-- `PnsRegistryChecker::check_node_useable`
unfoldable pub check_node_useable : Env → DomainHash → AccountId → State → Bool
unfolding verify check_expires_useable
check_node_useable env node owner s = elim (verify owner node s) [
  | err e ↦ false
  | ok _ ↦ elim (registrar_info node s) [
    | none ↦ true
    | some info ↦ is_ok (check_expires_useable env node s)
  ]
]
