-- ===== src/Types/Storage.antt =====
-- The storage items of each pallet, and the chain's state that holds them all.
use pns_pallets.Base.{ℕ, Bool, List, Option}
use pns_pallets.Base.Storage.{StorageMap, DoubleSet}
use pns_pallets.Types.{
  AccountId, DomainHash, Bytes, RegistrarInfo, DomainTracing, Record, SubnameRecord,
  OfferedNameRecord,
}
use pns_pallets.Types.Dispatch.{Event}

-- The class data is `()` in this runtime.
pub record ClassInfo : Type 0 where
  pub metadata : Bytes
  pub total_issuance : ℕ
  pub owner : AccountId

pub record TokenInfo : Type 0 where
  pub metadata : Bytes
  pub owner : AccountId
  pub token_data : Record

-- nft.rs. `tokens_by_owner` holds the (class, token) pairs below an account.
pub record Nft : Type 0 where
  pub next_class_id : ℕ
  pub classes : StorageMap ClassInfo
  pub tokens : ℕ → StorageMap TokenInfo
  pub tokens_by_owner : AccountId → ℕ → List ℕ

-- registry.rs
pub record Registry : Type 0 where
  pub runtime_origin : StorageMap DomainTracing
  pub sub_names : DoubleSet
  pub account_to_subnames : DoubleSet
  pub subname_records : StorageMap SubnameRecord
  pub offered_to_account : DoubleSet
  pub official : Option AccountId

-- registrar.rs
pub record Registrar : Type 0 where
  pub registrar_infos : StorageMap RegistrarInfo
  pub reserved_list : DomainHash → Bool
  pub owner_to_primary_name : StorageMap DomainHash
  pub offered_names : StorageMap OfferedNameRecord

-- origin.rs
pub record Origin : Type 0 where
  pub origins : AccountId → Bool
  pub is_registrar_open : Bool

-- price_oracle.rs
pub record PriceOracle : Type 0 where
  pub base_price : List ℕ
  pub rent_price : List ℕ
  pub exchange_rate : ℕ

-- The marketplace.
pub record Listing : Type 0 where
  pub seller : AccountId
  pub price : ℕ
  pub expires_at : ℕ

-- The resolvers: the contents below a node, with the storage keys of their record types or kinds.
pub record Resolvers : Type 0 where
  pub records : DomainHash → List (ℕ × Bytes)
  pub texts : DomainHash → List (ℕ × Bytes)

-- `balances` is what the currency pallet keeps: the free balance of each account.
pub record State : Type 0 where
  pub nft : Nft
  pub registry : Registry
  pub registrar : Registrar
  pub origin : Origin
  pub price_oracle : PriceOracle
  pub redeems : ℕ → Bool
  pub listings : StorageMap Listing
  pub resolvers : Resolvers
  pub balances : AccountId → ℕ
  pub events : List Event
