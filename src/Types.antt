-- ===== src/Types.antt =====
-- The shared data of the pallets (pallets/pns-types/src/lib.rs), with the storage items and the
-- structs of the pallets in `Storage`, their errors and events in `Dispatch`.
-- An account, an `H256` and a byte are natural numbers: the code only compares accounts, and an
-- `H256` is read as the big-endian number of its 32 bytes.
pub mod Ddns
pub mod Dispatch
pub mod Storage
use pns_pallets.Base.{ℕ, List}

abbrev pub AccountId : Type 0
AccountId = ℕ

abbrev pub DomainHash : Type 0
DomainHash = ℕ

abbrev pub Bytes : Type 0
Bytes = List ℕ

pub record RegistrarInfo : Type 0 where
  pub expire : ℕ
  pub capacity : ℕ
  pub register_fee : ℕ
  pub label_len : ℕ
  pub last_block : ℕ

pub data DomainTracing : Type 0 where
  runtime_origin : DomainHash → DomainTracing
  root : DomainTracing

-- `Record`: the token data of a name.
pub record Record : Type 0 where
  pub children : ℕ

pub data SubnameState : Type 0 where
  offered active rejected : SubnameState

pub record SubnameRecord : Type 0 where
  pub parent : DomainHash
  pub label : Bytes
  pub target : AccountId
  pub state : SubnameState

pub record OfferedNameRecord : Type 0 where
  pub buyer : AccountId
  pub recipient : AccountId
