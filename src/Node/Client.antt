-- ===== src/Node/Client.antt =====
-- The runtime's queries as a node calls them, `PnsStorageApi` of pallets/pns-runtime-api/src/lib.rs,
-- and the runtime's answers at the blocks that the node knows.
use pns_pallets.Base.{ℕ, List, Option, none, some}
use pns_pallets.Types.{
  AccountId, DomainHash, Bytes, RegistrarInfo, SubnameRecord, OfferedNameRecord,
}
use pns_pallets.Types.Ddns.{RecordType}
use pns_pallets.Types.Storage.{State}
use pns_pallets.Runtime.{Env}
use pns_pallets.Chain.Apis
use pns_pallets.Chain.Apis.{NameRecord, ListingInfo, AccountDashboard}

-- The queries at one block.
pub record PnsStorageApi : Type 0 where
  pub get_info : DomainHash → Option NameRecord
  pub all : List (DomainHash × RegistrarInfo)
  pub lookup : DomainHash → List RecordType → List (RecordType × Bytes)
  pub resolve_name : Bytes → Option NameRecord
  pub get_listing : Bytes → Option ListingInfo
  pub lookup_by_name : Bytes → List RecordType → List (RecordType × Bytes)
  pub get_subname : DomainHash → Option SubnameRecord
  pub account_dashboard : AccountId → AccountDashboard

-- What a node knows of the chain: the best block, and the queries at the block of a hash, which fail
-- where its state is not to be had.
pub record Client : Type 0 where
  pub best_hash : DomainHash
  pub best_number : ℕ
  pub runtime_api : DomainHash → Option PnsStorageApi

-- The orders in which the iterators of storage give the entries of two maps.
pub record Iterators : Type 0 where
  pub infos : (DomainHash → Option RegistrarInfo) → List (DomainHash × RegistrarInfo)
  pub offers : (DomainHash → Option OfferedNameRecord) → List (DomainHash × OfferedNameRecord)

-- The runtime's answers in the state of a block.
unfoldable pub answers_in : Iterators → Env × State → PnsStorageApi
answers_in iter (env, s) = record {
  get_info = λ id. Apis.get_info env id s;
  all = Apis.all iter.infos s;
  lookup = λ id record_types. Apis.lookup id record_types s;
  resolve_name = λ name. Apis.resolve_name env name s;
  get_listing = λ name. Apis.get_listing env name s;
  lookup_by_name = λ name record_types. Apis.lookup_by_name env name record_types s;
  get_subname = λ node. Apis.get_subname node s;
  account_dashboard = λ owner. Apis.account_dashboard iter.offers owner s;
}

-- A node whose best block has the given state, if it has one.
unfoldable pub node_at : Iterators → DomainHash → ℕ → Option (Env × State) → Client
unfolding answers_in
node_at iter best_hash best_number block = record {
  best_hash = best_hash;
  best_number = best_number;
  runtime_api = λ _. elim block [ none ↦ none | some b ↦ some (answers_in iter b) ];
}
