-- ===== src/Chain/Apis.antt =====
-- The queries that the runtime answers, `PnsStorageApi` of pallets/pns-runtime-api/src/lib.rs as
-- runtime/src/apis.rs implements it, with the records of pallets/pns-types/src/lib.rs.
pub mod Resolving
pub mod Dashboard
use pns_pallets.Base.{
  ℕ, Bool, true, false, Option, none, some, is_some, List, [], ◌∷◌, ◌==◌, leb, if◌then◌else◌, map,
}
use pns_pallets.Types.{
  AccountId, DomainHash, Bytes, RegistrarInfo, SubnameRecord, OfferedNameRecord,
}
use pns_pallets.Types.Ddns.{RecordType}
use pns_pallets.Types.Storage.{State, TokenInfo, Listing}
use pns_pallets.Runtime.{Env}
use pns_pallets.Label.{new_with_len, encode_with_node, parse_name_to_node}
use pns_pallets.Resolvers
use pns_pallets.Registry.{token_info}

-- The account's own fields of the source's record; the hash of a block is a number.
pub record NameRecord : Type 0 where
  pub owner : AccountId
  pub expire : ℕ
  pub capacity : ℕ
  pub register_fee : ℕ
  pub for_sale : Bool
  pub last_block : ℕ
  pub read_block_number : ℕ
  pub read_block_hash : DomainHash

pub record ListingInfo : Type 0 where
  pub seller : AccountId
  pub price : ℕ
  pub expires_at : ℕ
  pub read_block_number : ℕ
  pub read_block_hash : DomainHash

pub record AccountDashboard : Type 0 where
  pub primary_name : Option DomainHash
  pub subnames : List DomainHash
  pub pending_subname_offers : List DomainHash
  pub pending_name_offers : List DomainHash

abbrev pub name_record : RegistrarInfo → TokenInfo → Bool → NameRecord
name_record info token for_sale = record {
  owner = token.owner;
  expire = info.expire;
  capacity = info.capacity;
  register_fee = info.register_fee;
  for_sale = for_sale;
  last_block = info.last_block;
  read_block_number = 0;
  read_block_hash = 0;
}

-- A registration that has not expired, of a token.
abbrev pub active_record : ℕ → Option RegistrarInfo → Option TokenInfo → Bool → Option NameRecord
active_record now none token for_sale = none
active_record now (some info) none for_sale = none
active_record now (some info) (some token) for_sale =
    if leb info.expire now then none else some (name_record info token for_sale)

-- Those of the owner, of the entries of `OfferedNames` in the order of its iterator.
unfoldable pub offers_to : AccountId → List (DomainHash × OfferedNameRecord) → List DomainHash
offers_to owner [] = []
offers_to owner ((node, rec) ∷ rest) =
    if rec.recipient == owner then node ∷ offers_to owner rest else offers_to owner rest

-- `unwrap_or_default`
abbrev pub node_or_zero : Option DomainHash → DomainHash
node_or_zero none = 0
node_or_zero (some node) = node

module _ (env : Env) where
  -- A name whose gift is pending is not active yet, and an expired one is up for grabs.
  unfoldable pub get_info : DomainHash → State → Option NameRecord
  get_info id s =
      if is_some (s.registrar.offered_names id)
      then none
      else active_record env.now (s.registrar.registrar_infos id) (token_info id s)
          (is_some (s.listings id))

  unfoldable pub resolve_name : Bytes → State → Option NameRecord
  resolve_name name s = elim (new_with_len env name) [
    | none ↦ none
    | some (label, _) ↦
        let node = encode_with_node env label env.base_node in
        if is_some (s.registrar.offered_names node)
        then none
        else active_record env.now (s.registrar.registrar_infos node) (token_info node s)
            (is_some (s.listings node))
  ]

  unfoldable pub get_listing : Bytes → State → Option ListingInfo
  get_listing name s = elim (new_with_len env name) [
    | none ↦ none
    | some (label, _) ↦ elim (s.listings (encode_with_node env label env.base_node)) [
      | none ↦ none
      | some l ↦ some (record {
        seller = l.seller;
        price = l.price;
        expires_at = l.expires_at;
        read_block_number = 0;
        read_block_hash = 0;
      })
    ]
  ]

  unfoldable pub lookup_by_name : Bytes → List RecordType → State → List (RecordType × Bytes)
  lookup_by_name name record_types s =
      Resolvers.lookup (node_or_zero (parse_name_to_node env name env.base_node)) record_types
        s.resolvers

abbrev pub lookup : DomainHash → List RecordType → State → List (RecordType × Bytes)
lookup id record_types s = Resolvers.lookup id record_types s.resolvers

abbrev pub get_subname : DomainHash → State → Option SubnameRecord
get_subname node s = s.registry.subname_records node

-- The entries of a map come in the order of its iterator, a function of the storage, outside the
-- pallets; the keys below an account are listed in the order of their insertion.
abbrev pub all :
    ((DomainHash → Option RegistrarInfo) → List (DomainHash × RegistrarInfo))
    → State
    → List (DomainHash × RegistrarInfo)
all iter s = iter s.registrar.registrar_infos

unfoldable pub account_dashboard :
    ((DomainHash → Option OfferedNameRecord) → List (DomainHash × OfferedNameRecord))
    → AccountId
    → State
    → AccountDashboard
unfolding offers_to
account_dashboard iter owner s = record {
  primary_name = s.registrar.owner_to_primary_name owner;
  subnames = s.registry.account_to_subnames owner;
  pending_subname_offers = s.registry.offered_to_account owner;
  pending_name_offers = offers_to owner (iter s.registrar.offered_names);
}
