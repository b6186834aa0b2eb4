-- ===== src/Types/Dispatch.antt =====
-- Origins, errors and events of a dispatched call: the `Error` and `Event` enums of the pallets of
-- pallets/pns-registrar/src, pallets/pns-marketplace/src and pallets/pns-resolvers/src.
use pns_pallets.Base.{ℕ, List}
use pns_pallets.Types.{AccountId, DomainHash, Bytes}
use pns_pallets.Types.Ddns.{RecordType}

-- What frame_system passes to a call, as origin.rs matches on it.
pub data RawOrigin : Type 0 where
  root : RawOrigin
  signed : AccountId → RawOrigin
  none : RawOrigin

-- `nft::Error`
pub data NftError : Type 0 where
  no_available_class_id token_not_found class_not_found no_permission cannot_destroy_class
        max_metadata_exceeded :
      NftError

-- `registry::Error`
pub data RegistryError : Type 0 where
  no_permission not_exist capacity_not_enough subnode_not_clear ban_burn_base_node
        official_not_initiated invalid_name cannot_own_subname_under_own_domain
        subname_already_exists subname_not_found subname_not_offered subname_not_active
        not_subname_target not_subname_offerer subname_depth_exceeded target_already_owns_name :
      RegistryError

-- `registrar::Error`
pub data RegistrarError : Type 0 where
  not_owned occupied not_exist_or_occupied frozen parse_label_failed label_invalid not_useable
        not_renewable registry_duration_invalid registrar_closed already_has_canonical_name
        already_holds_subdomain no_canonical_name label_too_long name_already_offered
        offered_name_not_found not_offered_name_recipient :
      RegistrarError

-- `redeem_code::Error`
pub data RedeemError : Type 0 where
  range_invaild parse_label_failed invalid_signature redeems_has_been_used label_len_invalid :
      RedeemError

-- The marketplace's `Error`.
pub data MarketError : Type 0 where
  no_canonical_name already_listed not_listed listing_expired seller_no_longer_owns
        expiry_not_in_future invalid_name buyer_is_seller buyer_is_recipient seller_is_recipient :
      MarketError

-- The resolvers' `Error`.
pub data ResolverError : Type 0 where
  invalid_permission ss58_record_protected invalid_name : ResolverError

-- `bad_origin`, `cannot_lookup`, `token` and `overflow` are the runtime's own errors.
pub data DispatchError : Type 0 where
  bad_origin cannot_lookup overflow : DispatchError
  token : ℕ → DispatchError
  nft : NftError → DispatchError
  registry : RegistryError → DispatchError
  registrar : RegistrarError → DispatchError
  redeem : RedeemError → DispatchError
  market : MarketError → DispatchError
  resolver : ResolverError → DispatchError

pub data TextKind : Type 0 where
  email url avatar description notice keywords twitter github ipfs : TextKind

-- The events of all the pallets.
pub data Event : Type 0 where
  transferred : AccountId → AccountId → ℕ → DomainHash → Event
  token_minted : ℕ → DomainHash → DomainHash → AccountId → Event
  token_burned : ℕ → DomainHash → DomainHash → AccountId → AccountId → Event
  name_registered : Bytes → DomainHash → AccountId → ℕ → ℕ → Event
  name_renewed : DomainHash → AccountId → ℕ → ℕ → Event
  subname_offered : DomainHash → DomainHash → Bytes → AccountId → Event
  subname_accepted subname_rejected : DomainHash → AccountId → Event
  subname_revoked subname_released : DomainHash → DomainHash → Event
  name_reserved name_un_reserved : DomainHash → Event
  name_bought_for_recipient : DomainHash → AccountId → AccountId → Event
  offered_name_accepted offered_name_rejected : DomainHash → AccountId → Event
  base_price_changed rent_price_changed : List ℕ → Event
  exchange_rate_changed : AccountId → ℕ → Event
  added_origin removed_origin : AccountId → Event
  redeem_code_used : Bytes → DomainHash → AccountId → Event
  listed : DomainHash → AccountId → ℕ → ℕ → Event
  delisted : DomainHash → AccountId → Event
  sold : DomainHash → AccountId → AccountId → ℕ → ℕ → Event
  sold_as_gift : DomainHash → AccountId → AccountId → AccountId → ℕ → ℕ → Event
  texts_changed : DomainHash → TextKind → Bytes → Event
  records_changed : DomainHash → RecordType → Bytes → Event
