-- ===== src/Chain/Calls.antt =====
-- The calls of the runtime on names, runtime/src/lib.rs: those of the price oracle, the registry, the
-- registrar, the resolvers and the marketplace. The runtime has no origin pallet and no redeem codes.
use pns_pallets.Base.{ℕ, List, Option}
use pns_pallets.Types.{AccountId, Bytes}
use pns_pallets.Types.Ddns.{RecordType}
use pns_pallets.Types.Dispatch.{RawOrigin, TextKind}
use pns_pallets.Runtime.{M, ⊤, Env}
use pns_pallets.PriceOracle
use pns_pallets.Resolvers
use pns_pallets.Registry.Names
use pns_pallets.Registrar
use pns_pallets.Marketplace
use pns_pallets.Chain.Configs.{check_node_useable}

pub data RuntimeCall : Type 0 where
  set_exchange_rate : ℕ → RuntimeCall
  set_base_price set_rent_price : List ℕ → RuntimeCall
  burn : Bytes → RuntimeCall
  set_official : AccountId → RuntimeCall
  add_reserved remove_reserved : Bytes → RuntimeCall
  register : Bytes → ℕ → Option Bytes → RuntimeCall
  renew : RuntimeCall
  transfer : ℕ → RuntimeCall
  release_name : RuntimeCall
  offer_subdomain : Bytes → ℕ → RuntimeCall
  accept_subdomain reject_subdomain : Bytes → Bytes → RuntimeCall
  revoke_subdomain : Bytes → RuntimeCall
  accept_offered_name : Bytes → RuntimeCall
  release_subdomain : Bytes → Bytes → RuntimeCall
  set_record : Bytes → RecordType → Bytes → RuntimeCall
  set_text : Bytes → TextKind → Bytes → RuntimeCall
  create_listing : ℕ → ℕ → RuntimeCall
  cancel_listing : RuntimeCall
  buy_name : Bytes → Option AccountId → RuntimeCall

unfoldable pub dispatch : Env → RawOrigin → RuntimeCall → M ⊤
dispatch env origin (set_exchange_rate rate) = PriceOracle.set_exchange_rate env origin rate
dispatch env origin (set_base_price prices) = PriceOracle.set_base_price env origin prices
dispatch env origin (set_rent_price prices) = PriceOracle.set_rent_price env origin prices
dispatch env origin (burn name) = Names.burn env origin name
dispatch env origin (set_official official) = Names.set_official env origin official
dispatch env origin (add_reserved name) = Registrar.add_reserved env origin name
dispatch env origin (remove_reserved name) = Registrar.remove_reserved env origin name
dispatch env origin (register name owner reject) =
    Registrar.Names.register env origin name owner reject
dispatch env origin renew = Registrar.Names.renew env origin
dispatch env origin (transfer to) = Registrar.Names.transfer env origin to
dispatch env origin release_name = Registrar.Names.release_name env origin
dispatch env origin (offer_subdomain label target) =
    Registrar.Subnames.offer_subdomain env origin label target
dispatch env origin (accept_subdomain parent label) =
    Registrar.Subnames.accept_subdomain env origin parent label
dispatch env origin (reject_subdomain parent label) =
    Registrar.Subnames.reject_subdomain env origin parent label
dispatch env origin (revoke_subdomain label) = Registrar.Subnames.revoke_subdomain env origin label
dispatch env origin (accept_offered_name name) = Registrar.Names.accept_offered_name env origin name
dispatch env origin (release_subdomain parent label) =
    Registrar.Subnames.release_subdomain env origin parent label
dispatch env origin (set_record name record_type content) =
    Resolvers.set_record env (check_node_useable env) origin name record_type content
dispatch env origin (set_text name kind content) =
    Resolvers.set_text env (check_node_useable env) origin name kind content
dispatch env origin (create_listing price expires_at) =
    Marketplace.create_listing env origin price expires_at
dispatch env origin cancel_listing = Marketplace.cancel_listing env origin
dispatch env origin (buy_name name recipient) = Marketplace.buy_name env origin name recipient
