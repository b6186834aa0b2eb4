-- ===== src/Chain/Aside.antt =====
-- The calls that leave the registry and the NFTs alone: those of the price oracle, the resolvers, the
-- listings, and `renew` and `accept_offered_name` of pallets/pns-registrar/src/registrar.rs.
use pns_pallets.Base.{ℕ, Bool, none, some, List, arith}
use pns_pallets.Types.{AccountId, DomainHash, Bytes}
use pns_pallets.Types.Ddns.{RecordType}
use pns_pallets.Types.Dispatch.{RawOrigin, TextKind}
use pns_pallets.Types.Storage.{State}
use pns_pallets.Runtime.{Env}
use pns_pallets.PriceOracle.{set_exchange_rate, set_base_price, set_rent_price}
use pns_pallets.Resolvers.{set_record, set_text, set_ss58_record, set_origin_record}
use pns_pallets.Registrar.{add_reserved, remove_reserved, ensure_nameless}
use pns_pallets.Registrar.Names.{renew, accept_offered_name, pay_registration}
use pns_pallets.Registrar.{forget_primary_name}
use pns_pallets.Marketplace.{create_listing, cancel_listing}
use pns_pallets.Registry.TidyCalls.{Aside, PaysAside}

module _ (env : Env) (origin : RawOrigin) (s : State) where
  pub set_exchange_rate-Aside : (rate : ℕ) → Aside s (set_exchange_rate env origin rate s)
  unfolding set_exchange_rate
  set_exchange_rate-Aside rate = ground arith

  pub set_base_price-Aside : (prices : List ℕ) → Aside s (set_base_price env origin prices s)
  unfolding set_base_price
  set_base_price-Aside prices = ground arith

  pub set_rent_price-Aside : (prices : List ℕ) → Aside s (set_rent_price env origin prices s)
  unfolding set_rent_price
  set_rent_price-Aside prices = ground arith

  pub add_reserved-Aside : (name : Bytes) → Aside s (add_reserved env origin name s)
  unfolding add_reserved
  add_reserved-Aside name = ground arith

  pub remove_reserved-Aside : (name : Bytes) → Aside s (remove_reserved env origin name s)
  unfolding remove_reserved
  remove_reserved-Aside name = ground arith

  pub renew-Aside : Aside s (renew env origin s)
  unfolding renew
  renew-Aside = ground arith

  pub accept_offered_name-Aside : (name : Bytes) → Aside s (accept_offered_name env origin name s)
  unfolding accept_offered_name set_ss58_record set_origin_record ensure_nameless
  accept_offered_name-Aside name = ground arith

  pub set_record-Aside :
      (useable : DomainHash → AccountId → State → Bool) (name : Bytes) (t : RecordType)
      (content : Bytes)
      → Aside s (set_record env useable origin name t content s)
  unfolding set_record
  set_record-Aside useable name t content = ground arith

  pub set_text-Aside :
      (useable : DomainHash → AccountId → State → Bool) (name : Bytes) (k : TextKind)
      (content : Bytes)
      → Aside s (set_text env useable origin name k content s)
  unfolding set_text
  set_text-Aside useable name k content = ground arith

  pub create_listing-Aside :
      (price expires_at : ℕ) → Aside s (create_listing env origin price expires_at s)
  unfolding create_listing
  create_listing-Aside price expires_at = ground arith

  pub cancel_listing-Aside : Aside s (cancel_listing env origin s)
  unfolding cancel_listing
  cancel_listing-Aside = ground arith

-- The payment of a registration.
pub pay_registration-PaysAside :
    (env : Env) (caller : AccountId) (node : DomainHash) (fee expire label_len : ℕ)
    → PaysAside (pay_registration env caller node fee expire label_len)
unfolding pay_registration forget_primary_name
pay_registration-PaysAside env caller node fee expire label_len none s = ground arith
pay_registration-PaysAside env caller node fee expire label_len (some pre) s = ground arith
