-- ===== src/Marketplace.antt =====
-- The marketplace, pallets/pns-marketplace/src/lib.rs: listings of canonical names and their sale.
pub mod Fee
pub mod Sale
pub mod Stale
use pns_pallets.Base.{
  ℕ, ◌/◌, Bool, not, Option, none, some, ◌==◌, ltb, is_some, saturating_mul, u128_mod,
}
use pns_pallets.Base.Storage.{update}
use pns_pallets.Types.{AccountId, DomainHash, Bytes}
use pns_pallets.Types.Dispatch.{RawOrigin, DispatchError, market, MarketError, Event}
use pns_pallets.Types.Storage.{State, Listing}
use pns_pallets.Runtime.{
  M, ⊤, Env, ◌>>=◌, ◌>>◌, ensure, ok_or, gets, modify, on_resolvers, deposit_event, signed_by, pay,
  burn_fee,
}
use pns_pallets.Label.{new, encode_with_node}
use pns_pallets.Resolvers.{set_ss58_record, set_origin_record, clear_records_except_ss58}
use pns_pallets.Registry.Offers.{owner_of}
use pns_pallets.Registrar.{primary_name}
use pns_pallets.Registrar.Trade.{transfer_name, offer_bought_name}

abbrev pub reject : MarketError → DispatchError
reject e = market e

abbrev pub set_listing : DomainHash → Option Listing → M ⊤
set_listing node v = modify λ s. record s { listings = update node v s.listings }

abbrev pub is_account : AccountId → Option AccountId → Bool
is_account a none = Bool.false
is_account a (some b) = a == b

module _ (env : Env) where
  -- `NameRegistry::canonical_name(&who).ok_or(NoCanonicalName)?`
  abbrev canonical_name : AccountId → M DomainHash
  canonical_name who s = ok_or (primary_name who s) (reject MarketError.no_canonical_name) s

  unfoldable pub create_listing : RawOrigin → ℕ → ℕ → M ⊤
  create_listing origin price expires_at = do
    who ← signed_by env origin
    ensure (ltb env.now expires_at) (reject MarketError.expiry_not_in_future)
    node ← canonical_name who
    listed ← gets (λ s. is_some (s.listings node))
    ensure (not listed) (reject MarketError.already_listed)
    set_listing node (some (record { seller = who; price = price; expires_at = expires_at }))
    deposit_event (Event.listed node who price expires_at)

  unfoldable pub cancel_listing : RawOrigin → M ⊤
  cancel_listing origin = do
    who ← signed_by env origin
    node ← canonical_name who
    listed ← gets (λ s. is_some (s.listings node))
    ensure listed (reject MarketError.not_listed)
    set_listing node none
    deposit_event (Event.delisted node who)

  -- `price.saturating_mul(bps) / 10_000`
  unfoldable pub protocol_fee : ℕ → ℕ
  protocol_fee price = saturating_mul u128_mod price env.protocol_fee_bps / 10000

  -- What follows the payment, for a gift and for a plain purchase.
  unfoldable pub deliver : AccountId → Listing → DomainHash → ℕ → Option AccountId → M ⊤
  deliver buyer listing node fee (some recip) = do
    ensure (not (recip == buyer)) (reject MarketError.buyer_is_recipient)
    ensure (not (recip == listing.seller)) (reject MarketError.seller_is_recipient)
    offer_bought_name env listing.seller buyer recip node
    deposit_event (Event.sold_as_gift node listing.seller buyer recip listing.price fee)
  deliver buyer listing node fee none = do
    transfer_name env listing.seller buyer node
    on_resolvers (clear_records_except_ss58 node)
    set_ss58_record env node buyer
    set_origin_record env node env.parent_hash
    deposit_event (Event.sold node listing.seller buyer listing.price fee)

  unfoldable pub buy_name : RawOrigin → Bytes → Option AccountId → M ⊤
  unfolding deliver
  buy_name origin name recipient = do
    buyer ← signed_by env origin
    label ← ok_or (new env name) (reject MarketError.invalid_name)
    let node = encode_with_node env label env.base_node
    found ← gets (λ s. s.listings node)
    listing ← ok_or found (reject MarketError.not_listed)
    ensure (not (buyer == listing.seller)) (reject MarketError.buyer_is_seller)
    ensure (ltb env.now listing.expires_at) (reject MarketError.listing_expired)
    owner ← gets (owner_of node)
    ensure (is_account listing.seller owner) (reject MarketError.seller_no_longer_owns)
    pay env buyer listing.seller listing.price
    let fee = protocol_fee listing.price
    burn_fee env listing.seller fee
    set_listing node none
    deliver buyer listing node fee recipient
