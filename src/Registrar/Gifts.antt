-- ===== src/Registrar/Gifts.antt =====
-- A name bought for somebody else, which waits for its recipient: `offer_bought_name` and
-- `accept_offered_name` of pallets/pns-registrar/src/registrar.rs.
use pns_pallets.Base.{Option, none, some}
use pns_pallets.Types.{AccountId, OfferedNameRecord}
use pns_pallets.Label.{Label}

abbrev offered_to : Option OfferedNameRecord → Option AccountId
offered_to none = none
offered_to (some offer) = some offer.recipient
