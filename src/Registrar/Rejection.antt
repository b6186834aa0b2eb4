-- ===== src/Registrar/Rejection.antt =====
-- The offer that a registration rejects first, `reject_offer` of `register` in
-- pallets/pns-registrar/src/registrar.rs.
use pns_pallets.Base.{◌≡◌, Option, none, some}
use pns_pallets.Types.{AccountId, DomainHash, OfferedNameRecord, SubnameRecord}
use pns_pallets.Types.Storage.{State}
use pns_pallets.Label.{Label}
use pns_pallets.Nft
use pns_pallets.Registry.Offers.{owner_of}

abbrev target_of : Option SubnameRecord → Option AccountId
target_of none = none
target_of (some rec) = some rec.target

-- A pending gift was for the caller, who owned the name; the name has no owner any more, and the gift is
-- gone. Otherwise a subname was offered to the caller, and its record is gone.
abbrev pub Rejects : AccountId → DomainHash → Option OfferedNameRecord → State → State → Type 0
Rejects caller node (some gift) s t =
    (gift.recipient ≡ caller)
    × (owner_of node s ≡ some caller)
    × (owner_of node t ≡ none)
    × (t.registrar.offered_names node ≡ none)
Rejects caller node none s t =
    (target_of (s.registry.subname_records node) ≡ some caller)
    × (t.registry.subname_records node ≡ none)
