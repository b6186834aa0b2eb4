-- ===== src/Chain/Apis/Dashboard.antt =====
-- What the dashboard of an account shows, `account_dashboard` of runtime/src/apis.rs.
use pns_pallets.Base.{
  ◌≡◌, Bool, false, Option, none, some, List, [], ◌∷◌, ◌==◌, elem, arith, if◌then◌else◌,
}
use pns_pallets.Types.{AccountId, DomainHash, OfferedNameRecord}
use pns_pallets.Types.Storage.{State}
use pns_pallets.Registry.Children.{is_offer_to}
use pns_pallets.Registry.Clear.{record_of}
use pns_pallets.Chain.Configs.{Externals, runtime}
use pns_pallets.Chain.Genesis.{testnet_genesis}
use pns_pallets.Chain.Tidy.{Extrinsic, run, run_collides}
use pns_pallets.Chain.Start.{genesis-run}
use pns_pallets.Chain.Apis.{offers_to, account_dashboard}

-- The value that an iterator has given for a key.
abbrev pub entry_of : DomainHash → List (DomainHash × OfferedNameRecord) → Option OfferedNameRecord
entry_of n [] = none
entry_of n ((k, rec) ∷ rest) = if n == k then some rec else entry_of n rest

-- An iterator gives each key once.
abbrev pub GivenOnce : List (DomainHash × OfferedNameRecord) → Type 0
GivenOnce [] = Unit {0}
GivenOnce ((k, rec) ∷ rest) = (entry_of k rest ≡ none) × GivenOnce rest

abbrev pub is_gift_to : AccountId → Option OfferedNameRecord → Bool
is_gift_to a none = false
is_gift_to a (some rec) = rec.recipient == a

elem-offers_to :
    (a : AccountId) (n : DomainHash) (xs : List (DomainHash × OfferedNameRecord))
    → GivenOnce xs
    → elem n (offers_to a xs) ≡ is_gift_to a (entry_of n xs)
unfolding offers_to
elem-offers_to a n [] once = ground arith
elem-offers_to a n ((k, rec) ∷ rest) once = ground (arith, once, elem-offers_to a n rest once.1)

-- From the genesis on, whatever the accounts call in whichever blocks, as long as no call enters a name
-- at a node that is another name's already: if the storage's iterator gives each key once, and for this
-- node what stands there, the dashboard of an account shows the node among the pending subnames exactly
-- if its record is an open offer to the account, and among the pending names exactly if a gift of it to
-- the account is pending.
pub account_dashboard_lem :
    (iter : (DomainHash → Option OfferedNameRecord) → List (DomainHash × OfferedNameRecord))
    (x : Externals) (endowed : List AccountId) (root a : AccountId) (xs : List Extrinsic)
    (n : DomainHash) (start : State)
    → testnet_genesis (runtime x) endowed root ≡ some start
    → run_collides xs start ≡ false
    → let s = run xs start in
      GivenOnce (iter s.registrar.offered_names)
      → entry_of n (iter s.registrar.offered_names) ≡ s.registrar.offered_names n
      → let shown = account_dashboard iter a s in
        (elem n shown.pending_subname_offers ≡ is_offer_to a (record_of n s))
        × (elem n shown.pending_name_offers ≡ is_gift_to a (s.registrar.offered_names n))
unfolding account_dashboard
account_dashboard_lem iter x endowed root a xs n start started free once given =
    let s = run xs start in
    let linked = (genesis-run x endowed root xs start started free).0.linked in
    ground (arith, linked.offers a n, elem-offers_to a n (iter s.registrar.offered_names) once)
