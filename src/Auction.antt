-- ===== src/Auction.antt =====
-- Auctions of names, pallets/pns-registrar/src/auction.rs. The crate does not build this file: its
-- module is commented out in lib.rs, and its interfaces are those of earlier traits. It is read here as
-- it is written, over an outside world of type `W` that holds what the other pallets keep.
pub mod Phases
pub mod Book
pub mod Place
pub mod Bids
pub mod Bidding
pub mod Sample
pub mod End
pub mod Hook
pub mod Run
use pns_pallets.Base.{
  ℕ, ◌+◌, ◌-◌, ◌/◌, ◌%◌, Bool, true, false, Option, none, some, List, [], ◌∷◌, ◌==◌, ltb, leb,
  if◌then◌else◌, is_some, min, max, u32_mod, ◌&&◌,
}
use pns_pallets.Base.Storage.{update}
use pns_pallets.Types.{AccountId, DomainHash, Bytes}
use pns_pallets.Types.Dispatch.{RawOrigin, DispatchError}
use pns_pallets.Runtime.{Result, ok, err, ⊤}

pub data AuctionStatus : Type 0 where
  starting_period auction_not_exist : AuctionStatus
  ending_period : ℕ → ℕ → AuctionStatus
  vrf_delay : ℕ → AuctionStatus

unfoldable pub is_in_progress : AuctionStatus → Bool
is_in_progress auction_not_exist = false
is_in_progress _ = true

unfoldable pub is_starting : AuctionStatus → Bool
is_starting starting_period = true
is_starting _ = false

unfoldable pub is_ending : AuctionStatus → Option (ℕ × ℕ)
is_ending (ending_period sample sub_sample) = some (sample, sub_sample)
is_ending _ = none

unfoldable pub is_vrf : AuctionStatus → Bool
is_vrf (vrf_delay n) = true
is_vrf _ = false

-- `[bidder,amount]`
pub record WinnerData : Type 0 where
  pub bidder : AccountId
  pub amount : ℕ

pub data Event : Type 0 where
  auction_started : ℕ → DomainHash → Event
  winning_offset : DomainHash → ℕ → Event
  reserved : AccountId → ℕ → ℕ → Event
  bid_accepted : AccountId → DomainHash → ℕ → Event

-- The pallet's errors that its code returns, and those of the other pallets.
pub data AuctionError : Type 0 where
  name_has_registered auction_ended bid_not_enough domain_build_failed un_anctionable
        get_node_failed :
      AuctionError
  dispatch : DispatchError → AuctionError

-- `trait Config`, with what it takes from outside. A domain is what its iterator gives. The hash of
-- `random` is read as the block number that it decodes to. A transfer that fails changes nothing; a
-- mint that fails may.
pub record Config (W : Type 0) : Type 0 where
  pub ensure_signed : RawOrigin → Result AccountId
  pub new_domain : Bytes → Option (List DomainHash)
  pub is_anctionable : List DomainHash → W → Bool
  pub is_registered : DomainHash → W → Bool
  pub for_auction_set_expires : DomainHash → W → W
  pub mint : AccountId → DomainHash → W → W
  pub reserve : AccountId → ℕ → W → Result W
  pub unreserve : AccountId → ℕ → W → W
  pub transfer : AccountId → AccountId → ℕ → W → Result W
  pub random : W → ℕ × ℕ
  pub offical : AccountId
  pub ending_period : ℕ
  pub minimal_auction_price : ℕ
  pub sample_length : ℕ

-- The storage, with the world outside. The reserves below a node are listed in the order of their
-- insertion.
pub record Auctions (W : Type 0) : Type 0 where
  pub auction_info : DomainHash → Option ℕ
  pub ongoing_auctions : List DomainHash
  pub reserved_amounts : DomainHash → List (AccountId × ℕ)
  pub winning : DomainHash → ℕ → Option WinnerData
  pub world : W
  pub events : List Event

-- A dispatch that goes through, or its error, which keeps no change: the call is transactional.
pub data BidResult (W : Type 0) : Type 0 where
  done : Auctions W → BidResult W
  rejected : AuctionError → BidResult W

-- `BTreeSet::insert`
unfoldable pub insert_node : DomainHash → List DomainHash → List DomainHash
insert_node k [] = k ∷ []
insert_node k (x ∷ xs) =
    let rest = insert_node k xs in
    if k == x then x ∷ xs else if ltb k x then k ∷ x ∷ xs else x ∷ rest

-- `ReservedAmounts::get(node, bidder).unwrap_or_default()`
unfoldable pub amount_of : AccountId → List (AccountId × ℕ) → ℕ
amount_of who [] = 0
amount_of who ((a, n) ∷ rest) = if who == a then n else amount_of who rest

unfoldable pub set_amount : AccountId → ℕ → List (AccountId × ℕ) → List (AccountId × ℕ)
set_amount who v [] = (who, v) ∷ []
set_amount who v ((a, n) ∷ rest) =
    let later = set_amount who v rest in if who == a then (a, v) ∷ rest else (a, n) ∷ later

unfoldable pub last : List DomainHash → Option DomainHash
last [] = none
last (x ∷ []) = some x
last (x ∷ y ∷ ys) = last (y ∷ ys)

abbrev pub or_else : Option WinnerData → Option WinnerData → Option WinnerData
or_else none o = o
or_else (some w) o = some w

-- `current_winning.map_or(true, |last| amount > last.1)`
abbrev pub outbids : ℕ → Option WinnerData → Bool
outbids amount none = true
outbids amount (some w) = ltb w.amount amount

module _ {W : Type 0} where
  -- The winner of a sample, or of the one before it.
  abbrev pub before : DomainHash → ℕ → Auctions W → Option WinnerData
  before node offset s = if ltb offset 1 then none else s.winning node (offset - 1)

  abbrev pub set_winner : DomainHash → ℕ → WinnerData → Auctions W → Auctions W
  set_winner node offset w s = record s {
    winning = update node (update offset (some w) (s.winning node)) s.winning;
  }

  abbrev pub deposit_event : Event → Auctions W → Auctions W
  deposit_event e s = record s { events = e ∷ s.events }

  -- Every bidder's reserve is released.
  unfoldable pub unreserve_all : (AccountId → ℕ → W → W) → List (AccountId × ℕ) → W → W
  unreserve_all unreserve [] w = w
  unreserve_all unreserve ((bidder, amount) ∷ rest) w =
      unreserve_all unreserve rest (unreserve bidder amount w)

module _ {W : Type 0} (cfg : Config W) where
  -- The status at a block of an auction with the given start, if it has one.
  unfoldable pub auction_status : ℕ → Option ℕ → AuctionStatus
  auction_status now none = auction_not_exist
  auction_status now (some start) =
      let duration = now - start in
      let length = max cfg.sample_length 1 in
      if ltb now start
      then starting_period
      else if ltb duration cfg.ending_period
      then ending_period (duration / length) (duration % length)
      else vrf_delay (duration - cfg.ending_period)

  -- The state that a new auction leaves.
  unfoldable pub do_new_auction : ℕ → DomainHash → ℕ → Auctions W → BidResult W
  do_new_auction now node amount s =
      if ltb cfg.minimal_auction_price amount
      then done (
          deposit_event (auction_started now node) (record s {
            auction_info = update node (some now) s.auction_info;
            ongoing_auctions = insert_node node s.ongoing_auctions;
          }))
      else rejected bid_not_enough

  -- The bidder's reserve is raised to the bid, unless it is more already.
  unfoldable pub top_up : AccountId → DomainHash → ℕ → Auctions W → BidResult W
  top_up bidder node amount s =
      let already_reserved = amount_of bidder (s.reserved_amounts node) in
      if ltb amount already_reserved
      then done s
      else elim (cfg.reserve bidder (amount - already_reserved) s.world) [
        | err e ↦ rejected (dispatch e)
        | ok w ↦ done (
            deposit_event (reserved bidder (amount - already_reserved) amount) (record s {
              reserved_amounts =
                  update node (set_amount bidder amount (s.reserved_amounts node))
                    s.reserved_amounts;
              world = w;
            }))
      ]

  -- A bid at the sample `offset` counts if it is above the last one.
  unfoldable pub place_bid : AccountId → DomainHash → ℕ → ℕ → Auctions W → BidResult W
  unfolding top_up
  place_bid bidder node amount offset s =
      if outbids amount (or_else (s.winning node offset) (before node offset s))
      then elim (top_up bidder node amount s) [
        | rejected e ↦ rejected e
        | done s' ↦ done (
            deposit_event (bid_accepted bidder node amount)
              (set_winner node offset (record { bidder = bidder; amount = amount }) s'))
      ]
      else done s

  unfoldable pub handle_bid : ℕ → AccountId → DomainHash → ℕ → Auctions W → BidResult W
  unfolding auction_status do_new_auction place_bid
  handle_bid now bidder node amount s =
      if cfg.is_registered node s.world
      then rejected name_has_registered
      else elim (auction_status now (s.auction_info node)) [
        | auction_not_exist ↦ elim (do_new_auction now node amount s) [
          | rejected e ↦ rejected e
          | done s' ↦ place_bid bidder node amount 0 s'
        ]
        | starting_period ↦ place_bid bidder node amount 0 s
        | ending_period o sub_sample ↦ place_bid bidder node amount o s
        | vrf_delay n ↦ rejected auction_ended
      ]

  unfoldable pub bid : ℕ → RawOrigin → Bytes → ℕ → Auctions W → BidResult W
  unfolding handle_bid last
  bid now origin name amount s = elim (cfg.ensure_signed origin) [
    | err e ↦ rejected (dispatch e)
    | ok who ↦ elim (cfg.new_domain name) [
      | none ↦ rejected domain_build_failed
      | some domain ↦
          if cfg.is_anctionable domain s.world
          then elim (last domain) [
            | none ↦ rejected get_node_failed
            | some node ↦ handle_bid now who node amount s
          ]
          else rejected un_anctionable
    ]
  ]

  -- The winner, once the auction has ended and the random seed was known after that; the division by an
  -- ending period of no blocks panics, which is no outcome.
  unfoldable pub check_auction_end :
      ℕ → DomainHash → Auctions W → Option (Option WinnerData × Auctions W)
  check_auction_end now node s = elim (s.auction_info node) [
    | none ↦ some (none, s)
    | some start_time ↦
        let late_end = min (start_time + cfg.ending_period) (u32_mod - 1) in
        let (raw_offset, known_since) = cfg.random s.world in
        let offset = (raw_offset % cfg.ending_period) / max cfg.sample_length 1 in
        if leb late_end now && leb late_end known_since
        then if cfg.ending_period == 0
          then none
          else some (
            s.winning node offset,
            deposit_event (winning_offset node offset) (record s {
              winning = update node (λ _. none) s.winning;
              auction_info = update node none s.auction_info;
            }),
          )
        else some (none, s)
  ]

  -- A transfer that fails ends it, with the reserves released all the same.
  unfoldable pub manage_auction_end : DomainHash → WinnerData → Auctions W → Auctions W
  unfolding unreserve_all
  manage_auction_end node winner_data s =
      let w = unreserve_all cfg.unreserve (s.reserved_amounts node) s.world in
      let drained = update node [] s.reserved_amounts in
      elim (cfg.transfer winner_data.bidder cfg.offical winner_data.amount w) [
        | err e ↦ record s { reserved_amounts = drained; world = w }
        | ok w' ↦ record s {
          reserved_amounts = drained;
          world = cfg.mint winner_data.bidder node (cfg.for_auction_set_expires node w');
        }
      ]

  -- In its ending period an auction keeps the last winner for a new sample; without one it panics.
  unfoldable pub take_sample : ℕ → DomainHash → Auctions W → Option (Auctions W)
  unfolding auction_status
  take_sample n node s = elim (auction_status n (s.auction_info node)) [
    | ending_period offset sub_sample ↦
        if is_some (s.winning node offset) then some s else elim (before node offset s) [
          | none ↦ none
          | some w ↦ some (set_winner node offset w s)
        ]
    | _ ↦ some s
  ]

  unfoldable pub end_auction : ℕ → DomainHash → Auctions W → Option (Auctions W)
  unfolding check_auction_end manage_auction_end
  end_auction n node s = elim (check_auction_end n node s) [
    | none ↦ none
    | some (none, s') ↦ some s'
    | some (some winner_data, s') ↦ some (manage_auction_end node winner_data s')
  ]

  unfoldable pub visit : ℕ → DomainHash → Auctions W → Option (Auctions W)
  unfolding take_sample end_auction
  visit n node s = elim (take_sample n node s) [ none ↦ none | some s' ↦ end_auction n node s' ]

  unfoldable pub visit_all : ℕ → List DomainHash → Auctions W → Option (Auctions W)
  unfolding visit
  visit_all n [] s = some s
  visit_all n (node ∷ nodes) s = elim (visit n node s) [
    | none ↦ none
    | some s' ↦ visit_all n nodes s'
  ]

  -- The hook at the begin of block `n`; no outcome is a panic.
  unfoldable pub on_initialize : ℕ → Auctions W → Option (Auctions W)
  unfolding visit_all
  on_initialize n s = visit_all n s.ongoing_auctions s
