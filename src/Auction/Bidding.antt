-- ===== src/Auction/Bidding.antt =====
-- What a bid does that goes through, `handle_bid` of pallets/pns-registrar/src/auction.rs.
use pns_pallets.Base.{
  ℕ, ◌-◌, ◌/◌, ◌≤◌, ◌<◌, ◌≡◌, ◌⊎◌, false, none, some, ap, ◌∙◌, max, arith, Option-cases, inl, inr,
}
use pns_pallets.Types.{AccountId, DomainHash}
use pns_pallets.Auction.{
  Config, Auctions, WinnerData, do_new_auction, handle_bid, auction_status, done,
}
use pns_pallets.Auction.Place.{FairAt, idle_of, book_of, place_bid-Raises}
use pns_pallets.Auction.Book.{Covered}
use pns_pallets.Auction.Bids.{open_bid, new_bid, opened, handle_bid-FairAt}
use pns_pallets.Auction.Book.{current_sample}

module _ {W : Type 0} (cfg : Config W) where
  -- The winner of a bid's sample, and whether the bid is above it.
  abbrev pub Outcome : AccountId → DomainHash → ℕ → ℕ → Auctions W → Auctions W → Type 0
  Outcome bidder node amount off s s' =
      (w : WinnerData) × (s.winning node off ≡ some w)
      × (((amount ≤ w.amount) × (s' ≡ s))
          ⊎ ((w.amount < amount)
              × (s'.winning node off ≡ some (record { bidder = bidder; amount = amount }))))

  FairAt-Covered :
      (now : ℕ) (j : DomainHash) (s : Auctions W)
      → FairAt cfg now s j
      → Covered (s.winning j) (s.reserved_amounts j)
  FairAt-Covered now j s fair = elim (Option-cases (s.auction_info j)) [
    | inl idle ↦
        let (empty, unreserved) = idle_of cfg now j s idle fair in
        λ o w e. ground (arith, e, empty o)
    | inr (start, auctioned) ↦ (book_of cfg now j s start auctioned fair).0.covered
  ]

  unregistered :
      (now bidder node amount : ℕ) (s s' : Auctions W)
      → handle_bid cfg now bidder node amount s ≡ done s'
      → cfg.is_registered node s.world ≡ false
  unfolding handle_bid
  unregistered now bidder node amount s s' e = ground (arith, e)

  minimal_met :
      (now bidder node amount : ℕ) (s s' : Auctions W)
      → s.auction_info node ≡ none
      → handle_bid cfg now bidder node amount s ≡ done s'
      → cfg.minimal_auction_price < amount
  unfolding handle_bid auction_status do_new_auction
  minimal_met now bidder node amount s s' idle e = ground (arith, idle, e)

  new_bid_lem :
      (now bidder node amount : ℕ) (s s' : Auctions W)
      → s.auction_info node ≡ none
      → ((j : DomainHash) → FairAt cfg now s j)
      → handle_bid cfg now bidder node amount s ≡ done s'
      → (cfg.minimal_auction_price < amount)
        × (s'.auction_info node ≡ some now)
        × (s'.winning node 0 ≡ some (record { bidder = bidder; amount = amount }))
  new_bid_lem now bidder node amount s s' idle fair e =
      let (empty, unreserved) = idle_of cfg now node s idle (fair node) in
      let placed = new_bid cfg now bidder node amount s s' idle e in
      let (spares, how) =
        place_bid-Raises cfg bidder node amount 0 (opened cfg now node s) s' placed in
      (
        minimal_met now bidder node amount s s' idle e,
        ap (λ f. f node) spares.0 ∙ ground arith,
        elim how [
          | inl (low, same) ↦ absurd (ground (arith, low, empty 0))
          | inr (above, winners, grown, enough) ↦ ap (λ f. f 0) winners ∙ ground arith
        ],
      )

  open_bid_lem :
      (now bidder node amount start : ℕ) (s s' : Auctions W)
      → s.auction_info node ≡ some start
      → ((j : DomainHash) → FairAt cfg now s j)
      → handle_bid cfg now bidder node amount s ≡ done s'
      → (now - start < cfg.ending_period)
        × Outcome bidder node amount ((now - start) / max cfg.sample_length 1) s s'
  open_bid_lem now bidder node amount start s s' auctioned fair e =
      let (kept, listed) = book_of cfg now node s start auctioned (fair node) in
      let (lt, placed) = open_bid cfg now bidder node amount start s s' auctioned kept.started e in
      let off = (now - start) / max cfg.sample_length 1 in
      let (spares, how) = place_bid-Raises cfg bidder node amount off s s' placed in
      (
        lt,
        elim (Option-cases (s.winning node off)) [
          | inl missing ↦
              absurd (ground (arith, missing, kept.taken off (current_sample cfg start now lt)))
          | inr (w, there) ↦ (
            w,
            there,
            elim how [
              | inl (low, same) ↦ inl (ground (arith, there, low), same)
              | inr (above, winners, grown, enough) ↦
                  inr (ground (arith, there, above), ap (λ f. f off) winners ∙ ground arith)
            ],
          )
        ],
      )

  -- In a state whose books are in order, a bid that goes through was for a name that is not registered.
  -- It was above the minimal price and opens the auction, with the bidder as its winner; or the auction
  -- is in its ending period, and the bid is no more than the winning one of the current sample and
  -- changes nothing, or it is more and the bidder is the winner of the sample now. All of its winning
  -- bids stand in reserve.
  pub handle_bid_lem :
      (now bidder node amount : ℕ) (s s' : Auctions W)
      → ((j : DomainHash) → FairAt cfg now s j)
      → handle_bid cfg now bidder node amount s ≡ done s'
      → (cfg.is_registered node s.world ≡ false)
        × (((s.auction_info node ≡ none)
              × (cfg.minimal_auction_price < amount)
              × (s'.auction_info node ≡ some now)
              × (s'.winning node 0 ≡ some (record { bidder = bidder; amount = amount })))
            ⊎ ((start : ℕ) × (s.auction_info node ≡ some start)
                × (now - start < cfg.ending_period)
                × Outcome bidder node amount ((now - start) / max cfg.sample_length 1) s s'))
        × Covered (s'.winning node) (s'.reserved_amounts node)
  handle_bid_lem now bidder node amount s s' fair e = (
    unregistered now bidder node amount s s' e,
    elim (Option-cases (s.auction_info node)) [
      | inl idle ↦
          let (met, started, wins) = new_bid_lem now bidder node amount s s' idle fair e in
          inl (idle, met, started, wins)
      | inr (start, auctioned) ↦
          let (lt, outcome) = open_bid_lem now bidder node amount start s s' auctioned fair e in
          inr (start, auctioned, lt, outcome)
    ],
    FairAt-Covered now node s' (handle_bid-FairAt cfg now bidder node amount s s' fair e node),
  )
