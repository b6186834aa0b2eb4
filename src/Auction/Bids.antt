-- ===== src/Auction/Bids.antt =====
-- Bids keep the books of all names in order, `bid` of pallets/pns-registrar/src/auction.rs.
use pns_pallets.Base.{
  ℕ, ◌-◌, ◌/◌, ◌≤◌, ◌<◌, ◌≡◌, false, none, some, ◌==◌, ap, sym, subst, ◌∙◌, elem, max, arith, refl,
  Option-cases, inl, inr, ==_iff, Bool-cases,
}
use pns_pallets.Base.Storage.{update}
use pns_pallets.Types.{AccountId, DomainHash, Bytes}
use pns_pallets.Types.Dispatch.{RawOrigin}
use pns_pallets.Runtime.{Result-cases}
use pns_pallets.Auction.{
  Config, Auctions, before, insert_node, place_bid, do_new_auction, handle_bid, bid, auction_status,
  done, last,
}
use pns_pallets.Auction.{deposit_event, auction_started}
use pns_pallets.Auction.Place.{
  FairAt, FairAt-same, FairAt-IsKept, Spares, Spares-FairAt, elem-insert_node, idle_of, book_of,
  place_bid-Raises,
}
use pns_pallets.Auction.Book.{higher_bid, first_bid}

module _ {W : Type 0} (cfg : Config W) where
  -- A name that is auctioned.
  pub open_bid :
      (now bidder node amount start : ℕ) (s s' : Auctions W)
      → s.auction_info node ≡ some start
      → start ≤ now
      → handle_bid cfg now bidder node amount s ≡ done s'
      → (now - start < cfg.ending_period)
        × (place_bid cfg bidder node amount ((now - start) / max cfg.sample_length 1) s ≡ done s')
  unfolding handle_bid auction_status
  open_bid now bidder node amount start s s' auctioned le e = ground (arith, auctioned, le, e)

  -- A name that is not, with the auction that the bid starts.
  abbrev pub opened : ℕ → DomainHash → Auctions W → Auctions W
  opened now node s = deposit_event (auction_started now node) (record s {
    auction_info = update node (some now) s.auction_info;
    ongoing_auctions = insert_node node s.ongoing_auctions;
  })

  pub new_bid :
      (now bidder node amount : ℕ) (s s' : Auctions W)
      → s.auction_info node ≡ none
      → handle_bid cfg now bidder node amount s ≡ done s'
      → place_bid cfg bidder node amount 0 (opened now node s) ≡ done s'
  unfolding handle_bid auction_status do_new_auction
  new_bid now bidder node amount s s' idle e = ground (arith, idle, e)

  open_bid-FairAt :
      (now bidder node amount start : ℕ) (s s' : Auctions W)
      → s.auction_info node ≡ some start
      → ((j : DomainHash) → FairAt cfg now s j)
      → handle_bid cfg now bidder node amount s ≡ done s'
      → Spares cfg node s s' × FairAt cfg now s' node
  open_bid-FairAt now bidder node amount start s s' auctioned fair e =
      let (kept, listed) = book_of cfg now node s start auctioned (fair node) in
      let (lt, placed) = open_bid now bidder node amount start s s' auctioned kept.started e in
      let off = (now - start) / max cfg.sample_length 1 in
      let (spares, how) = place_bid-Raises cfg bidder node amount off s s' placed in
      (
        spares,
        elim how [
          | inl (low, same) ↦ subst (λ t. FairAt cfg now t node) (sym same) (fair node)
          | inr (above, winners, grown, enough) ↦
              FairAt-IsKept cfg now node s' start _ (ap (λ f. f node) spares.0 ∙ auctioned)
                (ap (elem node) spares.1 ∙ listed) winners
                (higher_bid cfg start now (s.winning node) (s.reserved_amounts node) kept
                  (record { bidder = bidder; amount = amount }) (s'.reserved_amounts node) lt
                  (before node off s) above grown enough)
        ],
      )

  new_bid-FairAt :
      (now bidder node amount : ℕ) (s s' : Auctions W)
      → s.auction_info node ≡ none
      → ((j : DomainHash) → FairAt cfg now s j)
      → handle_bid cfg now bidder node amount s ≡ done s'
      → Spares cfg node (opened now node s) s' × FairAt cfg now s' node
  new_bid-FairAt now bidder node amount s s' idle fair e =
      let (empty, unreserved) = idle_of cfg now node s idle (fair node) in
      let placed = new_bid now bidder node amount s s' idle e in
      let (spares, how) = place_bid-Raises cfg bidder node amount 0 (opened now node s) s' placed in
      (
        spares,
        elim how [
          | inl (low, same) ↦ absurd (ground (arith, low, empty 0))
          | inr (above, winners, grown, enough) ↦
              FairAt-IsKept cfg now node s' now _ (ap (λ f. f node) spares.0 ∙ ground arith)
                (ap (elem node) spares.1
                  ∙ ground (arith, elem-insert_node node node s.ongoing_auctions))
                winners
                (first_bid cfg now (s.winning node) (s'.reserved_amounts node)
                  (record { bidder = bidder; amount = amount }) empty enough)
        ],
      )

  opened-FairAt :
      (now node j : ℕ) (s : Auctions W)
      → (node == j) ≡ false
      → FairAt cfg now s j
      → FairAt cfg now (opened now node s) j
  opened-FairAt now node j s other h =
      FairAt-same cfg now j s (opened now node s) (ground (arith, other))
        (ground (arith, other, elem-insert_node j node s.ongoing_auctions)) refl refl h

  pub handle_bid-FairAt :
      (now bidder node amount : ℕ) (s s' : Auctions W)
      → ((j : DomainHash) → FairAt cfg now s j)
      → handle_bid cfg now bidder node amount s ≡ done s'
      → (j : DomainHash) → FairAt cfg now s' j
  handle_bid-FairAt now bidder node amount s s' fair e j =
      elim (Option-cases (s.auction_info node)) [
        | inl idle ↦
            let (spares, own) = new_bid-FairAt now bidder node amount s s' idle fair e in
            elim (Bool-cases (node == j)) [
              | inl same ↦ subst (FairAt cfg now s') ((==_iff node j).0 same) own
              | inr other ↦
                  Spares-FairAt cfg now node (opened now node s) s' j spares other
                    (opened-FairAt now node j s other (fair j))
            ]
        | inr (start, auctioned) ↦
            let (spares, own) =
              open_bid-FairAt now bidder node amount start s s' auctioned fair e in
            elim (Bool-cases (node == j)) [
              | inl same ↦ subst (FairAt cfg now s') ((==_iff node j).0 same) own
              | inr other ↦ Spares-FairAt cfg now node s s' j spares other (fair j)
            ]
      ]

  bid_handled :
      (now : ℕ) (origin : RawOrigin) (name : Bytes) (amount : ℕ) (s s' : Auctions W)
      → bid cfg now origin name amount s ≡ done s'
      → (who : AccountId) × (node : DomainHash) × (handle_bid cfg now who node amount s ≡ done s')
  unfolding bid
  bid_handled now origin name amount s s' e = elim (Result-cases (cfg.ensure_signed origin)) [
    | inl (error, unsigned) ↦ absurd (ground (arith, unsigned, e))
    | inr (who, signed) ↦ elim (Option-cases (cfg.new_domain name)) [
      | inl broken ↦ absurd (ground (arith, signed, broken, e))
      | inr (domain, built) ↦ elim (Option-cases (last domain)) [
        | inl no_node ↦ absurd (ground (arith, signed, built, no_node, e))
        | inr (node, found) ↦ (who, node, ground (arith, signed, built, found, e))
      ]
    ]
  ]

  pub bid-FairAt :
      (now : ℕ) (origin : RawOrigin) (name : Bytes) (amount : ℕ) (s s' : Auctions W)
      → ((j : DomainHash) → FairAt cfg now s j)
      → bid cfg now origin name amount s ≡ done s'
      → (j : DomainHash) → FairAt cfg now s' j
  bid-FairAt now origin name amount s s' fair e =
      let (who, node, handled) = bid_handled now origin name amount s s' e in
      handle_bid-FairAt now who node amount s s' fair handled
