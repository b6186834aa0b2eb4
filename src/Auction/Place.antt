-- ===== src/Auction/Place.antt =====
-- What a bid changes of the books, `handle_bid` of pallets/pns-registrar/src/auction.rs.
use pns_pallets.Base.{
  ℕ, ◌≤◌, ◌≡◌, ◌⊎◌, true, false, Option, none, some, List, [], ◌∷◌, ◌==◌, ap, ◌||◌, elem, arith,
  refl, inl, inr, Bool-cases,
}
use pns_pallets.Base.Storage.{update}
use pns_pallets.Types.{AccountId, DomainHash}
use pns_pallets.Auction.{
  Config, Auctions, WinnerData, amount_of, or_else, outbids, before, insert_node, top_up, place_bid,
  BidResult, done, rejected, AuctionError,
}
use pns_pallets.Auction.Book.{IsKept, IsFair, amount_of-set_amount}

pub elem-insert_node : (j k : ℕ) (xs : List ℕ) → elem j (insert_node k xs) ≡ (j == k || elem j xs)
unfolding insert_node
elem-insert_node j k [] = ground arith
elem-insert_node j k (x ∷ xs) = ground (arith, elem-insert_node j k xs)

pub BidResult-cases :
    {W : Type 0} (r : BidResult W)
    → ((e : AuctionError) × (r ≡ rejected e)) ⊎ ((s : Auctions W) × (r ≡ done s))
BidResult-cases (done s) = inr (s, refl)
BidResult-cases (rejected e) = inl (e, refl)

-- The book of one name is in order at a block.
abbrev pub FairAt : {W : Type 0} → Config W → ℕ → Auctions W → DomainHash → Type 0
FairAt cfg now s j =
    IsFair cfg now (s.auction_info j) (elem j s.ongoing_auctions) (s.winning j)
      (s.reserved_amounts j)

module _ {W : Type 0} (cfg : Config W) where
  pub FairAt-same :
      (now : ℕ) (j : DomainHash) (s s' : Auctions W)
      → s'.auction_info j ≡ s.auction_info j
      → elem j s'.ongoing_auctions ≡ elem j s.ongoing_auctions
      → s'.winning j ≡ s.winning j
      → s'.reserved_amounts j ≡ s.reserved_amounts j
      → FairAt cfg now s j
      → FairAt cfg now s' j
  FairAt-same now j s s' e1 e2 e3 e4 h = rw (e1, e2, e3, e4) h

  -- What a bid that counts changes of the name's book.
  abbrev pub Raises : AccountId → DomainHash → ℕ → ℕ → Auctions W → Auctions W → Type 0
  Raises bidder node amount off s s' =
      (outbids amount (or_else (s.winning node off) (before node off s)) ≡ true)
      × (s'.winning node
          ≡ update off (some (record { bidder = bidder; amount = amount })) (s.winning node))
      × ((a : AccountId)
          → amount_of a (s.reserved_amounts node) ≤ amount_of a (s'.reserved_amounts node))
      × (amount ≤ amount_of bidder (s'.reserved_amounts node))

  -- The books of the other names, and the auctions.
  abbrev pub Spares : DomainHash → Auctions W → Auctions W → Type 0
  Spares node s s' =
      (s'.auction_info ≡ s.auction_info)
      × (s'.ongoing_auctions ≡ s.ongoing_auctions)
      × ((j : DomainHash)
          → (node == j) ≡ false
          → (s'.winning j ≡ s.winning j) × (s'.reserved_amounts j ≡ s.reserved_amounts j))

  top_up-lem :
      (bidder node amount : ℕ) (s t : Auctions W)
      → top_up cfg bidder node amount s ≡ done t
      → (t.auction_info ≡ s.auction_info)
        × (t.ongoing_auctions ≡ s.ongoing_auctions)
        × (t.winning ≡ s.winning)
        × ((j : DomainHash) → (node == j) ≡ false → t.reserved_amounts j ≡ s.reserved_amounts j)
        × ((a : AccountId)
            → amount_of a (s.reserved_amounts node) ≤ amount_of a (t.reserved_amounts node))
        × (amount ≤ amount_of bidder (t.reserved_amounts node))
  unfolding top_up
  top_up-lem bidder node amount s t e =
      let set = λ (a : AccountId). amount_of-set_amount a bidder amount (s.reserved_amounts node) in
      (
        ground (arith, e),
        ground (arith, e),
        ground (arith, e),
        λ j other. ground (arith, e, other),
        λ a. ground (arith, e, set a),
        ground (arith, e, set bidder),
      )

  pub place_bid-Raises :
      (bidder node amount off : ℕ) (s s' : Auctions W)
      → place_bid cfg bidder node amount off s ≡ done s'
      → Spares node s s'
        × (((outbids amount (or_else (s.winning node off) (before node off s)) ≡ false) × (s' ≡ s))
            ⊎ Raises bidder node amount off s s')
  unfolding place_bid
  place_bid-Raises bidder node amount off s s' e =
      elim (Bool-cases (outbids amount (or_else (s.winning node off) (before node off s)))) [
        | inl above ↦ elim (BidResult-cases (top_up cfg bidder node amount s)) [
          | inl (error, failed) ↦ absurd (ground (arith, above, failed, e))
          | inr (t, topped) ↦
              let (info, ongoing, winners, others, grown, enough) =
                top_up-lem bidder node amount s t topped in
              (
                (
                  ground (arith, above, topped, e, info),
                  ground (arith, above, topped, e, ongoing),
                  λ j other. (
                    ground (arith, above, topped, e, winners, other),
                    ground (arith, above, topped, e, others j other),
                  ),
                ),
                inr (
                  above,
                  ground (arith, above, topped, e, winners),
                  λ a. ground (arith, above, topped, e, grown a),
                  ground (arith, above, topped, e, enough),
                ),
              )
        ]
        | inr not_above ↦ ground (arith, not_above, e)
      ]

  -- The other names' books stay in order.
  pub Spares-FairAt :
      (now node : ℕ) (s s' : Auctions W) (j : DomainHash)
      → Spares node s s'
      → (node == j) ≡ false
      → FairAt cfg now s j
      → FairAt cfg now s' j
  Spares-FairAt now node s s' j (info, ongoing, others) other h =
      let (winners, reserves) = others j other in
      FairAt-same now j s s' (ap (λ f. f j) info) (ap (elem j) ongoing) winners reserves h

  pub book_of :
      (now : ℕ) (j : DomainHash) (s : Auctions W) (start : ℕ)
      → s.auction_info j ≡ some start
      → FairAt cfg now s j
      → IsKept cfg start now (s.winning j) (s.reserved_amounts j)
        × (elem j s.ongoing_auctions ≡ true)
  book_of now j s start auctioned h = rw auctioned at h

  pub idle_of :
      (now : ℕ) (j : DomainHash) (s : Auctions W)
      → s.auction_info j ≡ none
      → FairAt cfg now s j
      → ((o : ℕ) → s.winning j o ≡ none) × (s.reserved_amounts j ≡ [])
  idle_of now j s idle h = rw idle at h

  pub FairAt-IsKept :
      (now : ℕ) (j : DomainHash) (s : Auctions W) (start : ℕ) (winners : ℕ → Option WinnerData)
      → s.auction_info j ≡ some start
      → elem j s.ongoing_auctions ≡ true
      → s.winning j ≡ winners
      → IsKept cfg start now winners (s.reserved_amounts j)
      → FairAt cfg now s j
  FairAt-IsKept now j s start winners auctioned listed is kept = rw (auctioned, is) (kept, listed)
