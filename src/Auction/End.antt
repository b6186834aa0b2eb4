-- ===== src/Auction/End.antt =====
-- An auction ends with a winner, `check_auction_end` and `manage_auction_end` of
-- pallets/pns-registrar/src/auction.rs.
use pns_pallets.Base.{
  ℕ, ◌+◌, ◌-◌, ◌/◌, ◌%◌, ◌≤◌, ◌<◌, ◌≡◌, none, some, [], ◌&&◌, ap, ◌∙◌, max, min, arith, refl,
  Option-cases, inl, inr, Bool-cases, leb, u32_mod,
}
use pns_pallets.Base.Storage.{update}
use pns_pallets.Types.{DomainHash}
use pns_pallets.Auction.{
  Config, Auctions, WinnerData, check_auction_end, manage_auction_end, end_auction, deposit_event,
  winning_offset,
}
use pns_pallets.Auction.Book.{last_sample, div_mono}
use pns_pallets.Auction.Place.{FairAt, book_of}
use pns_pallets.Runtime.{Result, ok, err, Result-cases}
use pns_pallets.Auction.{unreserve_all, amount_of}
use pns_pallets.Auction.Sample.{Fits, Leaves, idle_at}

module _ {W : Type 0} (cfg : Config W) where
  manage_auction_end-lem :
      (node : ℕ) (w : WinnerData) (s : Auctions W)
      → let s' = manage_auction_end cfg node w s in
        (s'.auction_info ≡ s.auction_info)
        × (s'.ongoing_auctions ≡ s.ongoing_auctions)
        × (s'.winning ≡ s.winning)
        × (s'.reserved_amounts ≡ update node [] s.reserved_amounts)
  unfolding manage_auction_end
  manage_auction_end-lem node w s = ground arith

  -- The sample that the random seed picks has been taken.
  picked_sample :
      (m start raw : ℕ)
      → 0 < cfg.ending_period
      → cfg.ending_period ≤ m - start
      → (raw % cfg.ending_period) / max cfg.sample_length 1 ≤ last_sample cfg m start
  picked_sample m start raw some_blocks late =
      div_mono (raw % cfg.ending_period) (min (m - start) (cfg.ending_period - 1))
        (max cfg.sample_length 1) (omega arith) (grind (arith, late))

  -- The storage without the auction of a name.
  abbrev closed : DomainHash → ℕ → Auctions W → Auctions W
  closed node off s = deposit_event (winning_offset node off) (record s {
    winning = update node (λ _. none) s.winning;
    auction_info = update node none s.auction_info;
  })

  closed-FairAt :
      (m node off : ℕ) (w : WinnerData) (s : Auctions W)
      → let s' = manage_auction_end cfg node w (closed node off s) in
        Leaves node s s' × FairAt cfg m s' node
  closed-FairAt m node off w s =
      let (info, ongoing, winners, reserves) = manage_auction_end-lem node w (closed node off s) in
      (
        (
          ongoing,
          λ j other. (
            ap (λ f. f j) info ∙ ground (arith, other),
            ap (λ f. f j) winners ∙ ground (arith, other),
            ap (λ f. f j) reserves ∙ ground (arith, other),
          ),
        ),
        idle_at cfg m node (manage_auction_end cfg node w (closed node off s))
            (ap (λ f. f node) info ∙ ground arith)
            (
              λ o. ap (λ f. f node o) winners ∙ ground arith,
              ap (λ f. f node) reserves ∙ ground arith,
            ),
      )

  pub end_auction-FairAt :
      (m node : ℕ) (s : Auctions W)
      → Fits cfg m
      → FairAt cfg m s node
      → (s' : Auctions W) × (end_auction cfg m node s ≡ some s')
        × Leaves node s s'
        × FairAt cfg m s' node
  unfolding end_auction check_auction_end
  end_auction-FairAt m node s (some_blocks, fits) fair = elim (Option-cases (s.auction_info node)) [
    | inl idle ↦ (s, ground (arith, idle), (refl, λ j other. (refl, refl, refl)), fair)
    | inr (start, auctioned) ↦
        let (kept, listed) = book_of cfg m node s start auctioned fair in
        let raw = (cfg.random s.world).0 in
        let known_since = (cfg.random s.world).1 in
        let late_end = min (start + cfg.ending_period) (u32_mod - 1) in
        let off = (raw % cfg.ending_period) / max cfg.sample_length 1 in
        elim (Bool-cases (leb late_end m && leb late_end known_since)) [
          | inl ended ↦ elim (Option-cases (s.winning node off)) [
            | inl missing ↦ absurd (
                ground (
                  arith,
                  missing,
                  kept.taken off
                      (picked_sample m start raw some_blocks (ground (arith, ended, kept.started))),
                ))
            | inr (w, picked) ↦
                let (leaves, own) = closed-FairAt m node off w s in
                (
                  manage_auction_end cfg node w (closed node off s),
                  ground (arith, auctioned, ended, picked),
                  leaves,
                  own,
                )
          ]
          | inr running ↦
              (s, ground (arith, auctioned, running), (refl, λ j other. (refl, refl, refl)), fair)
        ]
  ]

  -- What the winner's payment makes of the world: the name, or nothing.
  abbrev pub Settles : DomainHash → WinnerData → Result W → W → W → Type 0
  Settles node w (err e) released world = world ≡ released
  Settles node w (ok paid) released world =
      world ≡ cfg.mint w.bidder node (cfg.for_auction_set_expires node paid)

  settled :
      (node : ℕ) (w : WinnerData) (s : Auctions W)
      → let released = unreserve_all cfg.unreserve (s.reserved_amounts node) s.world in
        Settles node w
          (cfg.transfer w.bidder cfg.offical w.amount released)
          released
          (manage_auction_end cfg node w s).world
  unfolding manage_auction_end
  settled node w s =
      let released = unreserve_all cfg.unreserve (s.reserved_amounts node) s.world in
      elim (Result-cases (cfg.transfer w.bidder cfg.offical w.amount released)) [
        | inl (error, failed) ↦ rw failed (ground (arith, failed))
        | inr (paid, transferred) ↦ rw transferred (ground (arith, transferred))
      ]

  -- At its end, with a random seed that was known only then, the auction of a name whose book is in
  -- order is closed without a panic. Its winner is that of the sample that the seed picks, whose bid was
  -- in reserve; all reserves are released, and the winner gets the name for the bid, or if the payment
  -- fails, nobody gets it and the auction is gone all the same.
  pub end_auction_lem :
      (m node start : ℕ) (s : Auctions W)
      → 0 < cfg.ending_period
      → m + cfg.ending_period < u32_mod
      → FairAt cfg m s node
      → s.auction_info node ≡ some start
      → start + cfg.ending_period ≤ m
      → start + cfg.ending_period ≤ (cfg.random s.world).1
      → let off = ((cfg.random s.world).0 % cfg.ending_period) / max cfg.sample_length 1 in
        let released = unreserve_all cfg.unreserve (s.reserved_amounts node) s.world in
        (w : WinnerData) × (s' : Auctions W) × (s.winning node off ≡ some w)
        × (w.amount ≤ amount_of w.bidder (s.reserved_amounts node))
        × (end_auction cfg m node s ≡ some s')
        × (s'.auction_info node ≡ none)
        × (s'.reserved_amounts node ≡ [])
        × ((o : ℕ) → s'.winning node o ≡ none)
        × Settles node w (cfg.transfer w.bidder cfg.offical w.amount released) released s'.world
  unfolding end_auction check_auction_end
  end_auction_lem m node start s some_blocks fits fair auctioned late known =
      let (kept, listed) = book_of cfg m node s start auctioned fair in
      let off = ((cfg.random s.world).0 % cfg.ending_period) / max cfg.sample_length 1 in
      elim (Option-cases (s.winning node off)) [
        | inl missing ↦ absurd (
            ground (
              arith,
              missing,
              kept.taken off (
                  picked_sample m start (cfg.random s.world).0 some_blocks
                    (omega (arith, late, kept.started))),
            ))
        | inr (w, picked) ↦
            let c = closed node off s in
            let (info, ongoing, winners, reserves) = manage_auction_end-lem node w c in
            (
              w,
              manage_auction_end cfg node w c,
              picked,
              kept.covered off w picked,
              ground (arith, auctioned, late, known, picked, some_blocks),
              ap (λ f. f node) info ∙ ground arith,
              ap (λ f. f node) reserves ∙ ground arith,
              λ o. ap (λ f. f node o) winners ∙ ground arith,
              settled node w c,
            )
      ]
