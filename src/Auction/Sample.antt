-- ===== src/Auction/Sample.antt =====
-- The samples of an auction are taken without a panic, in `on_initialize` of
-- pallets/pns-registrar/src/auction.rs.
use pns_pallets.Base.{
  ℕ, ◌+◌, ◌-◌, ◌/◌, ◌<◌, ◌≡◌, false, none, some, is_some, [], ◌==◌, ap, elem, max, min, arith, refl,
  Option-cases, inl, inr, Bool-cases, ltb, u32_mod,
}
use pns_pallets.Base.Storage.{update}
use pns_pallets.Types.{DomainHash}
use pns_pallets.Auction.{Config, Auctions, auction_status, take_sample, set_winner}
use pns_pallets.Auction.Book.{same_sample, next_sample, past_samples, div_mono}
use pns_pallets.Auction.Place.{FairAt, FairAt-same, FairAt-IsKept, book_of, idle_of}

-- The books of the other names stay, and the list of the ongoing auctions.
abbrev pub Leaves : {W : Type 0} → DomainHash → Auctions W → Auctions W → Type 0
Leaves node s s' =
    (s'.ongoing_auctions ≡ s.ongoing_auctions)
    × ((j : DomainHash)
        → (node == j) ≡ false
        → (s'.auction_info j ≡ s.auction_info j)
          × (s'.winning j ≡ s.winning j)
          × (s'.reserved_amounts j ≡ s.reserved_amounts j))

module _ {W : Type 0} (cfg : Config W) where
  -- The ending period has blocks, and the numbers of its last ones are below the largest.
  abbrev pub Fits : ℕ → Type 0
  Fits now = (0 < cfg.ending_period) × (now + cfg.ending_period < u32_mod)

  pub Leaves-FairAt :
      (now node j : ℕ) (s s' : Auctions W)
      → Leaves node s s'
      → (node == j) ≡ false
      → FairAt cfg now s j
      → FairAt cfg now s' j
  Leaves-FairAt now node j s s' (ongoing, others) other h =
      let (info, winners, reserves) = others j other in
      FairAt-same cfg now j s s' info (ap (elem j) ongoing) winners reserves h

  pub idle_at :
      (now : ℕ) (j : DomainHash) (s : Auctions W)
      → s.auction_info j ≡ none
      → ((o : ℕ) → s.winning j o ≡ none) × (s.reserved_amounts j ≡ [])
      → FairAt cfg now s j
  idle_at now j s idle h = rw idle h

  -- A sample is taken without a panic.
  pub take_sample-FairAt :
      (now node : ℕ) (s : Auctions W)
      → Fits now
      → FairAt cfg now s node
      → (s' : Auctions W) × (take_sample cfg (now + 1) node s ≡ some s')
        × (s'.auction_info node ≡ s.auction_info node)
        × Leaves node s s'
        × FairAt cfg (now + 1) s' node
  unfolding take_sample auction_status
  take_sample-FairAt now node s (some_blocks, fits) fair =
      elim (Option-cases (s.auction_info node)) [
        | inl idle ↦ (
          s,
          ground (arith, idle),
          refl,
          (refl, λ j other. (refl, refl, refl)),
          idle_at (now + 1) node s idle (idle_of cfg now node s idle fair),
        )
        | inr (start, auctioned) ↦
            let (kept, listed) = book_of cfg now node s start auctioned fair in
            let off = ((now + 1) - start) / max cfg.sample_length 1 in
            elim (Bool-cases (ltb ((now + 1) - start) cfg.ending_period)) [
              | inl ending ↦ elim (Bool-cases (is_some (s.winning node off))) [
                | inl there ↦ (
                  s,
                  ground (arith, auctioned, ending, there, kept.started),
                  refl,
                  (refl, λ j other. (refl, refl, refl)),
                  FairAt-IsKept cfg (now + 1) node s start (s.winning node) auctioned listed refl (
                      same_sample cfg start now (s.winning node) (s.reserved_amounts node) kept
                        (ground (arith, ending)) there),
                )
                | inr missing ↦
                    let (positive, (w, last_one, kept')) =
                      next_sample cfg start now (s.winning node) (s.reserved_amounts node) kept
                        (ground (arith, ending)) missing in
                    (
                      set_winner node off w s,
                      ground (arith, auctioned, ending, missing, last_one, positive, kept.started),
                      refl,
                      (refl, λ j other. (refl, ground (arith, other), refl)),
                      FairAt-IsKept cfg (now + 1) node (set_winner node off w s) start
                          (update off (some w) (s.winning node)) auctioned listed (ground arith)
                          kept',
                    )
              ]
              | inr late ↦ (
                s,
                ground (arith, auctioned, late, kept.started),
                refl,
                (refl, λ j other. (refl, refl, refl)),
                FairAt-IsKept cfg (now + 1) node s start (s.winning node) auctioned listed refl (
                    past_samples cfg start now (s.winning node) (s.reserved_amounts node) kept
                      some_blocks (ground (arith, late))),
              )
            ]
      ]

  -- Nor is it where the books are those of this block already.
  pub take_sample-again :
      (m node : ℕ) (s : Auctions W) → FairAt cfg m s node → take_sample cfg m node s ≡ some s
  unfolding take_sample auction_status
  take_sample-again m node s fair = elim (Option-cases (s.auction_info node)) [
    | inl idle ↦ ground (arith, idle)
    | inr (start, auctioned) ↦
        let (kept, listed) = book_of cfg m node s start auctioned fair in
        let d = m - start in
        let l = max cfg.sample_length 1 in
        let within = div_mono (min d (cfg.ending_period - 1)) d l (omega arith) (omega arith) in
        elim (Bool-cases (ltb d cfg.ending_period)) [
          | inl ending ↦
              let there = kept.taken (d / l) (
                div_mono d (min d (cfg.ending_period - 1)) l (omega arith)
                  (ground (arith, ending))) in
              ground (arith, auctioned, ending, there)
          | inr late ↦ ground (arith, auctioned, late)
        ]
  ]
