-- ===== src/Auction/Phases.antt =====
-- The phases of an auction, `AuctionStatus` of pallets/pns-registrar/src/auction.rs.
use pns_pallets.Base.{
  ℕ, ◌+◌, ◌*◌, ◌-◌, ◌/◌, ◌%◌, ◌≤◌, ◌<◌, ◌≡◌, true, false, not, Option, none, some, ltb, max, arith,
}
use pns_pallets.Auction.{Config, auction_status, is_in_progress, is_starting, is_ending, is_vrf}

-- The sample and the sub-sample make up the blocks since the start.
abbrev Counts : ℕ → ℕ → Option (ℕ × ℕ) → Type 0
Counts duration length none = ⊥
Counts duration length (some (sample, sub_sample)) =
    (sample * length + sub_sample ≡ duration) × (sub_sample < length)

division : (d l : ℕ) → 0 < l → ((d / l) * l + d % l ≡ d) × (d % l < l)
division d l h = grind arith

module _ {W : Type 0} (cfg : Config W) where
  -- From its start on an auction is in progress and never in the starting period; it waits for the
  -- random seed exactly from the end of the ending period on.
  pub auction_status_phases :
      (now start : ℕ)
      → start ≤ now
      → let status = auction_status cfg now (some start) in
        (is_in_progress status ≡ true)
        × (is_starting status ≡ false)
        × (is_vrf status ≡ not (ltb (now - start) cfg.ending_period))
  unfolding auction_status is_in_progress is_starting is_vrf
  auction_status_phases now start le = ground arith

  -- In the ending period the sample and the sub-sample, which is below the length of a sample, count
  -- the blocks since the start.
  pub auction_status-Counts :
      (now start : ℕ)
      → start ≤ now
      → now - start < cfg.ending_period
      → Counts
          (now - start)
          (max cfg.sample_length 1)
          (is_ending (auction_status cfg now (some start)))
  unfolding auction_status is_ending
  auction_status-Counts now start le lt =
      ground (arith, division (now - start) (max cfg.sample_length 1) (omega arith))
