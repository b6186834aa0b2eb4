-- ===== src/Auction/Run.antt =====
-- Auctions from their first block on: bids, blocks, and whatever the other pallets do between them.
use pns_pallets.Base.{ℕ, ◌+◌, ◌<◌, ◌≡◌, none, some, [], u32_mod, arith, refl, subst}
use pns_pallets.Types.{DomainHash, Bytes}
use pns_pallets.Types.Dispatch.{RawOrigin}
use pns_pallets.Auction.{Config, Auctions, done, bid, on_initialize}
use pns_pallets.Auction.Place.{FairAt}
use pns_pallets.Auction.Bids.{bid-FairAt}
use pns_pallets.Auction.Hook.{on_initialize-FairAt}

-- No auction yet.
abbrev pub no_auctions : {W : Type 0} → W → Auctions W
no_auctions w = record {
  auction_info = λ _. none;
  ongoing_auctions = [];
  reserved_amounts = λ _. [];
  winning = λ _ _. none;
  world = w;
  events = [];
}

module _ {W : Type 0} (cfg : Config W) where
  -- The states during block `now`. The other pallets may change the world outside in any way.
  pub data Reaches : ℕ → Auctions W → Type 0 where
    begins : (now : ℕ) (w : W) → Reaches now (no_auctions w)
    bids :
        {now : ℕ} {s s' : Auctions W} (origin : RawOrigin) (name : Bytes) (amount : ℕ)
        → Reaches now s
        → bid cfg now origin name amount s ≡ done s'
        → Reaches now s'
    blocks :
        {now : ℕ} {s s' : Auctions W}
        → Reaches now s
        → on_initialize cfg (now + 1) s ≡ some s'
        → Reaches (now + 1) s'
    turns :
        {now : ℕ} {s : Auctions W} (w : W) → Reaches now s → Reaches now (record s { world = w })

  -- In every state that bids, blocks and the other pallets lead to, the book of every name is in order:
  -- a name that is auctioned stands among the ongoing auctions, exactly its samples up to the current
  -- one have winners, whose bids rise and stand in reserve; any other name has neither winners nor
  -- reserves. The ending period has blocks, and its end is below the largest block number.
  pub Reaches-FairAt :
      {now : ℕ} {s : Auctions W}
      → 0 < cfg.ending_period
      → now + cfg.ending_period < u32_mod
      → Reaches now s
      → (j : DomainHash) → FairAt cfg now s j
  Reaches-FairAt some_blocks fits (begins now w) j = (λ o. refl, refl)
  Reaches-FairAt some_blocks fits (bids origin name amount before e) j =
      bid-FairAt cfg _ origin name amount _ _ (Reaches-FairAt some_blocks fits before) e j
  Reaches-FairAt some_blocks fits (blocks {now = n} {s = s} {s' = s'} before e) j =
      let (u, ran, fair) =
        on_initialize-FairAt cfg n s (some_blocks, fits)
          (Reaches-FairAt some_blocks (omega (arith, fits)) before) in
      subst (λ t. FairAt cfg (n + 1) t j) {x = u} {y = s'} (ground (arith, ran, e)) (fair j)
  Reaches-FairAt some_blocks fits (turns w before) j = Reaches-FairAt some_blocks fits before j

  -- The hook of the next block never panics: no sample is without a winner to take over, and the ending
  -- period that it divides by has blocks.
  pub hook_total :
      {now : ℕ} {s : Auctions W}
      → 0 < cfg.ending_period
      → (now + 1) + cfg.ending_period < u32_mod
      → Reaches now s
      → (s' : Auctions W) × (on_initialize cfg (now + 1) s ≡ some s')
  hook_total {now = n} {s = s} some_blocks fits before =
      let (u, ran, fair) =
        on_initialize-FairAt cfg n s (some_blocks, fits)
          (Reaches-FairAt some_blocks (omega (arith, fits)) before) in
      (u, ran)
