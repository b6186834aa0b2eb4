-- ===== src/Auction/Book.antt =====
-- The book of one name's auction: its start, the winners of its samples and the reserves below it.
use pns_pallets.Base.{
  ℕ, ◌+◌, ◌-◌, ◌/◌, ◌≤◌, ◌<◌, ◌≡◌, Bool, true, false, Option, none, some, is_some, List, [], ◌∷◌,
  ◌==◌, ap, if◌then◌else◌, min, max, arith, Option-cases, inl, inr,
}
use pns_pallets.Base.Storage.{update}
use pns_pallets.Types.{AccountId}
use pns_pallets.Auction.{Config, WinnerData, amount_of, set_amount, or_else, outbids}

-- The last sample of an auction up to a block.
abbrev pub last_sample : {W : Type 0} → Config W → ℕ → ℕ → ℕ
last_sample cfg now start = min (now - start) (cfg.ending_period - 1) / max cfg.sample_length 1

abbrev pub Rising : (ℕ → Option WinnerData) → Type 0
Rising winners =
    (o p : ℕ) (v w : WinnerData)
    → o ≤ p
    → winners o ≡ some v
    → winners p ≡ some w
    → v.amount ≤ w.amount

abbrev pub Covered : (ℕ → Option WinnerData) → List (AccountId × ℕ) → Type 0
Covered winners reserves =
    (o : ℕ) (w : WinnerData) → winners o ≡ some w → w.amount ≤ amount_of w.bidder reserves

-- A sample has a winner exactly up to the last one, the winning bids rise, and every winner has its bid
-- in reserve.
pub record IsKept {W : Type 0} (cfg : Config W) (start now : ℕ) (winners : ℕ → Option WinnerData)
    (reserves : List (AccountId × ℕ)) : Type 0 where
  pub started : start ≤ now
  pub taken : (o : ℕ) → o ≤ last_sample cfg now start → is_some (winners o) ≡ true
  pub ahead : (o : ℕ) → last_sample cfg now start < o → winners o ≡ none
  pub rising : Rising winners
  pub covered : Covered winners reserves

-- The same of a name that is auctioned, which stands among the ongoing ones; of any other there is
-- neither a winner nor a reserve.
abbrev pub IsFair :
    {W : Type 0}
    → Config W
    → ℕ
    → Option ℕ
    → Bool
    → (ℕ → Option WinnerData)
    → List (AccountId × ℕ)
    → Type 0
IsFair cfg now none listed winners reserves = ((o : ℕ) → winners o ≡ none) × (reserves ≡ [])
IsFair cfg now (some start) listed winners reserves =
    IsKept cfg start now winners reserves × (listed ≡ true)

pub div_mono : (a b l : ℕ) → 0 < l → a ≤ b → a / l ≤ b / l
div_mono a b l h k = grind arith

div_step : (d l : ℕ) → 0 < l → (d + 1) / l ≤ d / l + 1
div_step d l h = grind arith

zero_div : (d l : ℕ) → 0 < l → d ≡ 0 → d / l ≡ 0
zero_div d l h e = grind arith

pub amount_of-set_amount :
    (a who v : ℕ) (rs : List (AccountId × ℕ))
    → amount_of a (set_amount who v rs) ≡ (if a == who then v else amount_of a rs)
unfolding amount_of set_amount
amount_of-set_amount a who v [] = ground arith
amount_of-set_amount a who v ((b, n) ∷ rs) = ground (arith, amount_of-set_amount a who v rs)

put-Rising :
    (winners : ℕ → Option WinnerData) (off : ℕ) (x : WinnerData)
    → Rising winners
    → ((p : ℕ) → off < p → winners p ≡ none)
    → ((o : ℕ) (v : WinnerData) → o ≤ off → winners o ≡ some v → v.amount ≤ x.amount)
    → Rising (update off (some x) winners)
put-Rising winners off x rising ahead below o p v w le ev ew =
    grind (arith, rising o p v w le, ahead p, below o v, ev, ew)

module _ {W : Type 0} (cfg : Config W) (start : ℕ) where
  -- The samples from one block to the next.
  last_sample_step :
      (now : ℕ)
      → start ≤ now
      → (now + 1) - start < cfg.ending_period
      → (last_sample cfg now start ≤ ((now + 1) - start) / max cfg.sample_length 1)
        × (((now + 1) - start) / max cfg.sample_length 1 ≤ last_sample cfg now start + 1)
        × (last_sample cfg (now + 1) start ≡ ((now + 1) - start) / max cfg.sample_length 1)
  last_sample_step now le lt =
      let d = now - start in
      let l = max cfg.sample_length 1 in
      ground
        (arith, div_step d l (ground arith), div_mono d (d + 1) l (ground arith) (ground arith))

  stays :
      (now : ℕ)
      → start ≤ now
      → 0 < cfg.ending_period
      → cfg.ending_period ≤ (now + 1) - start
      → last_sample cfg (now + 1) start ≡ last_sample cfg now start
  stays now le some_blocks late =
      ap (λ d. d / max cfg.sample_length 1) {x = min ((now + 1) - start) (cfg.ending_period - 1)}
        {y = min (now - start) (cfg.ending_period - 1)} (omega arith)

  -- The sample of a block in the ending period is the last one.
  pub current_sample :
      (now : ℕ)
      → now - start < cfg.ending_period
      → (now - start) / max cfg.sample_length 1 ≤ last_sample cfg now start
  current_sample now lt =
      div_mono (now - start) (min (now - start) (cfg.ending_period - 1)) (max cfg.sample_length 1)
        (omega arith) (omega (arith, lt))

  -- A new winner at the last sample, over winners of the samples before it and of none after it.
  put-IsKept :
      (now off : ℕ) (winners : ℕ → Option WinnerData) (reserves : List (AccountId × ℕ))
      (x : WinnerData)
      → start ≤ now
      → last_sample cfg now start ≡ off
      → ((o : ℕ) → o < off → is_some (winners o) ≡ true)
      → ((p : ℕ) → off < p → winners p ≡ none)
      → Rising winners
      → ((o : ℕ) (v : WinnerData) → o ≤ off → winners o ≡ some v → v.amount ≤ x.amount)
      → Covered winners reserves
      → x.amount ≤ amount_of x.bidder reserves
      → IsKept cfg start now (update off (some x) winners) reserves
  put-IsKept now off winners reserves x le last_is taken ahead rising below covered enough =
      record {
        started = le;
        taken = λ o h. ground (arith, taken o, last_is, h);
        ahead = λ o h. ground (arith, ahead o, last_is, h);
        rising = put-Rising winners off x rising ahead below;
        covered = λ o w e. grind (arith, covered o w, enough, e);
      }

  module _ (now : ℕ) (winners : ℕ → Option WinnerData) (reserves : List (AccountId × ℕ))
      (kept : IsKept cfg start now winners reserves) where
    -- A sample that has a winner at the next block.
    pub same_sample :
        (now + 1) - start < cfg.ending_period
        → is_some (winners (((now + 1) - start) / max cfg.sample_length 1)) ≡ true
        → IsKept cfg start (now + 1) winners reserves
    same_sample lt there =
        let (lo, hi, is) = last_sample_step now kept.started lt in
        let off = ((now + 1) - start) / max cfg.sample_length 1 in
        let ahead = kept.ahead off in
        record {
          started = ground (arith, kept.started);
          taken = λ o h. ground (arith, kept.taken o, ahead, there, lo, hi, is, h);
          ahead = λ o h. kept.ahead o (ground (arith, lo, is, h));
          rising = kept.rising;
          covered = kept.covered;
        }

    -- A sample without one is the next, and the one before it has a winner, which it takes over.
    pub next_sample :
        (now + 1) - start < cfg.ending_period
        → is_some (winners (((now + 1) - start) / max cfg.sample_length 1)) ≡ false
        → let off = ((now + 1) - start) / max cfg.sample_length 1 in
          (0 < off)
          × ((w : WinnerData) × (winners (off - 1) ≡ some w)
              × IsKept cfg start (now + 1) (update off (some w) winners) reserves)
    next_sample lt missing =
        let (lo, hi, is) = last_sample_step now kept.started lt in
        let off = ((now + 1) - start) / max cfg.sample_length 1 in
        let past = kept.taken off in
        let new : last_sample cfg now start < off = ground (arith, past, missing) in
        elim (Option-cases (winners (off - 1))) [
          | inl none_before ↦
              absurd (ground (arith, none_before, kept.taken (off - 1) (ground (arith, hi, new))))
          | inr (w, there) ↦ (
            ground (arith, new),
            (
              w,
              there,
              put-IsKept (now + 1) off winners reserves w (ground (arith, kept.started)) is
                  (λ o h. kept.taken o (ground (arith, hi, h)))
                  (λ p h. kept.ahead p (ground (arith, new, h))) kept.rising
                  (λ o v le e. ground (arith, kept.rising o (off - 1) v w, e, there, missing, le))
                  kept.covered (kept.covered (off - 1) w there),
            ),
          )
        ]

    -- After the ending period the samples stay.
    pub past_samples :
        0 < cfg.ending_period
        → cfg.ending_period ≤ (now + 1) - start
        → IsKept cfg start (now + 1) winners reserves
    past_samples some_blocks le =
        let is = stays now kept.started some_blocks le in
        record {
          started = ground (arith, kept.started);
          taken = λ o h. kept.taken o (ground (arith, is, h));
          ahead = λ o h. kept.ahead o (ground (arith, is, h));
          rising = kept.rising;
          covered = kept.covered;
        }

    -- A bid above the winner of the current sample, with enough in reserve.
    pub higher_bid :
        (x : WinnerData) (reserves' : List (AccountId × ℕ))
        → now - start < cfg.ending_period
        → let off = (now - start) / max cfg.sample_length 1 in
          (past : Option WinnerData)
          → outbids x.amount (or_else (winners off) past) ≡ true
          → ((a : AccountId) → amount_of a reserves ≤ amount_of a reserves')
          → x.amount ≤ amount_of x.bidder reserves'
          → IsKept cfg start now (update off (some x) winners) reserves'
    higher_bid x reserves' lt past above grown enough =
        let off = (now - start) / max cfg.sample_length 1 in
        let is : last_sample cfg now start ≡ off =
          ap (λ d. d / max cfg.sample_length 1) {x = min (now - start) (cfg.ending_period - 1)}
            {y = now - start} (omega arith) in
        elim (Option-cases (winners off)) [
          | inl missing ↦ absurd (ground (arith, missing, kept.taken off, is))
          | inr (w, there) ↦
              put-IsKept now off winners reserves' x kept.started is
                (λ o h. kept.taken o (ground (arith, is, h)))
                (λ p h. kept.ahead p (ground (arith, is, h))) kept.rising
                (λ o v le e. ground (arith, kept.rising o off v w le e there, there, above))
                (λ o v e. grind (arith, kept.covered o v e, grown v.bidder)) enough
        ]

  -- The first bid of an auction that starts.
  pub first_bid :
      (winners : ℕ → Option WinnerData) (reserves : List (AccountId × ℕ)) (x : WinnerData)
      → ((o : ℕ) → winners o ≡ none)
      → x.amount ≤ amount_of x.bidder reserves
      → IsKept cfg start start (update 0 (some x) winners) reserves
  first_bid winners reserves x empty enough =
      let is : last_sample cfg start start ≡ 0 =
        zero_div (min (start - start) (cfg.ending_period - 1)) (max cfg.sample_length 1)
          (omega arith) (omega arith) in
      put-IsKept start 0 winners reserves x (ground arith) is (λ o h. ground (arith, h))
        (λ p h. empty p) (λ o p v w le e. ground (arith, e, empty o))
        (λ o v le e. ground (arith, e, empty o)) (λ o v e. ground (arith, e, empty o)) enough
