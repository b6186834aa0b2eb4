-- ===== src/Tests/Auctions.antt =====
-- An auction with ten blocks in samples of three.
use pns_pallets.Base.{
  ℕ, zero, suc, ◌+◌, ◌-◌, ◌≤◌, ◌≡◌, refl, true, Option, none, some, is_some, [], ◌∷◌, leb,
  if◌then◌else◌, arith,
}
use pns_pallets.Base.Storage.{update}
use pns_pallets.Types.{AccountId, DomainHash}
use pns_pallets.Types.Dispatch.{signed, overflow}
use pns_pallets.Runtime.{Result, ok, err, ⊤}
use pns_pallets.Auction.{
  Config, Auctions, WinnerData, BidResult, done, rejected, auction_ended, bid_not_enough,
  auction_status, do_new_auction, top_up, place_bid, handle_bid, bid, last, insert_node, amount_of,
  set_amount, unreserve_all, check_auction_end, manage_auction_end, take_sample, end_auction, visit,
  visit_all, on_initialize,
}
use pns_pallets.Auction.Run.{
  no_auctions, Reaches, begins, bids, blocks, turns, Reaches-FairAt, hook_total,
}
use pns_pallets.Auction.Place.{FairAt}
use pns_pallets.Auction.End.{Settles, end_auction_lem}
use pns_pallets.Tests.Sample.{sign_in}

unfoldable auction_steps : ⊤
unfolding auction_status do_new_auction top_up place_bid handle_bid bid last insert_node amount_of
    set_amount unreserve_all check_auction_end manage_auction_end take_sample end_auction visit
    visit_all on_initialize
auction_steps = tt

-- The free balances, the owners of names, and the random seed with the block it is known since.
record World : Type 0 where
  free : AccountId → ℕ
  names : DomainHash → Option AccountId
  seed : ℕ × ℕ

abbrev take_from : AccountId → ℕ → World → Result World
take_from a n w =
    if leb n (w.free a)
    then ok (record w { free = update a (w.free a - n) w.free })
    else err overflow

abbrev give : AccountId → ℕ → World → World
give a n w = record w { free = update a (w.free a + n) w.free }

-- The transfer keeps a unit in the account.
abbrev pay_over : AccountId → AccountId → ℕ → World → Result World
pay_over a b n w =
    if leb (n + 1) (w.free a)
    then ok (give b n (record w { free = update a (w.free a - n) w.free }))
    else err overflow

abbrev config : Config World
config = record {
  ensure_signed = sign_in;
  new_domain = λ name. some name;
  is_anctionable = λ domain w. true;
  is_registered = λ node w. is_some (w.names node);
  for_auction_set_expires = λ node w. w;
  mint = λ a node w. record w { names = update node (some a) w.names };
  reserve = take_from;
  unreserve = give;
  transfer = pay_over;
  random = λ w. w.seed;
  offical = 1;
  ending_period = 10;
  minimal_auction_price = 5;
  sample_length = 3;
}

abbrev world : World
world = record { free = λ _. 50; names = λ _. none; seed = (4, 0) }

abbrev left : BidResult World → Auctions World → Auctions World
left (done s) t = s
left (rejected e) t = t

abbrev ran : Option (Auctions World) → Auctions World → Auctions World
ran (some s) t = s
ran none t = t

abbrev idle : Auctions World
idle = no_auctions world

-- Account 5 opens the auction of name 3 with 10 in block 1, and account 6 bids 50 in the next sample.
abbrev opened_at_1 : Auctions World
opened_at_1 = left (bid config 1 (signed 5) (3 ∷ []) 10 idle) idle

abbrev at_2 : Auctions World
at_2 = ran (on_initialize config 2 opened_at_1) opened_at_1

abbrev at_4 : Auctions World
at_4 = ran (on_initialize config 4 (ran (on_initialize config 3 at_2) at_2)) at_2

abbrev raised_at_4 : Auctions World
raised_at_4 = left (bid config 4 (signed 6) (3 ∷ []) 50 at_4) at_4

too_low : bid config 1 (signed 5) (3 ∷ []) 5 idle ≡ rejected bid_not_enough
unfolding auction_steps
too_low = refl

first_sample : raised_at_4.winning 3 0 ≡ some (record { bidder = 5; amount = 10 })
unfolding auction_steps
first_sample = refl

second_sample : raised_at_4.winning 3 1 ≡ some (record { bidder = 6; amount = 50 })
unfolding auction_steps
second_sample = refl

-- A bid of no more changes nothing, and is no error.
unnoticed : bid config 4 (signed 5) (3 ∷ []) 50 raised_at_4 ≡ done raised_at_4
unfolding auction_steps
unnoticed = refl

-- Six blocks later the auction has ended.
abbrev blocks_on : ℕ → ℕ → Auctions World → Auctions World
blocks_on zero n s = s
blocks_on (suc k) n s = blocks_on k (n + 1) (ran (on_initialize config n s) s)

abbrev at_10 : Auctions World
at_10 = blocks_on 6 5 raised_at_4

abbrev ended_with : ℕ → Auctions World
ended_with raw =
    let s = record at_10 { world = record at_10.world { seed = (raw, 11) } } in
    ran (on_initialize config 11 s) s

too_late : bid config 11 (signed 7) (3 ∷ []) 60 at_10 ≡ rejected auction_ended
unfolding auction_steps
too_late = refl

-- The seed picks the first sample, whose winner pays its bid.
first_wins : (ended_with 1).world.names 3 ≡ some 5
unfolding auction_steps
first_wins = refl

first_pays : (ended_with 1).world.free 5 ≡ 40
unfolding auction_steps
first_pays = refl

-- The winner of the second one has nothing but its bid, and keeps it: nobody gets the name.
nobody_wins : (ended_with 4).world.names 3 ≡ none
unfolding auction_steps
nobody_wins = refl

nobody_pays : (ended_with 4).world.free 6 ≡ 50
unfolding auction_steps
nobody_pays = refl

-- The name stays among the ongoing auctions.
still_ongoing : (ended_with 1).ongoing_auctions ≡ 3 ∷ []
unfolding auction_steps
still_ongoing = refl

reaches_4 : Reaches config 4 at_4
unfolding auction_steps
reaches_4 =
    blocks (blocks (blocks (bids (signed 5) (3 ∷ []) 10 (begins 1 world) refl) refl) refl) refl

reaches_raised : Reaches config 4 raised_at_4
unfolding auction_steps
reaches_raised = bids (signed 6) (3 ∷ []) 50 reaches_4 refl

Reaches-FairAt_example : FairAt config 4 raised_at_4 3
Reaches-FairAt_example = Reaches-FairAt config (ground arith) (ground arith) reaches_raised 3

hook_total_example : (s : Auctions World) × (on_initialize config 5 raised_at_4 ≡ some s)
hook_total_example = hook_total config (ground arith) (ground arith) reaches_raised

-- The seed is known only after the hook of block 11.
abbrev at_11 : Auctions World
at_11 = let s = blocks_on 7 5 raised_at_4 in record s { world = record s.world { seed = (4, 11) } }

reaches_11 : Reaches config 11 at_11
unfolding auction_steps
reaches_11 =
    let s = blocks_on 7 5 raised_at_4 in
    turns (record s.world { seed = (4, 11) })
      (blocks
        (blocks (blocks (blocks (blocks (blocks (blocks reaches_raised refl) refl) refl) refl) refl)
          refl)
        refl)

end_auction_lem_example :
    let released = unreserve_all config.unreserve (at_11.reserved_amounts 3) at_11.world in
    (w : WinnerData) × (s : Auctions World) × (at_11.winning 3 1 ≡ some w)
    × (w.amount ≤ amount_of w.bidder (at_11.reserved_amounts 3))
    × (end_auction config 11 3 at_11 ≡ some s)
    × (s.auction_info 3 ≡ none)
    × (s.reserved_amounts 3 ≡ [])
    × ((o : ℕ) → s.winning 3 o ≡ none)
    × Settles config 3 w (pay_over w.bidder 1 w.amount released) released s.world
unfolding auction_steps
end_auction_lem_example =
    end_auction_lem config 11 3 1 at_11 (ground arith) (ground arith)
      (Reaches-FairAt config (ground arith) (ground arith) reaches_11 3) refl (ground arith)
      (ground arith)
