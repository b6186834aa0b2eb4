-- ===== src/Auction/Hook.antt =====
-- The hook at the begin of a block keeps the books of all names in order and does not panic,
-- `on_initialize` of pallets/pns-registrar/src/auction.rs.
use pns_pallets.Base.{
  ℕ, ◌+◌, ◌≡◌, ◌⊎◌, true, some, List, [], ◌∷◌, ◌==◌, subst, ◌∙◌, elem, arith, refl, Option-cases,
  inl, inr, ==_iff, Bool-cases,
}
use pns_pallets.Types.{DomainHash}
use pns_pallets.Auction.{Config, Auctions, take_sample, visit, visit_all, on_initialize}
use pns_pallets.Auction.Place.{FairAt, book_of, idle_of}
use pns_pallets.Auction.Sample.{
  Fits, Leaves, Leaves-FairAt, take_sample-FairAt, take_sample-again, idle_at,
}
use pns_pallets.Auction.End.{end_auction-FairAt}

module _ {W : Type 0} (cfg : Config W) where
  -- In order at block `m` already, or still in order as at the block before it.
  abbrev Either : ℕ → Auctions W → DomainHash → Type 0
  Either now s j = FairAt cfg (now + 1) s j ⊎ FairAt cfg now s j

  sampled :
      (now node : ℕ) (s : Auctions W)
      → Fits cfg (now + 1)
      → Either now s node
      → (s' : Auctions W) × (take_sample cfg (now + 1) node s ≡ some s')
        × Leaves node s s'
        × FairAt cfg (now + 1) s' node
  sampled now node s fits (inl fair) =
      (s, take_sample-again cfg (now + 1) node s fair, (refl, λ j other. (refl, refl, refl)), fair)
  sampled now node s fits (inr fair) =
      let (s', taken, info, leaves, own) =
        take_sample-FairAt cfg now node s (fits.0, omega (arith, fits.1)) fair in
      (s', taken, leaves, own)

  Leaves-Leaves :
      (node : DomainHash) (s t u : Auctions W) → Leaves node s t → Leaves node t u → Leaves node s u
  Leaves-Leaves node s t u (o, f) (p, g) = (
    p ∙ o,
    λ j other.
        let (a, b, c) = f j other in let (a', b', c') = g j other in (a' ∙ a, b' ∙ b, c' ∙ c),
  )

  visit-FairAt :
      (now node : ℕ) (s : Auctions W)
      → Fits cfg (now + 1)
      → Either now s node
      → (s' : Auctions W) × (visit cfg (now + 1) node s ≡ some s')
        × Leaves node s s'
        × FairAt cfg (now + 1) s' node
  unfolding visit
  visit-FairAt now node s fits either =
      let (t, taken, leaves, own) = sampled now node s fits either in
      let (u, ended, leaves', own') = end_auction-FairAt cfg (now + 1) node t fits own in
      (u, ground (arith, taken, ended), Leaves-Leaves node s t u leaves leaves', own')

  -- Every name is in order already, or is still to be visited.
  visit_all-FairAt :
      (now : ℕ) (nodes : List DomainHash) (s : Auctions W)
      → Fits cfg (now + 1)
      → ((j : DomainHash) → FairAt cfg (now + 1) s j ⊎ ((elem j nodes ≡ true) × FairAt cfg now s j))
      → (s' : Auctions W) × (visit_all cfg (now + 1) nodes s ≡ some s')
        × ((j : DomainHash) → FairAt cfg (now + 1) s' j)
  unfolding visit_all
  visit_all-FairAt now [] s fits each =
      (s, refl, λ j. elim (each j) [ inl fair ↦ fair | inr (absent, fair) ↦ absurd (ground arith) ])
  visit_all-FairAt now (node ∷ nodes) s fits each =
      let (t, visited, leaves, own) =
        visit-FairAt now node s fits
          (elim (each node) [ inl fair ↦ inl fair | inr (there, fair) ↦ inr fair ]) in
      let (u, rest, all_fair) = visit_all-FairAt now nodes t fits (λ j.
        elim (Bool-cases (node == j)) [
          | inl same ↦ inl (subst (FairAt cfg (now + 1) t) ((==_iff node j).0 same) own)
          | inr other ↦ elim (each j) [
            | inl fair ↦ inl (Leaves-FairAt cfg (now + 1) node j s t leaves other fair)
            | inr (there, fair) ↦
                inr
                  (ground (arith, there, other), Leaves-FairAt cfg now node j s t leaves other fair)
          ]
        ]) in
      (u, ground (arith, visited, rest), all_fair)

  -- In order at a block, the books are in order at the next one, where the hook does not panic.
  pub on_initialize-FairAt :
      (now : ℕ) (s : Auctions W)
      → Fits cfg (now + 1)
      → ((j : DomainHash) → FairAt cfg now s j)
      → (s' : Auctions W) × (on_initialize cfg (now + 1) s ≡ some s')
        × ((j : DomainHash) → FairAt cfg (now + 1) s' j)
  unfolding on_initialize
  on_initialize-FairAt now s fits fair = visit_all-FairAt now s.ongoing_auctions s fits λ j.
      elim (Option-cases (s.auction_info j)) [
        | inl idle ↦ inl (idle_at cfg (now + 1) j s idle (idle_of cfg now j s idle (fair j)))
        | inr (start, auctioned) ↦ inr ((book_of cfg now j s start auctioned (fair j)).1, fair j)
      ]
