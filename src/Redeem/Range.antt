-- ===== src/Redeem/Range.antt =====
-- The ranges of redeem codes, `mint_redeem` and the genesis loop of
-- pallets/pns-registrar/src/redeem_code.rs.
use pns_pallets.Base.{
  ℕ, zero, suc, ◌+◌, ◌-◌, ◌≤◌, ◌<◌, ◌≡◌, refl, Bool, true, ◌&&◌, ◌||◌, none, some, ltb, leb,
  wrapping_add, u32_mod, arith, Bool-cases, inl, inr,
}
use pns_pallets.Base.Storage.{update}
use pns_pallets.Types.{AccountId}
use pns_pallets.Types.Dispatch.{RawOrigin}
use pns_pallets.Types.Storage.{State}
use pns_pallets.Runtime.{Env, ok}
use pns_pallets.Redeem.{mint_range, genesis_range, mint_redeem}

mint_range_lem :
    (fuel nouce end n : ℕ) (codes : ℕ → Bool)
    → nouce ≤ suc end
    → suc end < u32_mod
    → suc end < fuel + nouce
    → (minted : ℕ → Bool) × (mint_range fuel nouce end codes ≡ some minted)
      × (minted n ≡ (leb nouce n && leb n end || codes n))
unfolding mint_range
mint_range_lem zero nouce end n codes below fits enough = absurd (omega arith)
mint_range_lem (suc fuel) nouce end n codes below fits enough = elim (Bool-cases (leb nouce end)) [
  | inl more ↦
      let (minted, e, at) =
        mint_range_lem fuel (wrapping_add u32_mod nouce 1) end n (update nouce true codes)
          (ground arith) (ground arith) (ground arith) in
      (minted, ground arith, ground arith)
  | inr over ↦ (codes, ground arith, ground arith)
]

genesis_range_lem :
    (fuel nouce end n : ℕ) (codes : ℕ → Bool)
    → nouce ≤ end
    → end < u32_mod
    → end < fuel + nouce
    → (minted : ℕ → Bool) × (genesis_range fuel nouce end codes ≡ some minted)
      × (minted n ≡ (leb nouce n && ltb n end || codes n))
unfolding genesis_range
genesis_range_lem zero nouce end n codes below fits enough = absurd (omega arith)
genesis_range_lem (suc fuel) nouce end n codes below fits enough =
    elim (Bool-cases (ltb nouce end)) [
      | inl more ↦
          let (minted, e, at) =
            genesis_range_lem fuel (wrapping_add u32_mod nouce 1) end n (update nouce true codes)
              (ground arith) (ground arith) (ground arith) in
          (minted, ground arith, ground arith)
      | inr over ↦ (codes, ground arith, ground arith)
    ]

mint_range_forever :
    (fuel nouce : ℕ) (codes : ℕ → Bool)
    → nouce < u32_mod
    → mint_range fuel nouce (u32_mod - 1) codes ≡ none
unfolding mint_range
mint_range_forever zero nouce codes h = refl
mint_range_forever (suc fuel) nouce codes h =
    let rest =
      mint_range_forever fuel (wrapping_add u32_mod nouce 1) (update nouce true codes)
        (omega arith) in
    ground arith

-- A manager's call for a range below the largest `u32` returns, with fuel for one more round than
-- the range has codes, and the codes are then the old ones and those of the range, its end
-- included; the genesis loop over the same range returns too, and leaves the end out.
pub mint_redeem_lem :
    (env : Env) (origin : RawOrigin) (who : AccountId) (fuel start end n : ℕ) (s : State)
    → env.manager origin s ≡ ok who
    → start < end
    → suc end < u32_mod
    → suc end < fuel + start
    → ((s' : State) × (mint_redeem env fuel origin start end s ≡ some (ok (tt, s')))
        × (s'.redeems n ≡ (leb start n && leb n end || s.redeems n)))
      × ((minted : ℕ → Bool) × (genesis_range fuel start end s.redeems ≡ some minted)
          × (minted n ≡ (leb start n && ltb n end || s.redeems n)))
unfolding mint_redeem
mint_redeem_lem env origin who fuel start end n s managed ordered fits enough =
    let (minted, e, at) = mint_range_lem fuel start end n s.redeems (omega arith) fits enough in
    (
      (record s { redeems = minted }, ground arith, at),
      genesis_range_lem fuel start end n s.redeems (omega arith) (omega arith) (omega arith),
    )

-- A manager's call for a range that ends at the largest `u32` never returns, whatever the fuel.
pub mint_redeem_forever :
    (env : Env) (origin : RawOrigin) (who : AccountId) (fuel start : ℕ) (s : State)
    → env.manager origin s ≡ ok who
    → suc start < u32_mod
    → mint_redeem env fuel origin start (u32_mod - 1) s ≡ none
unfolding mint_redeem
mint_redeem_forever env origin who fuel start s managed fits =
    ground (arith, mint_range_forever fuel start s.redeems (omega arith))
