-- ===== src/Marketplace/Fee.antt =====
-- The marketplace's fee, pallets/pns-marketplace/src/lib.rs.
use pns_pallets.Base.{ℕ, zero, suc, ◌*◌, ◌≤◌, ◌<◌, u128_mod, arith}
use pns_pallets.Runtime.{Env}
use pns_pallets.Marketplace.{protocol_fee}

mul_le : (p b c : ℕ) → b ≤ c → p * b ≤ p * c
mul_le zero b c h = omega arith
mul_le (suc p) b c h = let rest = mul_le p b c h in omega arith

-- For a share of at most the whole and any price of 128 bits, the fee is at most the price and at
-- most the share of it, also where the product saturates.
pub protocol_fee_bounds :
    (env : Env) (price : ℕ)
    → env.protocol_fee_bps ≤ 10000
    → price < u128_mod
    → (protocol_fee env price ≤ price)
      × (protocol_fee env price * 10000 ≤ price * env.protocol_fee_bps)
unfolding protocol_fee
protocol_fee_bounds env price h fits =
    let capped = mul_le price env.protocol_fee_bps 10000 h in (omega arith, omega arith)
