-- ===== src/PriceOracle.antt =====
-- The price oracle, pallets/pns-registrar/src/price_oracle.rs: prices by label length, which the
-- manager sets. A price table is an array of 11 balances.
pub mod Fees
use pns_pallets.Base.{ℕ, ◌-◌, Option, none, some, List, ◌==◌, if◌then◌else◌, length, get_or, min}
use pns_pallets.Types.Dispatch.{RawOrigin, Event}
use pns_pallets.Types.Storage.{State, PriceOracle}
use pns_pallets.Runtime.{M, ⊤, Env, ◌>>=◌, ◌>>◌, ensure_manager, modify, deposit_event}

-- `base_prices[idx]`, where `idx` is in range.
unfoldable pub registration_fee : ℕ → PriceOracle → Option ℕ
registration_fee name_len o =
    if name_len == 0
    then none
    else some (get_or o.base_price (min (name_len - 1) (length o.base_price - 1)) 0)

-- `register_fee` and `renew_fee` ignore the duration.
unfoldable pub register_fee : ℕ → ℕ → PriceOracle → Option ℕ
register_fee name_len duration = registration_fee name_len

unfoldable pub renew_fee : ℕ → ℕ → PriceOracle → Option ℕ
renew_fee name_len duration = registration_fee name_len

abbrev set_oracle : (PriceOracle → PriceOracle) → M ⊤
set_oracle f = modify λ s. record s { price_oracle = f s.price_oracle }

module _ (env : Env) where
  unfoldable pub set_exchange_rate : RawOrigin → ℕ → M ⊤
  set_exchange_rate origin exchange_rate = do
    who ← ensure_manager env origin
    set_oracle (λ o. record o { exchange_rate = exchange_rate })
    deposit_event (Event.exchange_rate_changed who exchange_rate)

  unfoldable pub set_base_price : RawOrigin → List ℕ → M ⊤
  set_base_price origin prices = do
    who ← ensure_manager env origin
    set_oracle (λ o. record o { base_price = prices })
    deposit_event (Event.base_price_changed prices)

  unfoldable pub set_rent_price : RawOrigin → List ℕ → M ⊤
  set_rent_price origin prices = do
    who ← ensure_manager env origin
    set_oracle (λ o. record o { rent_price = prices })
    deposit_event (Event.rent_price_changed prices)
