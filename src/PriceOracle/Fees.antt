-- ===== src/PriceOracle/Fees.antt =====
-- Prices by label length: `registration_fee` and the calls that set what it reads, of
-- pallets/pns-registrar/src/price_oracle.rs.
use pns_pallets.Base.{
  ℕ, zero, suc, ◌<◌, ◌≡◌, refl, none, some, List, [], ◌∷◌, length, get_or, min, arith,
}
use pns_pallets.Types.Dispatch.{RawOrigin}
use pns_pallets.Types.Storage.{State}
use pns_pallets.Runtime.{Env, ok}
use pns_pallets.PriceOracle.{
  registration_fee, renew_fee, set_base_price, set_rent_price, set_exchange_rate,
}

-- `x` stands at position `i`.
abbrev pub IsEntry : ℕ → ℕ → List ℕ → Type 0
IsEntry i x [] = ⊥
IsEntry zero x (y ∷ ys) = x ≡ y
IsEntry (suc i) x (y ∷ ys) = IsEntry i x ys

get_or-IsEntry : (xs : List ℕ) (i d : ℕ) → i < length xs → IsEntry i (get_or xs i d) xs
get_or-IsEntry [] i d h = absurd (omega arith)
get_or-IsEntry (x ∷ xs) zero d h = refl
get_or-IsEntry (x ∷ xs) (suc i) d h = get_or-IsEntry xs i d (omega arith)

-- After a manager has set a table of 11 base prices, with rent prices and an exchange rate set
-- later, no label of length 0 has a price, a label of length 1 to 11 costs the entry of its length
-- and a longer one the last entry, for registration and for renewal of any duration.
pub set_base_price-registration_fee :
    (env : Env) (origin origin' origin'' : RawOrigin) (prices rents : List ℕ) (rate n duration : ℕ)
    (s t u v : State)
    → length prices ≡ 11
    → set_base_price env origin prices s ≡ ok (tt, t)
    → set_rent_price env origin' rents t ≡ ok (tt, u)
    → set_exchange_rate env origin'' rate u ≡ ok (tt, v)
    → (registration_fee 0 v.price_oracle ≡ none)
      × ((fee : ℕ) × (registration_fee (suc n) v.price_oracle ≡ some fee)
          × (renew_fee (suc n) duration v.price_oracle ≡ some fee)
          × IsEntry (min n 10) fee prices)
unfolding registration_fee renew_fee set_base_price set_rent_price set_exchange_rate
set_base_price-registration_fee env origin origin' origin'' prices rents rate n duration s t u v h e
      f g =
    (
      ground arith,
      (
        get_or prices (min n 10) 0,
        ground arith,
        ground arith,
        get_or-IsEntry prices (min n 10) 0 (omega arith),
      ),
    )
