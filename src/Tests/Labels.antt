-- ===== src/Tests/Labels.antt =====
-- Labels, names and prices, at concrete inputs.
use pns_pallets.Base.{ℕ, ◌≡◌, ◌↔◌, refl, true, false, some, List, [], ◌∷◌, arith}
use pns_pallets.Types.Dispatch.{signed, root}
use pns_pallets.Types.Storage.{State}
use pns_pallets.Runtime.{after, ok}
use pns_pallets.Label.{check_label, validate_label, parse_name_to_node}
use pns_pallets.Label.Valid.{IsLabel, check_label-IsLabel}
use pns_pallets.Label.Nodes.{label_child}
use pns_pallets.Types.{RegistrarInfo}
use pns_pallets.PriceOracle.{set_base_price, set_rent_price, set_exchange_rate}
use pns_pallets.Origin.{set_origin, set_origin_for_root, set_registrar_open}
use pns_pallets.Origin.Managers.{set_origin_lem}
use pns_pallets.Tests.Sample.{chain, genesis, x, x_abc, abc_node}
use pns_pallets.Tests.Steps.{steps}

x_abc-parses : parse_name_to_node chain x_abc 7 ≡ label_child chain abc_node x
unfolding steps
x_abc-parses = refl

check_label-IsLabel_example :
    ((check_label (65 ∷ 98 ∷ []) ≡ some tt) ↔ IsLabel (65 ∷ 98 ∷ []))
    × ((validate_label (65 ∷ 98 ∷ []) ≡ some tt) ↔ IsLabel (65 ∷ 98 ∷ []))
check_label-IsLabel_example = check_label-IsLabel (65 ∷ 98 ∷ [])

abbrev info : RegistrarInfo
info = record { expire = 1010; capacity = 2; register_fee = 9; label_len = 3; last_block = 10 }

abbrev prices : List ℕ
prices = 90 ∷ 80 ∷ 70 ∷ 60 ∷ 50 ∷ 40 ∷ 30 ∷ 20 ∷ 10 ∷ 5 ∷ 2 ∷ []

abbrev priced : State
priced = after (set_base_price chain (signed 1) prices genesis) genesis

abbrev rented : State
rented = after (set_rent_price chain (signed 1) [] priced) priced

abbrev exchanged : State
exchanged = after (set_exchange_rate chain (signed 1) 3 rented) rented

abbrev managed_2 : State
managed_2 = after (set_origin chain (signed 1) 2 true genesis) genesis

set_origin_lem_example :
    (genesis.origin.origins 1 ≡ true)
    × (managed_2.origin.origins 2 ≡ true)
    × (managed_2.origin.origins 1 ≡ true)
    × (managed_2.origin.is_registrar_open ≡ true)
    × (set_origin_for_root chain root 2 true genesis ≡ ok (tt, managed_2))
    × (set_registrar_open (signed 2) false managed_2
        ≡ ok (
          tt,
          record managed_2 { origin = record (managed_2.origin) { is_registrar_open = false } },
        ))
unfolding steps
set_origin_lem_example =
    set_origin_lem chain (signed 1) root 2 2 1 true false genesis managed_2 refl refl (ground arith)
      refl
