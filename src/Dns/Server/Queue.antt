-- ===== src/Dns/Server/Queue.antt =====
-- The response queue of pallets/pns-ddns/src/dns_server.rs: what one tick of the interval sends. A
-- waiting query is the instant of its entry with its sender.
use pns_pallets.Base.{
  ℕ, ◌+◌, ◌/◌, ◌≡◌, Bool, true, false, List, [], ◌∷◌, ◌++◌, leb, if◌then◌else◌, all, arith, refl,
}

-- The period of the ticks, in milliseconds.
abbrev pub tick_period : ℕ → ℕ
tick_period min_ms = if leb (min_ms / 4) 1 then 1 else min_ms / 4

-- Those that are sent, and those that stay.
unfoldable pub tick : ℕ → ℕ → List (ℕ × ℕ) → List (ℕ × ℕ) × List (ℕ × ℕ)
tick min_ms now [] = ([], [])
tick min_ms now ((entry, sender) ∷ queue) =
    let rest = tick min_ms now queue in
    if leb (entry + min_ms) now
    then ((entry, sender) ∷ rest.0, rest.1)
    else ([], (entry, sender) ∷ queue)

-- A query that has waited long enough.
abbrev pub is_due : ℕ → ℕ → ℕ × ℕ → Bool
is_due min_ms now (entry, sender) = leb (entry + min_ms) now

abbrev pub IsEarly : ℕ → ℕ → List (ℕ × ℕ) → Type 0
IsEarly min_ms now [] = Unit {0}
IsEarly min_ms now (w ∷ ws) = is_due min_ms now w ≡ false

-- A tick sends from the front, loses nothing, sends only queries that have waited long enough, and
-- stops at one that has not.
pub tick_lem :
    (min_ms now : ℕ) (queue : List (ℕ × ℕ))
    → ((tick min_ms now queue).0 ++ (tick min_ms now queue).1 ≡ queue)
      × (all (is_due min_ms now) (tick min_ms now queue).0 ≡ true)
      × IsEarly min_ms now (tick min_ms now queue).1
unfolding tick
tick_lem min_ms now [] = (refl, refl, tt)
tick_lem min_ms now ((entry, sender) ∷ queue) = ground (arith, tick_lem min_ms now queue)
