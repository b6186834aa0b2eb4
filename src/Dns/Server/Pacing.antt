-- ===== src/Dns/Server/Pacing.antt =====
-- How long queries wait in the response queue of pallets/pns-ddns/src/dns_server.rs.
use pns_pallets.Base.{
  ℕ, ◌+◌, ◌≡◌, ◌≤◌, Bool, true, false, not, List, [], ◌∷◌, ◌++◌, leb, all, arith, refl,
}
use pns_pallets.Dns.Server.Queue.{tick, is_due, IsEarly, tick_lem}

-- A query reads the clock before it is sent to the queue, and others can overtake it on the way. The
-- states of the loop, if none is on its way for more than `skew`.
pub data Loops (min_ms skew : ℕ) : ℕ → List (ℕ × ℕ) → Type 0 where
  begins : (now : ℕ) → Loops min_ms skew now []
  receives :
      (now at entry sender : ℕ) (queue : List (ℕ × ℕ))
      → now ≤ at
      → entry ≤ at
      → at ≤ entry + skew
      → Loops min_ms skew now queue
      → Loops min_ms skew at (queue ++ (entry, sender) ∷ [])
  ticks :
      (now at : ℕ) (queue : List (ℕ × ℕ))
      → now ≤ at
      → Loops min_ms skew now queue
      → Loops min_ms skew at (tick min_ms at queue).1

-- Each query has entered before now, and before those behind it but for the skew.
abbrev Near : ℕ → ℕ → List (ℕ × ℕ) → Type 0
Near skew now [] = Unit {0}
Near skew now ((entry, sender) ∷ queue) =
    (entry ≤ now) × (all (λ w. leb entry (w.0 + skew)) queue ≡ true) × Near skew now queue

all-append :
    (entry skew e s : ℕ) (queue : List (ℕ × ℕ))
    → entry ≤ e + skew
    → all (λ w. leb entry (w.0 + skew)) queue ≡ true
    → all (λ w. leb entry (w.0 + skew)) (queue ++ (e, s) ∷ []) ≡ true
all-append entry skew e s [] le h = ground (arith, le)
all-append entry skew e s (w ∷ queue) le h = ground (arith, h, all-append entry skew e s queue le)

Near-append :
    (skew now at e s : ℕ) (queue : List (ℕ × ℕ))
    → now ≤ at
    → e ≤ at
    → at ≤ e + skew
    → Near skew now queue
    → Near skew at (queue ++ (e, s) ∷ [])
Near-append skew now at e s [] le past soon h = (past, refl, tt)
Near-append skew now at e s ((entry, sender) ∷ queue) le past soon (before, near, rest) = (
  omega (arith, before, le),
  all-append entry skew e s queue (omega (arith, before, le, soon)) near,
  Near-append skew now at e s queue le past soon rest,
)

Near-later :
    (skew now at : ℕ) (queue : List (ℕ × ℕ)) → now ≤ at → Near skew now queue → Near skew at queue
Near-later skew now at [] le h = tt
Near-later skew now at (w ∷ queue) le (before, near, rest) =
    (omega (arith, before, le), near, Near-later skew now at queue le rest)

Near-tick :
    (min_ms skew now at : ℕ) (queue : List (ℕ × ℕ))
    → Near skew now queue
    → Near skew now (tick min_ms at queue).1
unfolding tick
Near-tick min_ms skew now at [] h = tt
Near-tick min_ms skew now at ((entry, sender) ∷ queue) (before, near, rest) =
    ground (arith, before, near, rest, Near-tick min_ms skew now at queue rest)

Loops-Near :
    (min_ms skew now : ℕ) (queue : List (ℕ × ℕ)) → Loops min_ms skew now queue → Near skew now queue
Loops-Near min_ms skew now queue (begins n) = tt
Loops-Near min_ms skew now queue (receives n at e s q le past soon before) =
    Near-append skew n now e s q le past soon (Loops-Near min_ms skew n q before)
Loops-Near min_ms skew now queue (ticks n at q le before) =
    Near-tick min_ms skew now now q (Near-later skew n now q le (Loops-Near min_ms skew n q before))

-- Nothing has waited for the minimum and the skew.
abbrev pub is_fresh : ℕ → ℕ → ℕ → ℕ × ℕ → Bool
is_fresh min_ms skew now (entry, sender) = not (leb (entry + min_ms + skew) now)

behind :
    (min_ms skew entry at : ℕ) (queue : List (ℕ × ℕ))
    → leb (entry + min_ms) at ≡ false
    → all (λ w. leb entry (w.0 + skew)) queue ≡ true
    → all (is_fresh min_ms skew at) queue ≡ true
behind min_ms skew entry at [] early near = refl
behind min_ms skew entry at ((e, s) ∷ queue) early near =
    ground (arith, early, near, behind min_ms skew entry at queue early)

early_fresh :
    (min_ms skew now at : ℕ) (queue : List (ℕ × ℕ))
    → Near skew now queue
    → IsEarly min_ms at queue
    → all (is_fresh min_ms skew at) queue ≡ true
early_fresh min_ms skew now at [] h early = refl
early_fresh min_ms skew now at ((entry, sender) ∷ queue) (before, near, rest) early =
    ground (arith, early, behind min_ms skew entry at queue early near)

-- A tick loses no query and keeps their order; it sends only those that have waited for the minimal
-- time, and none stays that has waited for it and the skew.
pub tick_bounds :
    (min_ms skew now at : ℕ) (queue : List (ℕ × ℕ))
    → Loops min_ms skew now queue
    → ((tick min_ms at queue).0 ++ (tick min_ms at queue).1 ≡ queue)
      × (all (is_due min_ms at) (tick min_ms at queue).0 ≡ true)
      × (all (is_fresh min_ms skew at) (tick min_ms at queue).1 ≡ true)
tick_bounds min_ms skew now at queue loops =
    let (whole, due, early) = tick_lem min_ms at queue in
    (
      whole,
      due,
      early_fresh min_ms skew now at (tick min_ms at queue).1
          (Near-tick min_ms skew now at queue (Loops-Near min_ms skew now queue loops)) early,
    )
