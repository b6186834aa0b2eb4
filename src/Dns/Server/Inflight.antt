-- ===== src/Dns/Server/Inflight.antt =====
-- The cap on requests in flight of pallets/pns-ddns/src/dns_server.rs, where requests overlap: a
-- request raises the atomic counter before it knows whether it is refused.
use pns_pallets.Base.{ℕ, ◌+◌, ◌-◌, ◌%◌, ◌≡◌, ◌<◌, ◌≤◌, leb, u64_mod, if◌then◌else◌, arith}

-- The counter, the requests that were let in and hold a guard, and those that were refused and have
-- not lowered the counter yet.
pub record Flight : Type 0 where
  pub counter : ℕ
  pub active : ℕ
  pub refusing : ℕ

-- `fetch_add`, and the comparison with the value before it.
unfoldable pub arrive : ℕ → Flight → Flight
arrive max_inflight f =
    let counter = (f.counter + 1) % u64_mod in
    if leb max_inflight f.counter
    then record f { counter = counter; refusing = f.refusing + 1 }
    else record f { counter = counter; active = f.active + 1 }

-- `fetch_sub` wraps around below 0.
abbrev pub lower : ℕ → ℕ
lower counter = (counter + (u64_mod - 1)) % u64_mod

-- The refused request lowers the counter.
unfoldable pub refuse : Flight → Flight
refuse f = record f { counter = lower f.counter; refusing = f.refusing - 1 }

-- The guard of a request is dropped, on whichever way out.
unfoldable pub drop_guard : Flight → Flight
drop_guard f = record f { counter = lower f.counter; active = f.active - 1 }

module _ (max_inflight tasks : ℕ) where
  -- The interleavings of requests of which at most `tasks` are in progress at once.
  pub data Reaches : Flight → Type 0 where
    idle : Reaches (record { counter = 0; active = 0; refusing = 0 })
    arrives :
        (f : Flight) → f.active + f.refusing < tasks → Reaches f → Reaches (arrive max_inflight f)
    refuses : (f : Flight) → 0 < f.refusing → Reaches f → Reaches (refuse f)
    drops : (f : Flight) → 0 < f.active → Reaches f → Reaches (drop_guard f)

  -- However requests interleave, the counter is the number of those in progress, and no more than the
  -- cap are let in at once.
  pub Reaches-bounds :
      (f : Flight)
      → tasks < u64_mod
      → Reaches f
      → (f.counter ≡ f.active + f.refusing)
        × (f.active ≤ max_inflight)
        × (f.active + f.refusing ≤ tasks)
  unfolding arrive refuse drop_guard
  Reaches-bounds f few idle = ground arith
  Reaches-bounds f few (arrives g room before) = ground (arith, Reaches-bounds g few before)
  Reaches-bounds f few (refuses g some_refused before) = ground (arith, Reaches-bounds g few before)
  Reaches-bounds f few (drops g some_active before) = ground (arith, Reaches-bounds g few before)
