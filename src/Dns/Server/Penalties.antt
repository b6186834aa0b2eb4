-- ===== src/Dns/Server/Penalties.antt =====
-- The penalties of pallets/pns-ddns/src/dns_server.rs: how long a source subnet is blocked.
use pns_pallets.Base.{
  ℕ, ◌+◌, ◌≡◌, ◌≤◌, ◌<◌, true, false, Option, none, some, arith, [], ◌∷◌, refl, subst, sym,
}
use pns_pallets.Types.{Bytes}
use pns_pallets.Dns.Records.{same_bytes}
use pns_pallets.Dns.Server.Bloom.{DoubleBloom}
use pns_pallets.Dns.Server.{
  Request, Moment, Server, PenaltyState, dropped, deny, after_inner, admitted, handle_request,
  record_penalty, is_penalised, subnet_key, asks_any, has_zone,
}
use pns_pallets.Dns.Server.Admission.{fresh}

module _ {B : Type 0} (saturation_count : ℕ) (blank : B) (insert : Bytes → B → B) where
  -- The states of a handler after requests in the order of their times, in milliseconds, the last of
  -- which is given.
  pub data Ticks (bloom : DoubleBloom B) (limit : ℕ) : ℕ → Server B → Type 0 where
    start : (now : ℕ) → Ticks bloom limit now (fresh bloom limit)
    handles :
        (now : ℕ) (s : Server B) (request : Request) (m : Moment)
        → now ≤ m.now
        → Ticks bloom limit now s
        → Ticks bloom limit m.now (handle_request saturation_count blank insert request m s).1

  abbrev BlockedUntil : ℕ → Option PenaltyState → Type 0
  BlockedUntil end none = Unit {0}
  BlockedUntil end (some p) = p.blocked_until ≤ end

  handle_request-BlockedUntil :
      (now : ℕ) (s : Server B) (request : Request) (m : Moment) (key : Bytes)
      → now ≤ m.now
      → BlockedUntil (now + 60000) (s.penalty_cache key)
      → BlockedUntil
          (m.now + 60000)
          ((handle_request saturation_count blank insert request m s).1.penalty_cache key)
  unfolding handle_request admitted record_penalty after_inner deny
  handle_request-BlockedUntil now s request m key le h = ground (arith, le, h)

  Ticks-BlockedUntil :
      (bloom : DoubleBloom B) (limit now : ℕ) (s : Server B) (key : Bytes)
      → Ticks bloom limit now s
      → BlockedUntil (now + 60000) (s.penalty_cache key)
  Ticks-BlockedUntil bloom limit now s key (start n) = tt
  Ticks-BlockedUntil bloom limit now s key (handles before t request m le earlier) =
      handle_request-BlockedUntil before t request m key le
        (Ticks-BlockedUntil bloom limit before t key earlier)

  -- The states after further requests that come within a second from `from`, at none of which the cache
  -- has lost the subnet's entry.
  pub data Soon (key : Bytes) (from : ℕ) (t : Server B) : Server B → Type 0 where
    here : Soon key from t t
    handles :
        (u : Server B) (request : Request) (m : Moment)
        → from ≤ m.now
        → m.now < from + 1000
        → m.gone_penalty key ≡ false
        → Soon key from t u
        → Soon key from t (handle_request saturation_count blank insert request m u).1

  abbrev BlockedFor : ℕ → Option PenaltyState → Type 0
  BlockedFor end none = ⊥
  BlockedFor end (some p) = end ≤ p.blocked_until

  handle_request-BlockedFor :
      (from : ℕ) (s : Server B) (request : Request) (m : Moment) (key : Bytes)
      → from ≤ m.now
      → m.gone_penalty key ≡ false
      → BlockedFor (from + 1000) (s.penalty_cache key)
      → BlockedFor
          (from + 1000)
          ((handle_request saturation_count blank insert request m s).1.penalty_cache key)
  unfolding handle_request admitted record_penalty after_inner deny
  handle_request-BlockedFor from s request m key le kept h = ground (arith, le, kept, h)

  Soon-BlockedFor :
      (from : ℕ) (t : Server B) (key : Bytes) (u : Server B)
      → BlockedFor (from + 1000) (t.penalty_cache key)
      → Soon key from t u
      → BlockedFor (from + 1000) (u.penalty_cache key)
  Soon-BlockedFor from t key u h here = h
  Soon-BlockedFor from t key u h (handles v request m le soon kept earlier) =
      handle_request-BlockedFor from v request m key le kept
        (Soon-BlockedFor from t key v h earlier)

  blocked_dropped :
      (s : Server B) (next : Request) (n : Moment) (end : ℕ)
      → asks_any next.queries ≡ false
      → n.gone_penalty (subnet_key next.src) ≡ false
      → n.now < end
      → BlockedFor end (s.penalty_cache (subnet_key next.src))
      → (handle_request saturation_count blank insert next n s).0 ≡ dropped
  unfolding handle_request admitted record_penalty
  blocked_dropped s next n end plain kept soon h = ground (arith, plain, kept, soon, h)

  same_bytes_refl : (k : Bytes) → same_bytes k k ≡ true
  same_bytes_refl [] = refl
  same_bytes_refl (b ∷ bs) = ground (arith, same_bytes_refl bs)

  limited_BlockedFor :
      (s : Server B) (first : Request) (m : Moment)
      → s.inflight < s.max_inflight
      → asks_any first.queries ≡ false
      → has_zone first.queries ≡ true
      → m.src_ok ≡ true
      → m.global_response_ok ≡ true
      → m.zone_ok ≡ false
      → let t = (handle_request saturation_count blank insert first m s).1 in
        BlockedFor (m.now + 1000) (t.penalty_cache (subnet_key first.src))
  unfolding handle_request admitted record_penalty
  limited_BlockedFor s first m room plain zoned src_ok global_ok limited = ground (
    arith,
    room,
    plain,
    zoned,
    src_ok,
    global_ok,
    limited,
    same_bytes_refl (subnet_key first.src),
  )

  -- However often a subnet was limited, a minute after the last request it is blocked no more. A request
  -- with room in flight that the limiter of its zone stops, behind the other limiters, blocks its subnet:
  -- whatever requests of any subnet are handled in the second from then on, each request of the subnet in
  -- that second is dropped, unless it queries any type or the cache has lost the subnet's entry.
  pub penalties_lem :
      (bloom : DoubleBloom B) (limit now later : ℕ) (s u : Server B) (first next : Request)
      (m n : Moment)
      → Ticks bloom limit now s
      → now + 60000 ≤ later
      → s.inflight < s.max_inflight
      → asks_any first.queries ≡ false
      → has_zone first.queries ≡ true
      → m.src_ok ≡ true
      → m.global_response_ok ≡ true
      → m.zone_ok ≡ false
      → Soon
          (subnet_key first.src)
          m.now
          (handle_request saturation_count blank insert first m s).1
          u
      → subnet_key next.src ≡ subnet_key first.src
      → asks_any next.queries ≡ false
      → n.gone_penalty (subnet_key next.src) ≡ false
      → n.now < m.now + 1000
      → (is_penalised later (subnet_key first.src) s ≡ false)
        × ((handle_request saturation_count blank insert next n u).0 ≡ dropped)
  penalties_lem bloom limit now later s u first next m n ticks le room plain zoned src_ok global_ok
        limited run same plain' kept soon =
      let t = (handle_request saturation_count blank insert first m s).1 in
      let blocked = limited_BlockedFor s first m room plain zoned src_ok global_ok limited in
      (
        ground (arith, le, Ticks-BlockedUntil bloom limit now s (subnet_key first.src) ticks),
        blocked_dropped u next n (m.now + 1000) plain' kept soon (
            subst (λ key. BlockedFor (m.now + 1000) (u.penalty_cache key)) (sym same)
              (Soon-BlockedFor m.now t (subnet_key first.src) u blocked run)),
      )
