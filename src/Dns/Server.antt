-- ===== src/Dns/Server.antt =====
-- The checks before the authority, pallets/pns-ddns/src/dns_server.rs: one request through
-- `HardenedHandler`. What the rate limiters answer, what the caches have dropped by age or for room,
-- and what the authority answers in time come with the request.
pub mod Bloom
pub mod Inflight
pub mod Admission
pub mod Penalties
pub mod Queue
pub mod Pacing
pub mod Cores
use pns_pallets.Base.{
  ℕ, ◌+◌, Bool, true, false, not, Option, none, some, List, [], ◌∷◌, ◌++◌, ◌&&◌, ◌||◌, ◌==◌, ltb,
  leb, if◌then◌else◌, length, take, all, min,
}
use pns_pallets.Types.{Bytes}
use pns_pallets.Dns.Types.{DnsType}
use pns_pallets.Dns.Records.{same_bytes, is_any}
use pns_pallets.Dns.Server.Bloom.{DoubleBloom, set}

-- An address by its octets.
pub data IpAddr : Type 0 where
  v4 v6 : Bytes → IpAddr

-- The first three octets, with the version.
unfoldable pub subnet_key : IpAddr → Bytes
subnet_key (v4 octets) = take 3 octets ++ 4 ∷ []
subnet_key (v6 octets) = take 3 octets ++ 6 ∷ []

pub data ResponseCode : Type 0 where
  no_error serv_fail nx_domain not_imp refused : ResponseCode
  other_code : ℕ → ResponseCode

pub record Query : Type 0 where
  pub name : Bytes
  pub query_type : DnsType

pub record Request : Type 0 where
  pub src : IpAddr
  pub queries : List Query

-- Instants and durations are milliseconds.
pub record PenaltyState : Type 0 where
  pub strikes : ℕ
  pub blocked_until : ℕ

-- The counters of metrics.rs that the handler raises; an entry for every increment.
pub data Metric : Type 0 where
  drop_inflight_cap drop_any_query drop_src_rate_limit drop_zone_rate_limit drop_penalty_backoff :
      Metric
  neg_cache_hit drop_storage_rate_limit drop_label_validation storage_lookups first_seen_hit :
      Metric
  first_seen_miss resp_nxdomain resp_noerror drop_storage_timeout storage_timeouts : Metric

-- The handler's state; `B` is the type of Bloom filters.
pub record Server (B : Type 0) : Type 0 where
  pub inflight : ℕ
  pub max_inflight : ℕ
  pub penalty_cache : Bytes → Option PenaltyState
  pub bloom : DoubleBloom B
  pub neg_cache : Bytes → Bool
  pub first_seen : Bytes → Bool
  pub metrics : List Metric

-- What the limiters let pass, which cache entries are gone, and the authority's response code, with
-- `none` for its timeout.
pub record Moment : Type 0 where
  pub now : ℕ
  pub src_ok : Bool
  pub global_response_ok : Bool
  pub zone_ok : Bool
  pub storage_ok : Bool
  pub gone_penalty : Bytes → Bool
  pub gone_neg : Bytes → Bool
  pub gone_seen : Bytes → Bool
  pub inner : Option ResponseCode

-- A request that is dropped in silence, one that the handler answers itself, the authority's answer,
-- and its timeout.
pub data Response : Type 0 where
  dropped timed_out : Response
  replied answered : ResponseCode → Response

abbrev pub set_key {ℓ} : {V : Type ℓ} → Bytes → V → (Bytes → V) → Bytes → V
set_key k v f j = if same_bytes j k then v else f j

-- The labels of a name's text, `split('.')`.
unfoldable pub split_dots : Bytes → List Bytes
split_dots [] = [] ∷ []
split_dots (b ∷ bs) = elim (split_dots bs) [
  | [] ↦ [] ∷ []
  | l ∷ ls ↦ if b == b'.' then [] ∷ l ∷ ls else (b ∷ l) ∷ ls
]

unfoldable pub labels_valid : Request → Bool
unfolding split_dots
labels_valid request =
    all (λ q. all (λ label. leb (length label) 63) (split_dots q.name)) request.queries

-- The name of the first query, or no text.
abbrev pub query_name : List Query → Bytes
query_name [] = []
query_name (q ∷ qs) = q.name

abbrev pub has_zone : List Query → Bool
has_zone [] = false
has_zone (q ∷ qs) = true

abbrev pub asks_any : List Query → Bool
asks_any [] = false
asks_any (q ∷ qs) = is_any q.query_type || asks_any qs

-- The block of the n-th strike.
abbrev pub block_dur : ℕ → ℕ
block_dur strikes = if strikes == 1 then 1000 else if strikes == 2 then 10000 else 60000

abbrev pub next_penalty : ℕ → Option PenaltyState → PenaltyState
next_penalty now none = record { strikes = 1; blocked_until = now + 1000 }
next_penalty now (some existing) =
    let strikes = min (existing.strikes + 1) 255 in
    record { strikes = strikes; blocked_until = now + block_dur strikes }

abbrev pub is_blocked_at : ℕ → Option PenaltyState → Bool
is_blocked_at now none = false
is_blocked_at now (some state) = ltb now state.blocked_until

module _ {B : Type 0} where
  abbrev pub count : Metric → Server B → Server B
  count m s = record s { metrics = m ∷ s.metrics }

  unfoldable pub record_penalty : ℕ → Bytes → Server B → Server B
  record_penalty now key s = record s {
    penalty_cache = set_key key (some (next_penalty now (s.penalty_cache key))) s.penalty_cache;
  }

  abbrev pub is_penalised : ℕ → Bytes → Server B → Bool
  is_penalised now key s = is_blocked_at now (s.penalty_cache key)

  -- The caches have dropped some entries.
  abbrev pub forget : Moment → Server B → Server B
  forget m s = record s {
    penalty_cache = λ k. if m.gone_penalty k then none else s.penalty_cache k;
    neg_cache = λ n. s.neg_cache n && not (m.gone_neg n);
    first_seen = λ n. s.first_seen n && not (m.gone_seen n);
  }

  module _ (saturation_count : ℕ) (blank : B) (insert : Bytes → B → B) where
    -- A name that the authority has denied: the second time, it enters the negative cache.
    unfoldable pub deny : Bytes → Server B → Server B
    unfolding set
    deny name s =
        if s.first_seen name
        then record s {
          neg_cache = set_key name true s.neg_cache;
          bloom = set saturation_count blank insert name s.bloom;
          first_seen = set_key name false s.first_seen;
          metrics = resp_nxdomain ∷ first_seen_hit ∷ s.metrics;
        }
        else record s {
          first_seen = set_key name true s.first_seen;
          metrics = resp_nxdomain ∷ first_seen_miss ∷ s.metrics;
        }

    unfoldable pub after_inner : Bytes → Option ResponseCode → Server B → Response × Server B
    unfolding deny
    after_inner name none s =
        (timed_out, record s { metrics = storage_timeouts ∷ drop_storage_timeout ∷ s.metrics })
    after_inner name (some nx_domain) s = (answered nx_domain, deny name s)
    after_inner name (some code) s = (answered code, count resp_noerror s)

    -- Behind the first check: steps 2 to 13, in the code's order.
    unfoldable pub admitted : Request → Moment → Server B → Response × Server B
    unfolding record_penalty after_inner labels_valid subnet_key
    admitted request m s =
        let key = subnet_key request.src in
        let name = query_name request.queries in
        if asks_any request.queries
        then (replied not_imp, count drop_any_query s)
        else if not m.src_ok
        then (dropped, count drop_src_rate_limit s)
        else if not m.global_response_ok
        then (dropped, s)
        else if has_zone request.queries && not m.zone_ok
        then (dropped, record_penalty m.now key (count drop_zone_rate_limit s))
        else if is_penalised m.now key s
        then (dropped, count drop_penalty_backoff s)
        else if s.neg_cache name
        then (replied nx_domain, count neg_cache_hit s)
        else if not m.storage_ok
        then (dropped, count drop_storage_rate_limit s)
        else if not (labels_valid request)
        then (dropped, count drop_label_validation s)
        else after_inner name m.inner (count storage_lookups s)

    -- `handle_request` of a request that no other one overlaps: the counter of the requests in flight
    -- is raised, and lowered again on every way out.
    unfoldable pub handle_request : Request → Moment → Server B → Response × Server B
    unfolding admitted
    handle_request request m s =
        let t = forget m s in
        if leb t.max_inflight t.inflight
        then (dropped, count drop_inflight_cap t)
        else admitted request m t
