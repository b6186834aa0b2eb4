-- ===== src/Tests/Dns.antt =====
-- Queries to the DNS server.
use pns_pallets.Base.{
  ℕ, ◌++◌, ◌+◌, ◌≡◌, ◌≢◌, ◌↔◌, ◌≤◌, refl, true, false, none, some, List, [], ◌∷◌, all, arith,
}
use pns_pallets.Types.{Bytes}
use pns_pallets.Types.Ddns.{RecordType}
use pns_pallets.Types.Dispatch.{signed}
use pns_pallets.Types.Storage.{State}
use pns_pallets.Runtime.{⊤, after}
use pns_pallets.Resolvers.{set_record}
use pns_pallets.Chain.Configs.{check_node_useable}
use pns_pallets.Dns.Types.{DnsType, to_dns, from_dns, from_code, is_canonical}
use pns_pallets.Dns.Records.{
  Parsers, collect, pns_record_to_dns, rdata_of, is_polkadot_only, dns_code,
}
use pns_pallets.Dns.Authority.{
  nx_domain, panics, lookup, below, answer, filter_of, apex, extract_label, strip_suffix,
  synthesize_soa, synthesize_ns, zone_origin,
}
use pns_pallets.Dns.Authority.Served.{chain_api, answers_query, records_of, lookup-Served}
use pns_pallets.Dns.Authority.Outcomes.{Explained, lookup-Explained}
use pns_pallets.Dns.Authority.Anchored.{register-lookup}
use pns_pallets.Dns.Server.Bloom.{set}
use pns_pallets.Dns.Server.{
  Request, Query, Moment, Server, v4, ResponseCode, Response, replied, query_name, handle_request,
  admitted, after_inner, deny, record_penalty, labels_valid, split_dots, subnet_key, dropped,
  is_penalised,
}
use pns_pallets.Dns.Server.Admission.{fresh, denials, Reaches, replied-denials}
use pns_pallets.Dns.Server.Penalties.{Ticks, Soon, penalties_lem}
use pns_pallets.Dns.Server.Queue.{tick, is_due}
use pns_pallets.Dns.Server.Pacing.{Loops, begins, receives, is_fresh, tick_bounds}
use pns_pallets.Dns.Server.Inflight.{Flight, arrive, refuse, drop_guard, Reaches-bounds}
use pns_pallets.Tests.Sample.{chain, later_chain, genesis, abc, abc_label, registered}
use pns_pallets.Tests.Steps.{steps}

unfoldable pub dns_steps : ⊤
unfolding steps to_dns from_dns from_code is_canonical lookup below answer filter_of apex collect
    pns_record_to_dns rdata_of is_polkadot_only extract_label strip_suffix synthesize_soa
    synthesize_ns dns_code handle_request admitted after_inner deny record_penalty labels_valid
    split_dots subnet_key set denials arrive refuse drop_guard
dns_steps = tt

rpc_code : from_dns (DnsType.unknown 65281) ≡ some RecordType.rpc
unfolding dns_steps
rpc_code = refl

-- Every text is a name, and none is an address.
abbrev parsers : Parsers
parsers = record {
  name = λ text. some text;
  ipv4 = λ text. none;
  ipv6 = λ text. none;
  lossy = λ bytes. bytes;
}

-- `abc.dot.`
abbrev abc_dot : Bytes
abc_dot = 97 ∷ 98 ∷ 99 ∷ 46 ∷ zone_origin

-- The owner has set an address.
abbrev pub addressed : State
addressed =
    after
      (set_record later_chain (check_node_useable later_chain) (signed 5) abc RecordType.a
        (10 ∷ 0 ∷ 0 ∷ 1 ∷ []) registered)
      registered

address_served :
    records_of (lookup parsers (chain_api later_chain addressed) 3 abc_dot DnsType.a)
    ≡ record {
      owner = abc_dot;
      ttl = 300;
      rdata = pns_pallets.Dns.Records.RData.a (10 ∷ 0 ∷ 0 ∷ 1 ∷ []);
    }
      ∷ []
unfolding dns_steps
address_served = refl

lookup-Served_example :
    all
      (answers_query DnsType.a)
      (records_of (lookup parsers (chain_api later_chain addressed) 3 abc_dot DnsType.a))
    ≡ true
lookup-Served_example = lookup-Served parsers later_chain addressed 3 abc_dot DnsType.a

lookup-Explained_example :
    Explained parsers (chain_api later_chain addressed) 3 abc_dot (DnsType.unsupported 37) panics
    ↔ (lookup parsers (chain_api later_chain addressed) 3 abc_dot (DnsType.unsupported 37) ≡ panics)
lookup-Explained_example =
    lookup-Explained parsers (chain_api later_chain addressed) 3 abc_dot (DnsType.unsupported 37)
      panics

register-lookup_example :
    lookup parsers (chain_api chain registered) 3 abc_dot DnsType.txt ≢ nx_domain
unfolding dns_steps
register-lookup_example =
    register-lookup chain (signed 5) abc 5 none 5 abc_label 3 genesis registered parsers 3 abc_dot
      DnsType.txt refl (λ e. ground (arith, e)) refl refl refl

-- Bloom filters that hold nothing.
abbrev blank : ⊤
blank = tt

abbrev insert : Bytes → ⊤ → ⊤
insert name b = b

abbrev handler : Server ⊤
handler = fresh (record { primary = tt; secondary = tt; primary_count = 0 }) 100

abbrev request : Request
request = record {
  src = v4 (10 ∷ 0 ∷ 0 ∷ 1 ∷ []);
  queries = record { name = abc_dot; query_type = DnsType.a } ∷ [];
}

abbrev moment : Moment
moment = record {
  now = 5;
  src_ok = true;
  global_response_ok = true;
  zone_ok = true;
  storage_ok = true;
  gone_penalty = λ _. false;
  gone_neg = λ _. false;
  gone_seen = λ _. false;
  inner = some ResponseCode.nx_domain;
}

abbrev handled : Server ⊤ → Response × Server ⊤
handled s = handle_request 80000 blank insert request moment s

abbrev once : Server ⊤
once = (handled handler).1

abbrev twice : Server ⊤
twice = (handled once).1

abbrev log : List (Bytes × Response)
log = (abc_dot, (handled once).0) ∷ (abc_dot, (handled handler).0) ∷ []

replied-denials_example : 2 ≤ denials abc_dot log
unfolding dns_steps
replied-denials_example =
    replied-denials 80000 blank insert (record { primary = tt; secondary = tt; primary_count = 0 })
      100 twice log request moment
      (Reaches.handles once ((abc_dot, (handled handler).0) ∷ []) request moment
        (Reaches.handles handler [] request moment Reaches.start))
      refl

-- The zone's limiter stops a request, and the next one of the subnet comes half a second later.
abbrev limited_moment : Moment
limited_moment = record moment { zone_ok = false }

abbrev soon_after : Moment
soon_after = record moment { now = 505 }

abbrev limited_once : Server ⊤
limited_once = (handle_request 80000 blank insert request limited_moment handler).1

-- Another request of the subnet comes in between.
abbrev between : Server ⊤
between = (handle_request 80000 blank insert request (record moment { now = 300 }) limited_once).1

penalties_lem_example :
    (is_penalised 60005 (subnet_key request.src) handler ≡ false)
    × ((handle_request 80000 blank insert request soon_after between).0 ≡ dropped)
unfolding dns_steps
penalties_lem_example =
    penalties_lem 80000 blank insert (record { primary = tt; secondary = tt; primary_count = 0 })
      100 5 60005 handler between request request limited_moment soon_after (Ticks.start 5)
      (ground arith) (ground arith) refl refl refl refl refl
      (Soon.handles limited_once request (record moment { now = 300 }) (ground arith) (ground arith)
        refl Soon.here)
      refl refl refl (ground arith)

-- With a cap of one, the second of two requests is refused.
abbrev none_in_flight : Flight
none_in_flight = record { counter = 0; active = 0; refusing = 0 }

abbrev overlapping : Flight
overlapping = arrive 1 (arrive 1 none_in_flight)

second_refused : overlapping ≡ record { counter = 2; active = 1; refusing = 1 }
unfolding dns_steps
second_refused = refl

Reaches-bounds_example :
    (overlapping.counter ≡ overlapping.active + overlapping.refusing)
    × (overlapping.active ≤ 1)
    × (overlapping.active + overlapping.refusing ≤ 2)
unfolding dns_steps
Reaches-bounds_example = Reaches-bounds 1 2 overlapping (ground arith) (
    pns_pallets.Dns.Server.Inflight.Reaches.arrives (arrive 1 none_in_flight) (ground arith) (
      pns_pallets.Dns.Server.Inflight.Reaches.arrives none_in_flight (ground arith)
        pns_pallets.Dns.Server.Inflight.Reaches.idle))

-- Two queries in the response queue, the second of which was overtaken by the clock.
abbrev waiting : List (ℕ × ℕ)
waiting = (12, 0) ∷ (10, 1) ∷ []

loops : Loops 5 3 13 waiting
loops =
    receives 12 13 10 1 ((12, 0) ∷ []) (ground arith) (ground arith) (ground arith)
      (receives 12 12 12 0 [] (ground arith) (ground arith) (ground arith) (begins 12))

head_of_line : (tick 5 16 waiting).0 ≡ []
unfolding tick
head_of_line = refl

tick_bounds_example :
    ((tick 5 17 waiting).0 ++ (tick 5 17 waiting).1 ≡ waiting)
    × (all (is_due 5 17) (tick 5 17 waiting).0 ≡ true)
    × (all (is_fresh 5 3 17) (tick 5 17 waiting).1 ≡ true)
tick_bounds_example = tick_bounds 5 3 13 17 waiting loops
