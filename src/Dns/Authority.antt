-- ===== src/Dns/Authority.antt =====
-- The authority over the zone of the names, `lookup` of pallets/pns-ddns/src/authority.rs: DNS records
-- from the contents that the chain stores.
pub mod Outcomes
pub mod Served
pub mod Anchored
use pns_pallets.Base.{
  ℕ, ◌+◌, ◌*◌, ◌-◌, ◌%◌, Bool, true, false, not, Option, none, some, List, [], ◌∷◌, ◌++◌, ◌&&◌,
  ◌||◌, ◌==◌, ltb, if◌then◌else◌, length, get_or, drop, min, u32_mod, u64_mod,
}
use pns_pallets.Types.{Bytes}
use pns_pallets.Types.Ddns.{RecordType}
use pns_pallets.Label.Utf8.{from_utf8}
use pns_pallets.Dns.Types.{DnsType, to_dns, from_dns}
use pns_pallets.Dns.Records.{
  DnsRecord, Parsers, RData, collect, dns_code, is_any, is_cname, is_polkadot_only, max_cname_depth,
  parsed_name, pns_record_to_dns, push, raw_data, rdata_of, rpc_data, same_bytes, same_dns, type_of,
  u16_at, wrap,
}

-- `dot.`, `ns1.dot.` and `hostmaster.dot.`
abbrev pub zone_origin : Bytes
zone_origin = 100 ∷ 111 ∷ 116 ∷ 46 ∷ []

abbrev pub mname : Bytes
mname = 110 ∷ 115 ∷ 49 ∷ 46 ∷ 100 ∷ 111 ∷ 116 ∷ 46 ∷ []

abbrev pub rname : Bytes
rname = 104 ∷ 111 ∷ 115 ∷ 116 ∷ 109 ∷ 97 ∷ 115 ∷ 116 ∷ 101 ∷ 114 ∷ 46 ∷ 100 ∷ 111 ∷ 116 ∷ 46 ∷ []

-- `s.strip_suffix(suffix)`
unfoldable pub strip_suffix : Bytes → Bytes → Option Bytes
strip_suffix suffix [] = if same_bytes [] suffix then some [] else none
strip_suffix suffix (b ∷ bs) =
    let rest = strip_suffix suffix bs in
    if same_bytes (b ∷ bs) suffix
    then some []
    else elim rest [ none ↦ none | some s ↦ some (b ∷ s) ]

-- The label below the origin; the origin's own is empty.
unfoldable pub extract_label : Bytes → Option Bytes
unfolding strip_suffix
extract_label name =
    if same_bytes name zone_origin then some [] else strip_suffix (46 ∷ zone_origin) name

unfoldable pub synthesize_soa : ℕ → DnsRecord
synthesize_soa serial = record {
  owner = zone_origin;
  ttl = 300;
  rdata = RData.soa mname rname serial 3600 900 86400 300;
}

unfoldable pub synthesize_ns : DnsRecord
synthesize_ns = record { owner = zone_origin; ttl = 300; rdata = RData.ns mname }

abbrev pub is_soa : DnsType → Bool
is_soa DnsType.soa = true
is_soa _ = false

abbrev pub is_ns : DnsType → Bool
is_ns DnsType.ns = true
is_ns _ = false

-- What a lookup answers; `panics` is the panic of the conversion of the queried type.
pub data Answer : Type 0 where
  records : List DnsRecord → Answer
  name_exists nx_domain serv_fail panics : Answer

abbrev pub records_or_exists : List DnsRecord → Answer
records_or_exists [] = name_exists
records_or_exists (r ∷ rs) = records (r ∷ rs)

-- The low 32 bits of the block number, which saturates at 64 bits.
abbrev pub serial_of : ℕ → ℕ
serial_of block_number = min block_number (u64_mod - 1) % u32_mod

-- `RecordType::all` of pallets/pns-types/src/ddns.rs.
abbrev pub all_types : List RecordType
all_types =
    RecordType.a ∷ RecordType.aaaa ∷ RecordType.aname ∷ RecordType.any ∷ RecordType.axfr
    ∷ RecordType.caa ∷ RecordType.cds ∷ RecordType.cdnskey ∷ RecordType.cname ∷ RecordType.csync
    ∷ RecordType.dnskey ∷ RecordType.ds ∷ RecordType.hinfo ∷ RecordType.https ∷ RecordType.ixfr
    ∷ RecordType.key ∷ RecordType.mx ∷ RecordType.naptr ∷ RecordType.ns ∷ RecordType.nsec
    ∷ RecordType.nsec3 ∷ RecordType.nsec3param ∷ RecordType.null ∷ RecordType.openpgpkey
    ∷ RecordType.opt ∷ RecordType.ptr ∷ RecordType.rrsig ∷ RecordType.sig ∷ RecordType.soa
    ∷ RecordType.srv ∷ RecordType.sshfp ∷ RecordType.svcb ∷ RecordType.tlsa ∷ RecordType.tsig
    ∷ RecordType.txt ∷ RecordType.zero ∷ RecordType.ss58 ∷ RecordType.rpc ∷ RecordType.validator
    ∷ RecordType.para ∷ RecordType.proxy ∷ RecordType.pubkey1 ∷ RecordType.avatar
    ∷ RecordType.contract ∷ RecordType.pubkey2 ∷ RecordType.pubkey3 ∷ RecordType.origin
    ∷ RecordType.ipfs ∷ RecordType.content ∷ []

-- The record types that a query asks of the chain.
unfoldable pub filter_of : DnsType → Option (List RecordType)
unfolding from_dns
filter_of rtype =
    if is_any rtype
    then some all_types
    else elim (from_dns rtype) [ none ↦ none | some t ↦ some (t ∷ []) ]

-- The answer at the apex of the zone; the second arm of ANY is never reached.
unfoldable pub apex : ℕ → DnsType → Answer
unfolding synthesize_soa synthesize_ns
apex serial rtype =
    if is_soa rtype || is_any rtype
    then records (synthesize_soa serial ∷ [])
    else if is_ns rtype
    then records (synthesize_ns ∷ [])
    else name_exists

-- The answer from what the runtime's call gives, which can fail.
unfoldable pub answer : Parsers → Bytes → DnsType → Option (List (RecordType × Bytes)) → Answer
unfolding collect
answer parse name rtype none = serv_fail
answer parse name rtype (some []) = nx_domain
answer parse name rtype (some (r ∷ raw)) = records_or_exists (collect parse name rtype 0 (r ∷ raw))

-- `api` is `lookup_by_name` of the runtime.
module _ (parse : Parsers)
    (api : Bytes → List RecordType → Option (List (RecordType × Bytes))) where
  abbrev pub ask : Bytes → DnsType → Bytes → Option (List RecordType) → Answer
  ask name rtype label none = panics
  ask name rtype label (some filter) = answer parse name rtype (api label filter)

  -- A name below the origin.
  unfoldable pub below : Bytes → DnsType → Option Bytes → Answer
  unfolding answer filter_of
  below name rtype none = nx_domain
  below name rtype (some label) =
      if is_soa rtype then name_exists else ask name rtype label (filter_of rtype)

  unfoldable pub lookup : ℕ → Bytes → DnsType → Answer
  unfolding below extract_label apex
  lookup block_number name rtype =
      if same_bytes name zone_origin
      then apex (serial_of block_number) rtype
      else below name rtype (extract_label name)
