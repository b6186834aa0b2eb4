-- ===== src/Dns/Records.antt =====
-- The DNS records of the chain's contents, `pns_record_to_dns` of pallets/pns-ddns/src/authority.rs. A
-- name of the DNS library is its text.
use pns_pallets.Base.{
  ℕ, ◌+◌, ◌*◌, Bool, true, false, not, Option, none, some, List, [], ◌∷◌, ◌&&◌, ◌||◌, ◌==◌, ltb,
  if◌then◌else◌, length, get_or, drop,
}
use pns_pallets.Types.{Bytes}
use pns_pallets.Types.Ddns.{RecordType}
use pns_pallets.Label.Utf8.{from_utf8}
use pns_pallets.Dns.Types.{DnsType, to_dns}

abbrev pub max_cname_depth : ℕ
max_cname_depth = 8

-- The data of a record; an address is its octets.
pub data RData : Type 0 where
  a aaaa txt cname ns : Bytes → RData
  mx : ℕ → Bytes → RData
  srv : ℕ → ℕ → ℕ → Bytes → RData
  soa : Bytes → Bytes → ℕ → ℕ → ℕ → ℕ → ℕ → RData
  unknown : DnsType → Bytes → RData

-- A record of the class IN.
pub record DnsRecord : Type 0 where
  pub owner : Bytes
  pub ttl : ℕ
  pub rdata : RData

-- `Record::record_type`
abbrev pub type_of : RData → DnsType
type_of (RData.a _) = DnsType.a
type_of (RData.aaaa _) = DnsType.aaaa
type_of (RData.txt _) = DnsType.txt
type_of (RData.cname _) = DnsType.cname
type_of (RData.ns _) = DnsType.ns
type_of (RData.mx _ _) = DnsType.mx
type_of (RData.srv _ _ _ _) = DnsType.srv
type_of (RData.soa _ _ _ _ _ _ _) = DnsType.soa
type_of (RData.unknown code _) = code

-- The parsers of the standard library and of the DNS library: `Name::from_str`, the two address
-- parsers, and `String::from_utf8_lossy`.
pub record Parsers : Type 0 where
  pub name : Bytes → Option Bytes
  pub ipv4 : Bytes → Option Bytes
  pub ipv6 : Bytes → Option Bytes
  pub lossy : Bytes → Bytes

abbrev pub same_bytes : Bytes → Bytes → Bool
same_bytes [] [] = true
same_bytes [] (b ∷ bs) = false
same_bytes (x ∷ xs) [] = false
same_bytes (x ∷ xs) (b ∷ bs) = x == b && same_bytes xs bs

unfoldable pub is_polkadot_only : RecordType → Bool
is_polkadot_only RecordType.ss58 = true
is_polkadot_only RecordType.validator = true
is_polkadot_only RecordType.para = true
is_polkadot_only RecordType.proxy = true
is_polkadot_only RecordType.pubkey1 = true
is_polkadot_only RecordType.pubkey2 = true
is_polkadot_only RecordType.pubkey3 = true
is_polkadot_only RecordType.avatar = true
is_polkadot_only RecordType.contract = true
is_polkadot_only RecordType.content = true
is_polkadot_only RecordType.ipfs = true
is_polkadot_only RecordType.origin = true
is_polkadot_only _ = false

-- `u16::from_be_bytes`
abbrev pub u16_at : Bytes → ℕ → ℕ
u16_at bytes i = get_or bytes i 0 * 256 + get_or bytes (i + 1) 0

-- The numbers of record types, to compare them.
unfoldable pub dns_code : DnsType → ℕ
dns_code DnsType.a = 0
dns_code DnsType.aaaa = 1
dns_code DnsType.aname = 2
dns_code DnsType.any = 3
dns_code DnsType.axfr = 4
dns_code DnsType.caa = 5
dns_code DnsType.cds = 6
dns_code DnsType.cdnskey = 7
dns_code DnsType.cname = 8
dns_code DnsType.csync = 9
dns_code DnsType.dnskey = 10
dns_code DnsType.ds = 11
dns_code DnsType.hinfo = 12
dns_code DnsType.https = 13
dns_code DnsType.ixfr = 14
dns_code DnsType.key = 15
dns_code DnsType.mx = 16
dns_code DnsType.naptr = 17
dns_code DnsType.ns = 18
dns_code DnsType.nsec = 19
dns_code DnsType.nsec3 = 20
dns_code DnsType.nsec3param = 21
dns_code DnsType.null = 22
dns_code DnsType.openpgpkey = 23
dns_code DnsType.opt = 24
dns_code DnsType.ptr = 25
dns_code DnsType.rrsig = 26
dns_code DnsType.sig = 27
dns_code DnsType.soa = 28
dns_code DnsType.srv = 29
dns_code DnsType.sshfp = 30
dns_code DnsType.svcb = 31
dns_code DnsType.tlsa = 32
dns_code DnsType.tsig = 33
dns_code DnsType.txt = 34
dns_code DnsType.zero = 35
dns_code (DnsType.unknown n) = 36 + 2 * n
dns_code (DnsType.unsupported n) = 37 + 2 * n

abbrev pub same_dns : DnsType → DnsType → Bool
same_dns t u = dns_code t == dns_code u

abbrev pub is_any : DnsType → Bool
is_any DnsType.any = true
is_any _ = false

abbrev pub push : Option DnsRecord → List DnsRecord → List DnsRecord
push none rs = rs
push (some r) rs = r ∷ rs

abbrev pub is_cname : RecordType → Bool
is_cname RecordType.cname = true
is_cname _ = false

module _ (parse : Parsers) where
  -- A name from UTF-8 text.
  abbrev pub parsed_name : Bytes → Option Bytes
  parsed_name bytes = elim (from_utf8 bytes) [ none ↦ none | some text ↦ parse.name text ]

  abbrev pub wrap : (Bytes → RData) → Option Bytes → Option RData
  wrap f none = none
  wrap f (some s) = some (f s)

  -- An address or a name, for a query of its type or of any.
  abbrev pub rpc_data : DnsType → Bytes → Option RData
  rpc_data queried text = elim (parse.ipv4 text) [
    | some ip ↦ if same_dns queried DnsType.a || is_any queried then some (RData.a ip) else none
    | none ↦ elim (parse.ipv6 text) [
      | some ip ↦
          if same_dns queried DnsType.aaaa || is_any queried then some (RData.aaaa ip) else none
      | none ↦ elim (parse.name text) [
        | some name ↦
            if same_dns queried DnsType.cname || is_any queried
            then some (RData.cname name)
            else none
        | none ↦ none
      ]
    ]
  ]

  -- A type that is stored as raw bytes, for a query of it or of any.
  abbrev pub raw_data : DnsType → RecordType → Bytes → Option RData
  raw_data queried t bytes =
      if not (same_dns (to_dns t) queried) && not (is_any queried)
      then none
      else some (RData.unknown (to_dns t) bytes)

  unfoldable pub rdata_of : RecordType → Bytes → DnsType → Option RData
  unfolding to_dns dns_code
  rdata_of RecordType.a bytes queried =
      if not (length bytes == 4) then none else some (RData.a bytes)
  rdata_of RecordType.aaaa bytes queried =
      if not (length bytes == 16) then none else some (RData.aaaa bytes)
  rdata_of RecordType.cname bytes queried = wrap RData.cname (parsed_name bytes)
  rdata_of RecordType.txt bytes queried = some (RData.txt (parse.lossy bytes))
  rdata_of RecordType.mx bytes queried =
      if ltb (length bytes) 3
      then none
      else wrap (RData.mx (u16_at bytes 0)) (parsed_name (drop 2 bytes))
  rdata_of RecordType.ns bytes queried = wrap RData.ns (parsed_name bytes)
  rdata_of RecordType.srv bytes queried =
      if ltb (length bytes) 7
      then none
      else wrap (RData.srv (u16_at bytes 0) (u16_at bytes 2) (u16_at bytes 4))
          (parsed_name (drop 6 bytes))
  rdata_of RecordType.rpc bytes queried = elim (from_utf8 bytes) [
    | none ↦ none
    | some text ↦ rpc_data queried text
  ]
  rdata_of t bytes queried = raw_data queried t bytes

  unfoldable pub pns_record_to_dns : Bytes → RecordType → Bytes → DnsType → Option DnsRecord
  unfolding is_polkadot_only rdata_of
  pns_record_to_dns owner t bytes queried =
      if is_polkadot_only t then none else elim (rdata_of t bytes queried) [
        | none ↦ none
        | some d ↦ some (record { owner = owner; ttl = 300; rdata = d })
      ]

  -- The loop over the chain's records: it stops at the CNAME behind the cap.
  unfoldable pub collect : Bytes → DnsType → ℕ → List (RecordType × Bytes) → List DnsRecord
  unfolding pns_record_to_dns
  collect owner queried depth [] = []
  collect owner queried depth ((t, bytes) ∷ rest) =
      let depth' = if is_cname t then depth + 1 else depth in
      let more = collect owner queried depth' rest in
      if is_cname t && ltb max_cname_depth depth'
      then []
      else push (pns_record_to_dns owner t bytes queried) more
