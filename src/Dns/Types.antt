-- ===== src/Dns/Types.antt =====
-- The conversions between the record types of the chain and those of the DNS library,
-- pallets/pns-types/src/ddns.rs.
use pns_pallets.Base.{
  ℕ, ◌≡◌, ◌↔◌, ◌&&◌, Bool, true, false, not, Option, none, some, ◌==◌, leb, arith, refl,
  if◌then◌else◌,
}
use pns_pallets.Types.Ddns.{RecordType}

-- `hickory_proto::rr::RecordType`, by the names that the source uses. `unsupported` stands for the
-- types of the library that the source does not name.
pub data DnsType : Type 0 where
  a aaaa aname any axfr caa cds cdnskey cname csync dnskey ds hinfo https ixfr key mx naptr :
      DnsType
  ns nsec nsec3 nsec3param null openpgpkey opt ptr rrsig sig soa srv sshfp svcb tlsa tsig txt :
      DnsType
  unknown : ℕ → DnsType
  zero : DnsType
  unsupported : ℕ → DnsType

-- `From<codec_type::RecordType> for RecordType`
unfoldable pub to_dns : RecordType → DnsType
to_dns RecordType.a = DnsType.a
to_dns RecordType.aaaa = DnsType.aaaa
to_dns RecordType.aname = DnsType.aname
to_dns RecordType.any = DnsType.any
to_dns RecordType.axfr = DnsType.axfr
to_dns RecordType.caa = DnsType.caa
to_dns RecordType.cds = DnsType.cds
to_dns RecordType.cdnskey = DnsType.cdnskey
to_dns RecordType.cname = DnsType.cname
to_dns RecordType.csync = DnsType.csync
to_dns RecordType.dnskey = DnsType.dnskey
to_dns RecordType.ds = DnsType.ds
to_dns RecordType.hinfo = DnsType.hinfo
to_dns RecordType.https = DnsType.https
to_dns RecordType.ixfr = DnsType.ixfr
to_dns RecordType.key = DnsType.key
to_dns RecordType.mx = DnsType.mx
to_dns RecordType.naptr = DnsType.naptr
to_dns RecordType.ns = DnsType.ns
to_dns RecordType.nsec = DnsType.nsec
to_dns RecordType.nsec3 = DnsType.nsec3
to_dns RecordType.nsec3param = DnsType.nsec3param
to_dns RecordType.null = DnsType.null
to_dns RecordType.openpgpkey = DnsType.openpgpkey
to_dns RecordType.opt = DnsType.opt
to_dns RecordType.ptr = DnsType.ptr
to_dns RecordType.rrsig = DnsType.rrsig
to_dns RecordType.sig = DnsType.sig
to_dns RecordType.soa = DnsType.soa
to_dns RecordType.srv = DnsType.srv
to_dns RecordType.sshfp = DnsType.sshfp
to_dns RecordType.svcb = DnsType.svcb
to_dns RecordType.tlsa = DnsType.tlsa
to_dns RecordType.tsig = DnsType.tsig
to_dns RecordType.txt = DnsType.txt
to_dns RecordType.ss58 = DnsType.unknown 65280
to_dns RecordType.rpc = DnsType.unknown 65281
to_dns RecordType.validator = DnsType.unknown 65282
to_dns RecordType.para = DnsType.unknown 65283
to_dns RecordType.proxy = DnsType.unknown 65284
to_dns RecordType.pubkey1 = DnsType.unknown 65285
to_dns RecordType.avatar = DnsType.unknown 65286
to_dns RecordType.contract = DnsType.unknown 65287
to_dns RecordType.pubkey2 = DnsType.unknown 65288
to_dns RecordType.pubkey3 = DnsType.unknown 65289
to_dns RecordType.origin = DnsType.unknown 65290
to_dns RecordType.ipfs = DnsType.unknown 65291
to_dns RecordType.content = DnsType.unknown 65292
to_dns (RecordType.unknown n) = DnsType.unknown n
to_dns RecordType.zero = DnsType.zero

-- The types of the chain behind the private codes.
unfoldable pub from_code : ℕ → RecordType
from_code n =
    if n == 65280
    then RecordType.ss58
    else if n == 65281
    then RecordType.rpc
    else if n == 65282
    then RecordType.validator
    else if n == 65283
    then RecordType.para
    else if n == 65284
    then RecordType.proxy
    else if n == 65285
    then RecordType.pubkey1
    else if n == 65286
    then RecordType.avatar
    else if n == 65287
    then RecordType.contract
    else if n == 65288
    then RecordType.pubkey2
    else if n == 65289
    then RecordType.pubkey3
    else if n == 65290
    then RecordType.origin
    else if n == 65291
    then RecordType.ipfs
    else if n == 65292
    then RecordType.content
    else RecordType.unknown n

-- `Into<codec_type::RecordType> for RecordType`; the panic on any other type is `none`.
unfoldable pub from_dns : DnsType → Option RecordType
unfolding from_code
from_dns DnsType.a = some RecordType.a
from_dns DnsType.aaaa = some RecordType.aaaa
from_dns DnsType.aname = some RecordType.aname
from_dns DnsType.any = some RecordType.any
from_dns DnsType.axfr = some RecordType.axfr
from_dns DnsType.caa = some RecordType.caa
from_dns DnsType.cds = some RecordType.cds
from_dns DnsType.cdnskey = some RecordType.cdnskey
from_dns DnsType.cname = some RecordType.cname
from_dns DnsType.csync = some RecordType.csync
from_dns DnsType.dnskey = some RecordType.dnskey
from_dns DnsType.ds = some RecordType.ds
from_dns DnsType.hinfo = some RecordType.hinfo
from_dns DnsType.https = some RecordType.https
from_dns DnsType.ixfr = some RecordType.ixfr
from_dns DnsType.key = some RecordType.key
from_dns DnsType.mx = some RecordType.mx
from_dns DnsType.naptr = some RecordType.naptr
from_dns DnsType.ns = some RecordType.ns
from_dns DnsType.nsec = some RecordType.nsec
from_dns DnsType.nsec3 = some RecordType.nsec3
from_dns DnsType.nsec3param = some RecordType.nsec3param
from_dns DnsType.null = some RecordType.null
from_dns DnsType.openpgpkey = some RecordType.openpgpkey
from_dns DnsType.opt = some RecordType.opt
from_dns DnsType.ptr = some RecordType.ptr
from_dns DnsType.rrsig = some RecordType.rrsig
from_dns DnsType.sig = some RecordType.sig
from_dns DnsType.soa = some RecordType.soa
from_dns DnsType.srv = some RecordType.srv
from_dns DnsType.sshfp = some RecordType.sshfp
from_dns DnsType.svcb = some RecordType.svcb
from_dns DnsType.tlsa = some RecordType.tlsa
from_dns DnsType.tsig = some RecordType.tsig
from_dns DnsType.txt = some RecordType.txt
from_dns (DnsType.unknown n) = some (from_code n)
from_dns DnsType.zero = some RecordType.zero
from_dns (DnsType.unsupported n) = none

-- A type that is not written with the code of another.
unfoldable pub is_canonical : RecordType → Bool
is_canonical (RecordType.unknown n) = not (leb 65280 n && leb n 65292)
is_canonical _ = true

to_dns-from_code : (n : ℕ) → to_dns (from_code n) ≡ DnsType.unknown n
unfolding to_dns from_code
to_dns-from_code n = ground arith

from_code-is_canonical : (n : ℕ) → is_canonical (from_code n) ≡ true
unfolding is_canonical from_code
from_code-is_canonical n = ground arith

from_code_unknown :
    (n : ℕ)
    → (is_canonical (RecordType.unknown n) ≡ true)
      ↔ (some (from_code n) ≡ some (RecordType.unknown n))
unfolding is_canonical from_code
from_code_unknown n = ground arith

abbrev pub is_unsupported : DnsType → Bool
is_unsupported (DnsType.unsupported n) = true
is_unsupported _ = false

-- The conversion has panicked on an unsupported type, or its result converts back and is canonical.
abbrev pub Converts : DnsType → Option RecordType → Type 0
Converts t none = is_unsupported t ≡ true
Converts t (some u) = (to_dns u ≡ t) × (is_canonical u ≡ true) × (is_unsupported t ≡ false)

-- A type of the DNS library converts to a canonical type of the chain, which converts back to it, and
-- the conversion panics on the unsupported types alone.
pub from_dns-Converts : (t : DnsType) → Converts t (from_dns t)
unfolding from_dns to_dns is_canonical
from_dns-Converts (DnsType.unknown n) = (to_dns-from_code n, from_code-is_canonical n, refl)
from_dns-Converts (DnsType.unsupported n) = refl
from_dns-Converts _ = (refl, refl, refl)

-- Exactly the canonical types of the chain survive the conversion to the DNS library and back.
pub from_dns-to_dns : (u : RecordType) → (is_canonical u ≡ true) ↔ (from_dns (to_dns u) ≡ some u)
unfolding from_dns to_dns is_canonical
from_dns-to_dns (RecordType.unknown n) = from_code_unknown n
from_dns-to_dns _ = (λ h. refl, λ h. refl)
