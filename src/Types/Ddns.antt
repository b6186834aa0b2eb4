-- ===== src/Types/Ddns.antt =====
-- The record types of pallets/pns-types/src/ddns.rs and their storage keys.
use pns_pallets.Base.{ℕ, ◌+◌, ◌*◌, Bool, ◌==◌}

pub data RecordType : Type 0 where
  ss58 rpc validator para proxy pubkey1 avatar contract pubkey2 pubkey3 origin ipfs content :
      RecordType
  a aaaa aname any axfr caa cds cdnskey cname csync dnskey ds hinfo https ixfr key mx naptr ns
        nsec :
      RecordType
  nsec3 nsec3param null openpgpkey opt ptr rrsig sig soa srv sshfp svcb tlsa tsig txt : RecordType
  unknown : ℕ → RecordType
  zero : RecordType

-- The SCALE encoding as a number: the variant's index, then the payload of `Unknown`.
unfoldable pub storage_key : RecordType → ℕ
storage_key ss58 = 0
storage_key rpc = 1
storage_key validator = 2
storage_key para = 3
storage_key proxy = 4
storage_key pubkey1 = 5
storage_key avatar = 6
storage_key contract = 7
storage_key pubkey2 = 8
storage_key pubkey3 = 9
storage_key origin = 10
storage_key ipfs = 11
storage_key content = 12
storage_key a = 13
storage_key aaaa = 14
storage_key aname = 15
storage_key any = 16
storage_key axfr = 17
storage_key caa = 18
storage_key cds = 19
storage_key cdnskey = 20
storage_key cname = 21
storage_key csync = 22
storage_key dnskey = 23
storage_key ds = 24
storage_key hinfo = 25
storage_key https = 26
storage_key ixfr = 27
storage_key key = 28
storage_key mx = 29
storage_key naptr = 30
storage_key ns = 31
storage_key nsec = 32
storage_key nsec3 = 33
storage_key nsec3param = 34
storage_key null = 35
storage_key openpgpkey = 36
storage_key opt = 37
storage_key ptr = 38
storage_key rrsig = 39
storage_key sig = 40
storage_key soa = 41
storage_key srv = 42
storage_key sshfp = 43
storage_key svcb = 44
storage_key tlsa = 45
storage_key tsig = 46
storage_key txt = 47
storage_key (unknown n) = 48 + 256 * n
storage_key zero = 49

-- `==` on record types, by their encodings.
unfoldable pub same_type : RecordType → RecordType → Bool
unfolding storage_key
same_type t u = storage_key t == storage_key u
