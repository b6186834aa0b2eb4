-- ===== src/Node/Rpc.antt =====
-- The JSON-RPC of the node, node/src/pns_rpc.rs.
use mathlib.Core.Option
use pns_pallets.Base.{ℕ, ◌%◌, ◌^◌, Option, none, some, List, [], ◌∷◌, map}
use pns_pallets.Types.{AccountId, DomainHash, Bytes, RegistrarInfo}
use pns_pallets.Types.Ddns.{RecordType}
use pns_pallets.Dns.Types.{DnsType, to_dns, from_dns}
use pns_pallets.Chain.Apis.{NameRecord, ListingInfo, AccountDashboard}
use pns_pallets.Node.Client.{PnsStorageApi, Client}

-- `RpcResult`, whose only error is the internal one, with the panic of a conversion.
pub data RpcResult {ℓ} (A : Type ℓ) : Type ℓ where
  ok : A → RpcResult A
  internal_error panics : RpcResult A

-- `map_err`
abbrev pub reported {ℓ} : {A : Type ℓ} → Option A → RpcResult A
reported none = internal_error
reported (some a) = ok a

-- One query at the best block, with its result or its error.
abbrev pub at_best {ℓ} : {A : Type ℓ} → (PnsStorageApi → A) → Client → RpcResult A
at_best f client = elim (client.runtime_api client.best_hash) [
  | none ↦ internal_error
  | some api ↦ ok (f api)
]

-- The block that a record was read at.
abbrev pub stamp : Client → NameRecord → NameRecord
stamp client r = record r {
  read_block_hash = client.best_hash;
  read_block_number = client.best_number;
}

abbrev pub stamp_listing : Client → ListingInfo → ListingInfo
stamp_listing client r = record r {
  read_block_hash = client.best_hash;
  read_block_number = client.best_number;
}

unfoldable pub get_info : DomainHash → Client → RpcResult (Option NameRecord)
get_info node client = at_best (λ api. Option.map (stamp client) (api.get_info node)) client

unfoldable pub resolve_name : Bytes → Client → RpcResult (Option NameRecord)
resolve_name name client = at_best (λ api. Option.map (stamp client) (api.resolve_name name)) client

unfoldable pub get_listing : Bytes → Client → RpcResult (Option ListingInfo)
get_listing name client =
    at_best (λ api. Option.map (stamp_listing client) (api.get_listing name)) client

unfoldable pub all : Client → RpcResult (List (DomainHash × RegistrarInfo))
all client = at_best (λ api. api.all) client

unfoldable pub account_dashboard : AccountId → Client → RpcResult AccountDashboard
account_dashboard account client = at_best (λ api. api.account_dashboard account) client

-- `of_code` is the DNS library's `RecordType::from(u16)`. `code as u16` keeps the low 16 bits; the
-- conversion to the chain's type panics on a type that it does not know.
unfoldable pub pns_types : (ℕ → DnsType) → List ℕ → Option (List RecordType)
pns_types of_code [] = some []
pns_types of_code (code ∷ codes) = elim (from_dns (of_code (code % 2 ^ 16))) [
  | none ↦ none
  | some t ↦ Option.map (λ ts. t ∷ ts) (pns_types of_code codes)
]

-- `to_code` is its `u16::from(RecordType)`.
abbrev pub coded : (DnsType → ℕ) → RecordType × Bytes → ℕ × Bytes
coded to_code (rt, content) = (to_code (to_dns rt), content)

-- The types are converted before the call; `f` is the query that takes them.
abbrev pub converted :
    (DnsType → ℕ)
    → (PnsStorageApi → List RecordType → List (RecordType × Bytes))
    → Option (List RecordType)
    → Client
    → RpcResult (List (ℕ × Bytes))
converted to_code f none client = panics
converted to_code f (some ts) client = at_best (λ api. map (coded to_code) (f api ts)) client

module _ (of_code : ℕ → DnsType) (to_code : DnsType → ℕ) where
  unfoldable pub lookup : DomainHash → List ℕ → Client → RpcResult (List (ℕ × Bytes))
  unfolding pns_types
  lookup node record_types client =
      converted to_code (λ api ts. api.lookup node ts) (pns_types of_code record_types) client

  unfoldable pub lookup_by_name : Bytes → List ℕ → Client → RpcResult (List (ℕ × Bytes))
  unfolding pns_types
  lookup_by_name name record_types client =
      converted to_code (λ api ts. api.lookup_by_name name ts) (pns_types of_code record_types)
        client
