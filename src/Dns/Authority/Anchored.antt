-- ===== src/Dns/Authority/Anchored.antt =====
-- A registered name exists in the DNS: the registration writes its SS58 record.
use pns_pallets.Base.{
  ℕ, ◌≡◌, ◌≢◌, true, Option, none, some, List, [], ◌∷◌, ◌∙◌, all, position, arith, refl, sym, inl,
  inr, Option-cases,
}
use pns_pallets.Types.{AccountId, DomainHash, Bytes}
use pns_pallets.Types.Ddns.{RecordType, storage_key}
use pns_pallets.Types.Dispatch.{RawOrigin}
use pns_pallets.Types.Storage.{State}
use pns_pallets.Runtime.{Env, ok, after}
use pns_pallets.Label.{Label, new_with_len, encode_with_node}
use pns_pallets.Label.Utf8.{is_ascii_alphanumeric}
use pns_pallets.Label.Valid.{check_label-IsLabel, IsLabel}
use pns_pallets.Label.Nodes.{parse_name_to_node-label}
use pns_pallets.Resolvers
use pns_pallets.Resolvers.{set_ss58_record, set_origin_record, entry, set_entry, del_entry}
use pns_pallets.Resolvers.Anchors.{entry-set_entry}
use pns_pallets.Registrar.Names.{register, register_node, pay_registration}
use pns_pallets.PriceOracle.{registration_fee}
use pns_pallets.Registry.Names.{mint_subname}
use pns_pallets.Chain.Apis.{lookup_by_name}
use pns_pallets.Dns.Types.{DnsType}
use pns_pallets.Dns.Records.{Parsers}
use pns_pallets.Dns.Authority.{nx_domain, lookup, extract_label}
use pns_pallets.Dns.Authority.Served.{chain_api}
use pns_pallets.Dns.Authority.Outcomes.{lookup-Explained}

no_dot : (bs : Bytes) → all is_ascii_alphanumeric bs ≡ true → position b'.' bs ≡ none
no_dot [] h = refl
no_dot (b ∷ bs) h = ground (arith, no_dot bs)

label-no_dot :
    (env : Env) (name : Bytes) (label : Label) (len : ℕ)
    → new_with_len env name ≡ some (label, len)
    → position b'.' name ≡ none
unfolding new_with_len
label-no_dot env name label len e =
    let valid : IsLabel name = (check_label-IsLabel name).0.0 (ground (arith, e)) in
    no_dot name valid.2

-- An SS58 record is answered along with every query.
lookup-ss58 :
    (node : DomainHash) (types : List RecordType) (r : State)
    → Resolvers.get_record node RecordType.ss58 r.resolvers ≢ []
    → Resolvers.lookup node types r.resolvers ≢ []
unfolding Resolvers.lookup Resolvers.answer
lookup-ss58 node types r stored e = ground (arith, stored, e)

module _ (env : Env) where
  register_node-ss58 :
      (caller owner official : AccountId) (name : Bytes) (node len expire : ℕ) (s s' : State)
      → register_node env caller owner official name node len expire s ≡ ok (tt, s')
      → Resolvers.get_record node RecordType.ss58 s'.resolvers ≡ env.encode_account owner
  unfolding register_node set_ss58_record set_origin_record storage_key
  register_node-ss58 caller owner official name node len expire s s' e =
      elim (Option-cases (registration_fee len s.price_oracle)) [
        | inl unpriced ↦ absurd (ground (arith, unpriced, e))
        | inr (fee, priced) ↦
            let t =
              after
                (mint_subname env official [] env.base_node node owner 0
                  (pay_registration env caller node fee expire len) s)
                s in
            let es = t.resolvers.records node in
            let bytes = env.encode_account owner in
            ground (
              arith,
              priced,
              e,
              entry-set_entry 0 0 bytes es,
              entry-set_entry 0 10 env.parent_hash (set_entry 0 bytes es),
            )
      ]

  register-ss58 :
      (origin : RawOrigin) (name : Bytes) (source : ℕ) (reject : Option Bytes) (owner : AccountId)
      (label : Label) (len : ℕ) (s s' : State)
      → env.lookup source ≡ ok owner
      → new_with_len env name ≡ some (label, len)
      → register env origin name source reject s ≡ ok (tt, s')
      → Resolvers.get_record (encode_with_node env label env.base_node) RecordType.ss58 s'.resolvers
        ≡ env.encode_account owner
  unfolding register
  register-ss58 origin name source reject owner label len s s' found parsed e =
      grind (arith, found, parsed, e, register_node-ss58)

-- After a registration that goes through, for an owner whose account is not encoded as nothing, no
-- query for the name, whatever its type, is answered as a name that does not exist.
pub register-lookup :
    (env : Env) (origin : RawOrigin) (name : Bytes) (source : ℕ) (reject : Option Bytes)
    (owner : AccountId) (label : Label) (len : ℕ) (s s' : State) (parse : Parsers)
    (block_number : ℕ) (dns_name : Bytes) (q : DnsType)
    → env.lookup source ≡ ok owner
    → env.encode_account owner ≢ []
    → new_with_len env name ≡ some (label, len)
    → register env origin name source reject s ≡ ok (tt, s')
    → extract_label dns_name ≡ some name
    → lookup parse (chain_api env s') block_number dns_name q ≢ nx_domain
unfolding lookup_by_name
register-lookup env origin name source reject owner label len s s' parse block_number dns_name q
      found encoded parsed e named missing =
    let stored = register-ss58 env origin name source reject owner label len s s' found parsed e in
    let node_of_name =
      (parse_name_to_node-label env env.base_node name []
        (label-no_dot env name label len parsed)).0 in
    elim ((lookup-Explained parse (chain_api env s') block_number dns_name q nx_domain).1 missing) [
      | inl (_, outside) ↦ absurd (ground (arith, outside, named))
      | inr (_, _, (asked, types, same, filtered, answered)) ↦
          lookup-ss58 (encode_with_node env label env.base_node) types s'
            (λ nothing. encoded (sym stored ∙ nothing))
            (ground (arith, named, same, answered, node_of_name, parsed))
    ]
