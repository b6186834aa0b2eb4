-- ===== src/Dns/Authority/Served.antt =====
-- What the authority serves of the chain's records.
use pns_pallets.Base.{
  ℕ, ◌≡◌, Bool, true, false, not, Option, none, some, List, [], ◌∷◌, ◌++◌, ◌⊎◌, if◌then◌else◌, ap,
  sym, subst, ◌&&◌, ◌||◌, ltb, leb, ◌∙◌, arith, refl, all, inl, inr, Option-cases, ◌+◌,
}
use pns_pallets.Types.{DomainHash, Bytes}
use pns_pallets.Types.Ddns.{RecordType}
use pns_pallets.Types.Storage.{State, Resolvers}
use pns_pallets.Runtime.{Env}
use pns_pallets.Resolvers
use pns_pallets.Chain.Apis.{lookup_by_name}
use pns_pallets.Dns.Types.{DnsType, to_dns, from_dns, is_canonical, from_dns-Converts, Converts}
use pns_pallets.Dns.Records.{
  Parsers, DnsRecord, type_of, is_polkadot_only, rdata_of, pns_record_to_dns, collect, push, is_any,
  same_dns, dns_code, is_cname, max_cname_depth,
}
use pns_pallets.Dns.Authority.{
  Answer, records, lookup, below, answer, filter_of, apex, all_types, synthesize_soa, synthesize_ns,
  serial_of, extract_label,
}

-- The private codes of the chain's own types.
abbrev pub is_private : DnsType → Bool
is_private (DnsType.unknown n) = leb 65280 n && leb n 65292
is_private _ = false

-- A record that may answer a query: of the queried type, unless any was queried, and of no private
-- type.
abbrev pub answers_query : DnsType → DnsRecord → Bool
answers_query q r = (is_any q || same_dns (type_of r.rdata) q) && not (is_private (type_of r.rdata))

abbrev Serves : DnsType → Option DnsRecord → Type 0
Serves q none = Unit {0}
Serves q (some r) = answers_query q r ≡ true

module _ (parse : Parsers) (owner bytes : Bytes) where
  any-Serves :
      (t : RecordType)
      → is_canonical t ≡ true
      → Serves DnsType.any (pns_record_to_dns parse owner t bytes DnsType.any)
  unfolding pns_record_to_dns rdata_of is_polkadot_only to_dns is_canonical dns_code
  any-Serves (RecordType.unknown n) h = ground arith
  any-Serves _ h = ground arith

  own-Serves :
      (t : RecordType)
      → is_canonical t ≡ true
      → Serves (to_dns t) (pns_record_to_dns parse owner t bytes (to_dns t))
  unfolding pns_record_to_dns rdata_of is_polkadot_only to_dns is_canonical dns_code
  own-Serves (RecordType.unknown n) h = ground arith
  own-Serves _ h = ground arith

-- A type of the chain's answer to a query: one that is never served, or a canonical one that the query
-- is about.
abbrev Asks : DnsType → RecordType → Type 0
Asks q t =
    (is_polkadot_only t ≡ true) ⊎ ((is_canonical t ≡ true) × ((q ≡ DnsType.any) ⊎ (q ≡ to_dns t)))

abbrev AllAsk : DnsType → List RecordType → Type 0
AllAsk q [] = Unit {0}
AllAsk q (t ∷ ts) = Asks q t × AllAsk q ts

abbrev Asked : DnsType → List (RecordType × Bytes) → Type 0
Asked q [] = Unit {0}
Asked q ((t, bytes) ∷ rest) = Asks q t × Asked q rest

Asked-++ :
    (q : DnsType) (xs ys : List (RecordType × Bytes)) → Asked q xs → Asked q ys → Asked q (xs ++ ys)
Asked-++ q [] ys a b = b
Asked-++ q (x ∷ xs) ys a b = (a.0, Asked-++ q xs ys a.1 b)

answer-Asked :
    (q : DnsType) (node : DomainHash) (t : RecordType) (r : Resolvers)
    → Asks q t
    → Asked q (Resolvers.answer node t r)
unfolding Resolvers.answer
answer-Asked q node t r fits =
    elim (Resolvers.get_record node t r)
      as (λ c. Asked q (elim c [ [] ↦ [] | b ∷ bs ↦ (t, b ∷ bs) ∷ [] ])) [
        | [] ↦ tt
        | b ∷ bs ↦ (fits, tt)
      ]

answers-Asked :
    (q : DnsType) (node : DomainHash) (ts : List RecordType) (r : Resolvers)
    → AllAsk q ts
    → Asked q (Resolvers.answers node ts r)
unfolding Resolvers.answers
answers-Asked q node [] r fits = tt
answers-Asked q node (t ∷ ts) r fits =
    elim (Resolvers.is_blocked t)
      as (λ b. Asked q (
        if b
        then Resolvers.answers node ts r
        else Resolvers.answer node t r ++ Resolvers.answers node ts r)) [
          | true ↦ answers-Asked q node ts r fits.1
          | false ↦
              Asked-++ q (Resolvers.answer node t r) (Resolvers.answers node ts r)
                (answer-Asked q node t r fits.0) (answers-Asked q node ts r fits.1)
        ]

lookup-Asked :
    (q : DnsType) (node : DomainHash) (ts : List RecordType) (r : Resolvers)
    → AllAsk q ts
    → Asked q (Resolvers.lookup node ts r)
unfolding Resolvers.lookup is_polkadot_only
lookup-Asked q node ts r fits =
    Asked-++ q (Resolvers.answer node RecordType.ss58 r) _
      (answer-Asked q node RecordType.ss58 r (inl refl))
      (Asked-++ q (Resolvers.answer node RecordType.origin r) _
        (answer-Asked q node RecordType.origin r (inl refl)) (answers-Asked q node ts r fits))

canonical-AllAsk : (ts : List RecordType) → all is_canonical ts ≡ true → AllAsk DnsType.any ts
canonical-AllAsk [] h = tt
canonical-AllAsk (t ∷ ts) h =
    (inr (ground (arith, h), inl refl), canonical-AllAsk ts (ground (arith, h)))

is_any-eq : (q : DnsType) → is_any q ≡ true → q ≡ DnsType.any
is_any-eq DnsType.any h = refl
is_any-eq _ h = absurd (ground arith)

some_injective : (xs ys : List RecordType) → some xs ≡ some ys → xs ≡ ys
some_injective xs ys e = ap (λ o. elim o [ none ↦ xs | some zs ↦ zs ]) e

one-AllAsk :
    (q : DnsType) (t : RecordType) (ts : List RecordType)
    → Converts q (some t)
    → some (t ∷ []) ≡ some ts
    → AllAsk q ts
one-AllAsk q t ts c e =
    subst (AllAsk q) (some_injective (t ∷ []) ts e) (inr (c.1, inr (sym c.0)), tt)

filter_of-AllAsk : (q : DnsType) (ts : List RecordType) → filter_of q ≡ some ts → AllAsk q ts
unfolding filter_of is_canonical
filter_of-AllAsk DnsType.any ts e =
    subst (AllAsk DnsType.any) (some_injective all_types ts e) (canonical-AllAsk all_types refl)
filter_of-AllAsk q ts e = elim (Option-cases (from_dns q)) [
  | inl missing ↦ absurd (ground (arith, missing, e))
  | inr (t, found) ↦
      one-AllAsk q t ts (subst (Converts q) found (from_dns-Converts q)) (ground (arith, found, e))
]

pns_record_to_dns-Serves :
    (parse : Parsers) (owner bytes : Bytes) (q : DnsType) (t : RecordType)
    → Asks q t
    → Serves q (pns_record_to_dns parse owner t bytes q)
unfolding pns_record_to_dns
pns_record_to_dns-Serves parse owner bytes q t (inl never) = ground (arith, never)
pns_record_to_dns-Serves parse owner bytes q t (inr (canonical, inl same)) =
    subst (λ u. Serves u (pns_record_to_dns parse owner t bytes u)) (sym same)
      (any-Serves parse owner bytes t canonical)
pns_record_to_dns-Serves parse owner bytes q t (inr (canonical, inr same)) =
    subst (λ u. Serves u (pns_record_to_dns parse owner t bytes u)) (sym same)
      (own-Serves parse owner bytes t canonical)

all-push :
    (q : DnsType) (stop : Bool) (o : Option DnsRecord) (more : List DnsRecord)
    → Serves q o
    → all (answers_query q) more ≡ true
    → all (answers_query q) (if stop then [] else push o more) ≡ true
all-push q true o more here rest = refl
all-push q false none more here rest = rest
all-push q false (some r) more here rest = ap (λ b. b && all (answers_query q) more) here ∙ rest

all-collect :
    (parse : Parsers) (owner : Bytes) (q : DnsType) (depth : ℕ) (raw : List (RecordType × Bytes))
    → Asked q raw
    → all (answers_query q) (collect parse owner q depth raw) ≡ true
unfolding collect
all-collect parse owner q depth [] asked = refl
all-collect parse owner q depth ((t, bytes) ∷ rest) asked =
    let depth' = if is_cname t then depth + 1 else depth in
    all-push q (is_cname t && ltb max_cname_depth depth') (pns_record_to_dns parse owner t bytes q)
      (collect parse owner q depth' rest) (pns_record_to_dns-Serves parse owner bytes q t asked.0)
      (all-collect parse owner q depth' rest asked.1)

-- The records of an answer.
abbrev pub records_of : Answer → List DnsRecord
records_of (records rs) = rs
records_of _ = []

-- The runtime's answer to the authority, at a state of the chain.
abbrev pub chain_api : Env → State → Bytes → List RecordType → Option (List (RecordType × Bytes))
chain_api env s label filter = some (lookup_by_name env label filter s)

all-below :
    (parse : Parsers) (env : Env) (s : State) (name : Bytes) (q : DnsType) (label : Option Bytes)
    → all (answers_query q) (records_of (below parse (chain_api env s) name q label)) ≡ true
unfolding below answer lookup_by_name
all-below parse env s name q none = refl
all-below parse env s name q (some label) = elim (Option-cases (filter_of q)) [
  | inl missing ↦ ground (arith, missing)
  | inr (ts, asked) ↦ ground (
    arith,
    asked,
    all-collect parse name q 0 (lookup_by_name env label ts s)
        (lookup-Asked q _ ts s.resolvers (filter_of-AllAsk q ts asked)),
  )
]

all-apex : (serial : ℕ) (q : DnsType) → all (answers_query q) (records_of (apex serial q)) ≡ true
unfolding apex synthesize_soa synthesize_ns dns_code
all-apex serial (DnsType.unknown n) = ground arith
all-apex serial (DnsType.unsupported n) = ground arith
all-apex serial _ = ground arith

-- Over the records of the chain, whatever the parsers of addresses and names do, every record of an
-- answer is of the queried type unless any was queried, and none is of a private type.
pub lookup-Served :
    (parse : Parsers) (env : Env) (s : State) (block_number : ℕ) (name : Bytes) (q : DnsType)
    → all (answers_query q) (records_of (lookup parse (chain_api env s) block_number name q)) ≡ true
unfolding lookup
lookup-Served parse env s block_number name q =
    ground (
      arith,
      all-apex (serial_of block_number) q,
      all-below parse env s name q (extract_label name),
    )
