-- ===== src/Node/Codes.antt =====
-- What `pns_lookup` of the JSON-RPC answers to codes of record types.
use mathlib.Core.Option
use pns_pallets.Base.{
  ℕ, ◌%◌, ◌^◌, ◌<◌, ◌≡◌, inl, inr, Bool, true, false, ◌||◌, Option, none, some, Bool-cases, ap, ◌∙◌,
  ◌++◌, if◌then◌else◌, List, [], ◌∷◌, map, arith, refl,
}
use pns_pallets.Types.{DomainHash, Bytes}
use pns_pallets.Types.Ddns.{RecordType}
use pns_pallets.Types.Storage.{State, Resolvers}
use pns_pallets.Runtime.{Env}
use pns_pallets.Label.{parse_name_to_node}
use pns_pallets.Chain.Apis
use pns_pallets.Chain.Apis.{node_or_zero}
use pns_pallets.Resolvers
use pns_pallets.Resolvers.{is_blocked}
use pns_pallets.Dns.Types.{DnsType, to_dns, from_dns, from_dns-Converts, Converts, is_unsupported}
use pns_pallets.Node.Client.{Iterators, node_at}
use pns_pallets.Node.Rpc.{
  RpcResult, internal_error, panics, coded, converted, lookup, lookup_by_name, pns_types,
}

-- A code with its content, unless that is empty.
abbrev pub filled : ℕ → Bytes → List (ℕ × Bytes)
filled code [] = []
filled code (b ∷ bs) = (code, b ∷ bs) ∷ []

glue : {xs xs' ys ys' : List (ℕ × Bytes)} → xs ≡ xs' → ys ≡ ys' → xs ++ ys ≡ xs' ++ ys'
glue {xs' = xs'} {ys = ys} p q = ap (λ zs. zs ++ ys) p ∙ ap (λ zs. xs' ++ zs) q

-- What the chain's contents answer under the codes: a code with the content that stands under the node
-- for its type, if there is any, of no blocked type.
module _ (of_code : ℕ → DnsType) (node : DomainHash) (r : Resolvers) where
  abbrev pub content_of : ℕ → Option RecordType → List (ℕ × Bytes)
  content_of code none = []
  content_of code (some t) =
      if is_blocked t then [] else filled code (Resolvers.get_record node t r)

  abbrev pub contents : List ℕ → List (ℕ × Bytes)
  contents [] = []
  contents (c ∷ cs) = content_of (c % 2 ^ 16) (from_dns (of_code (c % 2 ^ 16))) ++ contents cs

  -- The anchors come first, whatever is asked for.
  abbrev pub expected : List ℕ → List (ℕ × Bytes)
  expected codes =
      filled 65280 (Resolvers.get_record node RecordType.ss58 r)
      ++ (filled 65290 (Resolvers.get_record node RecordType.origin r) ++ contents codes)

module _ (of_code : ℕ → DnsType) (to_code : DnsType → ℕ) where
  -- A code that the conversion to the chain's types panics on.
  abbrev pub has_unsupported : List ℕ → Bool
  has_unsupported [] = false
  has_unsupported (c ∷ cs) = is_unsupported (of_code (c % 2 ^ 16)) || has_unsupported cs

  abbrev pub Explains : List ℕ → DomainHash → Option State → RpcResult (List (ℕ × Bytes)) → Type 0
  Explains codes node block panics = has_unsupported codes ≡ true
  Explains codes node block internal_error = (block ≡ none) × (has_unsupported codes ≡ false)
  Explains codes node none (RpcResult.ok es) = ⊥
  Explains codes node (some s) (RpcResult.ok es) =
      (es ≡ expected of_code node s.resolvers codes) × (has_unsupported codes ≡ false)

  coded-++ :
      (xs ys : List (RecordType × Bytes))
      → map (coded to_code) (xs ++ ys) ≡ map (coded to_code) xs ++ map (coded to_code) ys
  coded-++ [] ys = refl
  coded-++ (x ∷ xs) ys = ap (λ zs. coded to_code x ∷ zs) (coded-++ xs ys)

  module _ (node : DomainHash) (r : Resolvers) where
    coded_content :
        (t : RecordType) (content : Bytes)
        → map (coded to_code) (elim content [ [] ↦ [] | b ∷ bs ↦ (t, b ∷ bs) ∷ [] ])
          ≡ filled (to_code (to_dns t)) content
    coded_content t [] = refl
    coded_content t (b ∷ bs) = refl

    coded-answer :
        (t : RecordType)
        → map (coded to_code) (Resolvers.answer node t r)
          ≡ filled (to_code (to_dns t)) (Resolvers.get_record node t r)
    unfolding Resolvers.answer
    coded-answer t = coded_content t (Resolvers.get_record node t r)

    -- The types that the codes convert to, with their answers.
    abbrev Converted : List ℕ → Option (List RecordType) → Type 0
    Converted codes none = has_unsupported codes ≡ true
    Converted codes (some ts) =
        (map (coded to_code) (Resolvers.answers node ts r) ≡ contents of_code node r codes)
        × (has_unsupported codes ≡ false)

    module _ (codes_back : (c : ℕ) → c < 2 ^ 16 → to_code (of_code c) ≡ c) where
      converted_first :
          (c : ℕ) (t : RecordType) (ts : List RecordType) (rest : List (ℕ × Bytes))
          → to_dns t ≡ of_code (c % 2 ^ 16)
          → map (coded to_code) (Resolvers.answers node ts r) ≡ rest
          → map (coded to_code) (Resolvers.answers node (t ∷ ts) r)
            ≡ content_of of_code node r (c % 2 ^ 16) (some t) ++ rest
      unfolding Resolvers.answers
      converted_first c t ts rest back h =
          let code = ap to_code back ∙ codes_back (c % 2 ^ 16) (omega arith) in
          elim (Bool-cases (is_blocked t)) [
            | inl blocked ↦ rw (blocked) h
            | inr open_type ↦ rw (open_type) (
                coded-++ (Resolvers.answer node t r) (Resolvers.answers node ts r)
                ∙ glue (coded-answer t ∙ ap (λ k. filled k (Resolvers.get_record node t r)) code) h)
          ]

      pns_types_step :
          (c : ℕ) (cs : List ℕ) (o : Option RecordType) (p : Option (List RecordType))
          → from_dns (of_code (c % 2 ^ 16)) ≡ o
          → Converts (of_code (c % 2 ^ 16)) o
          → Converted cs p
          → Converted (c ∷ cs) (elim o [ none ↦ none | some t ↦ Option.map (λ ts. t ∷ ts) p ])
      pns_types_step c cs none p is h hs = ground (arith, h)
      pns_types_step c cs (some t) none is (back, canonical, known) hs = ground (arith, known, hs)
      pns_types_step c cs (some t) (some ts) is (back, canonical, known) (hs, none_unknown) = (
        rw is (converted_first c t ts (contents of_code node r cs) back hs),
        ground (arith, known, none_unknown),
      )

      pns_types-Converted : (codes : List ℕ) → Converted codes (pns_types of_code codes)
      unfolding pns_types Resolvers.answers
      pns_types-Converted [] = (refl, refl)
      pns_types-Converted (c ∷ cs) =
          pns_types_step c cs (from_dns (of_code (c % 2 ^ 16))) (pns_types of_code cs) refl
            (from_dns-Converts (of_code (c % 2 ^ 16))) (pns_types-Converted cs)

    lookup-expected :
        (codes : List ℕ) (ts : List RecordType)
        → to_code (DnsType.unknown 65280) ≡ 65280
        → to_code (DnsType.unknown 65290) ≡ 65290
        → map (coded to_code) (Resolvers.answers node ts r) ≡ contents of_code node r codes
        → map (coded to_code) (Resolvers.lookup node ts r) ≡ expected of_code node r codes
    unfolding Resolvers.lookup to_dns
    lookup-expected codes ts e1 e2 h =
        let ss58 = Resolvers.answer node RecordType.ss58 r in
        let origin = Resolvers.answer node RecordType.origin r in
        let requested = Resolvers.answers node ts r in
        coded-++ ss58 (origin ++ requested)
        ∙ glue
            (coded-answer RecordType.ss58
              ∙ ap (λ k. filled k (Resolvers.get_record node RecordType.ss58 r)) e1)
            (coded-++ origin requested
              ∙ glue
                  (coded-answer RecordType.origin
                    ∙ ap (λ k. filled k (Resolvers.get_record node RecordType.origin r)) e2)
                  h)

  abbrev no_records : Resolvers
  no_records = record { records = λ _. []; texts = λ _. [] }

  converted-Explains :
      (iter : Iterators) (env : Env) (block : Option State) (best_hash node : DomainHash)
      (best_number : ℕ) (codes : List ℕ) (types : Option (List RecordType))
      → to_code (DnsType.unknown 65280) ≡ 65280
      → to_code (DnsType.unknown 65290) ≡ 65290
      → ((r : Resolvers) → Converted node r codes types)
      → Explains codes node block (
          converted to_code
            (λ api ts. api.lookup node ts)
            types
            (node_at iter best_hash best_number (Option.map (λ s. (env, s)) block)))
  unfolding node_at
  converted-Explains iter env block best_hash node best_number codes none e1 e2 h = h no_records
  converted-Explains iter env none best_hash node best_number codes (some ts) e1 e2 h =
      (refl, (h no_records).1)
  converted-Explains iter env (some s) best_hash node best_number codes (some ts) e1 e2 h =
      (lookup-expected node s.resolvers codes ts e1 e2 (h s.resolvers).0, (h s.resolvers).1)

  by_name :
      (iter : Iterators) (env : Env) (block : Option State) (best_hash : DomainHash)
      (best_number : ℕ) (name : Bytes) (types : Option (List RecordType))
      → let client = node_at iter best_hash best_number (Option.map (λ s. (env, s)) block) in
        let node = node_or_zero (parse_name_to_node env name env.base_node) in
        converted to_code (λ api ts. api.lookup_by_name name ts) types client
        ≡ converted to_code (λ api ts. api.lookup node ts) types client
  unfolding node_at Apis.lookup_by_name
  by_name iter env block best_hash best_number name none = refl
  by_name iter env none best_hash best_number name (some ts) = refl
  by_name iter env (some s) best_hash best_number name (some ts) = refl

-- Where the DNS library converts a 16-bit code to a type and back to the same code, and a type that it
-- does not know to its code, `pns_lookup` panics exactly if some code has the low 16 bits of a type
-- that the chain does not know; otherwise it reports an error exactly if the block's state is not to be
-- had, and else answers the anchors under their codes and then, in the order of the codes and under
-- their low 16 bits, the contents of the types that are not blocked, each where it is not empty.
-- `pns_lookupByName` answers alike, of the node of the name, or of node zero where it is none.
pub lookup-Explains :
    (of_code : ℕ → DnsType) (to_code : DnsType → ℕ)
    → ((c : ℕ) → c < 2 ^ 16 → to_code (of_code c) ≡ c)
    → ((c : ℕ) → to_code (DnsType.unknown c) ≡ c)
    → (iter : Iterators) (env : Env) (block : Option State) (best_hash node : DomainHash)
      (best_number : ℕ) (name : Bytes) (codes : List ℕ)
    → let client = node_at iter best_hash best_number (Option.map (λ s. (env, s)) block) in
      let named = node_or_zero (parse_name_to_node env name env.base_node) in
      Explains of_code to_code codes node block (lookup of_code to_code node codes client)
      × (lookup_by_name of_code to_code name codes client
          ≡ lookup of_code to_code named codes client)
unfolding lookup lookup_by_name
lookup-Explains of_code to_code codes_back unknown_back iter env block best_hash node best_number
      name codes =
    (
      converted-Explains of_code to_code iter env block best_hash node best_number codes
          (pns_types of_code codes) (unknown_back 65280) (unknown_back 65290)
          (λ r. pns_types-Converted of_code to_code node r codes_back codes),
      by_name of_code to_code iter env block best_hash best_number name (pns_types of_code codes),
    )
