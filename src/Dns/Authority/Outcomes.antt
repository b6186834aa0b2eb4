-- ===== src/Dns/Authority/Outcomes.antt =====
-- When the authority gives which answer.
use pns_pallets.Base.{
  ℕ, ◌≡◌, ◌≢◌, ◌↔◌, ◌⊎◌, ◌||◌, Bool, true, false, Option, none, some, List, [], ◌∷◌, arith, sym,
  subst, if◌then◌else◌, inl, inr, refl, Bool-cases, Option-cases,
}
use pns_pallets.Types.{Bytes}
use pns_pallets.Types.Ddns.{RecordType}
use pns_pallets.Dns.Types.{DnsType, is_unsupported, from_dns-Converts}
use pns_pallets.Dns.Records.{Parsers, DnsRecord, same_bytes, collect, is_any}
use pns_pallets.Dns.Authority.{
  Answer, records, name_exists, nx_domain, serv_fail, panics, lookup, below, ask, answer, filter_of,
  apex, records_or_exists, extract_label, zone_origin, serial_of, is_soa, is_ns, synthesize_soa,
  synthesize_ns,
}

module _ (parse : Parsers) (api : Bytes → List RecordType → Option (List (RecordType × Bytes)))
    (block_number : ℕ) (name : Bytes) (q : DnsType) where
  -- The name is the apex of the zone, or not.
  abbrev pub IsApex : Bool → Type 0
  IsApex b = same_bytes name zone_origin ≡ b

  -- The runtime has answered a query for the label of the name, which is not for the SOA, with this.
  abbrev pub Asks : Option (List (RecordType × Bytes)) → Type 0
  Asks answered =
      IsApex false
      × (is_soa q ≡ false)
      × ((label : Bytes) × (types : List RecordType) × (extract_label name ≡ some label)
          × (filter_of q ≡ some types)
          × (api label types ≡ answered))

  -- The runtime has answered with some records, which convert to these.
  abbrev pub Finds : List DnsRecord → Type 0
  Finds rs =
      (raw : List (RecordType × Bytes)) × (raw ≢ [])
      × (collect parse name q 0 raw ≡ rs)
      × Asks (some raw)

  abbrev pub apex_records : List DnsRecord
  apex_records =
      if is_soa q || is_any q
      then synthesize_soa (serial_of block_number) ∷ []
      else synthesize_ns ∷ []

  -- What leads to an answer.
  abbrev pub Explained : Answer → Type 0
  Explained (records rs) =
      (IsApex true × ((is_soa q || is_any q || is_ns q) ≡ true) × (rs ≡ apex_records))
      ⊎ ((rs ≢ []) × Finds rs)
  Explained name_exists =
      (IsApex true × ((is_soa q || is_any q || is_ns q) ≡ false))
      ⊎ ((IsApex false × (is_soa q ≡ true) × (extract_label name ≢ none)) ⊎ Finds [])
  Explained nx_domain = (IsApex false × (extract_label name ≡ none)) ⊎ Asks (some [])
  Explained serv_fail = Asks none
  Explained panics =
      IsApex false × (is_soa q ≡ false) × (extract_label name ≢ none) × (is_unsupported q ≡ true)

  filter_of_missing : filter_of q ≡ none → is_unsupported q ≡ true
  unfolding filter_of
  filter_of_missing e = ground (arith, from_dns-Converts q)

  apex-Explained : IsApex true → Explained (apex (serial_of block_number) q)
  unfolding apex
  apex-Explained at = elim (Bool-cases (is_soa q || is_any q)) [
    | inl soa ↦
        subst
          (λ b. Explained (
            if b
            then records (synthesize_soa (serial_of block_number) ∷ [])
            else if is_ns q
            then records (synthesize_ns ∷ [])
            else name_exists))
          (sym soa) (inl (at, ground arith, ground arith))
    | inr other ↦
        subst
          (λ b. Explained (
            if b
            then records (synthesize_soa (serial_of block_number) ∷ [])
            else if is_ns q
            then records (synthesize_ns ∷ [])
            else name_exists))
          (sym other)
          (elim (Bool-cases (is_ns q)) [
            | inl ns ↦
                subst (λ b. Explained (if b then records (synthesize_ns ∷ []) else name_exists))
                  (sym ns) (inl (at, ground arith, ground arith))
            | inr none_of ↦
                subst (λ b. Explained (if b then records (synthesize_ns ∷ []) else name_exists))
                  (sym none_of) (inl (at, ground arith))
          ])
  ]

  records_or_exists-Explained : (rs : List DnsRecord) → Finds rs → Explained (records_or_exists rs)
  records_or_exists-Explained [] found = inr (inr found)
  records_or_exists-Explained (r ∷ rs) found = inr (λ e. ground (arith, e), found)

  answer-Explained :
      (label : Bytes) (types : List RecordType)
      → IsApex false
      → is_soa q ≡ false
      → extract_label name ≡ some label
      → filter_of q ≡ some types
      → Explained (answer parse name q (api label types))
  unfolding answer
  answer-Explained label types under other named asked = elim (Option-cases (api label types)) [
    | inl failed ↦
        subst (λ o. Explained (answer parse name q o)) (sym failed)
          (under, other, (label, types, named, asked, failed))
    | inr ([], found) ↦
        subst (λ o. Explained (answer parse name q o)) (sym found)
          (inr (under, other, (label, types, named, asked, found)))
    | inr (r ∷ raw, found) ↦
        subst (λ o. Explained (answer parse name q o)) (sym found)
          (records_or_exists-Explained (collect parse name q 0 (r ∷ raw)) (
            r ∷ raw,
            λ e. ground (arith, e),
            refl,
            (under, other, (label, types, named, asked, found)),
          ))
  ]

  ask-Explained :
      (label : Bytes)
      → IsApex false
      → is_soa q ≡ false
      → extract_label name ≡ some label
      → Explained (ask parse api name q label (filter_of q))
  ask-Explained label under other named = elim (Option-cases (filter_of q)) [
    | inl missing ↦
        subst (λ o. Explained (ask parse api name q label o)) (sym missing)
          (under, other, λ e. ground (arith, named, e), filter_of_missing missing)
    | inr (types, asked) ↦
        subst (λ o. Explained (ask parse api name q label o)) (sym asked)
          (answer-Explained label types under other named asked)
  ]

  below-Explained : IsApex false → Explained (below parse api name q (extract_label name))
  unfolding below
  below-Explained under = elim (Option-cases (extract_label name)) [
    | inl outside ↦
        subst (λ o. Explained (below parse api name q o)) (sym outside) (inl (under, outside))
    | inr (label, named) ↦
        subst (λ o. Explained (below parse api name q o)) (sym named)
          (elim (Bool-cases (is_soa q)) [
            | inl soa ↦
                subst
                  (λ b.
                    Explained (if b then name_exists else ask parse api name q label (filter_of q)))
                  (sym soa) (inr (inl (under, soa, λ e. ground (arith, named, e))))
            | inr other ↦
                subst
                  (λ b.
                    Explained (if b then name_exists else ask parse api name q label (filter_of q)))
                  (sym other) (ask-Explained label under other named)
          ])
  ]

  has_cause : Explained (lookup parse api block_number name q)
  unfolding lookup
  has_cause = elim (Bool-cases (same_bytes name zone_origin)) [
    | inl at ↦
        subst
          (λ b. Explained (
            if b
            then apex (serial_of block_number) q
            else below parse api name q (extract_label name)))
          (sym at) (apex-Explained at)
    | inr under ↦
        subst
          (λ b. Explained (
            if b
            then apex (serial_of block_number) q
            else below parse api name q (extract_label name)))
          (sym under) (below-Explained under)
  ]

  unsupported_filter : is_unsupported q ≡ true → filter_of q ≡ none
  unfolding filter_of
  unsupported_filter e = ground (arith, from_dns-Converts q)

  cause_decides : (a : Answer) → Explained a → lookup parse api block_number name q ≡ a
  unfolding lookup below answer apex
  cause_decides (records rs) (inl (at, known, same)) = ground arith
  cause_decides (records []) (inr (some_, found)) = absurd (some_ refl)
  cause_decides (records (r ∷ rs)) (inr (some_, found)) = ground arith
  cause_decides name_exists (inl (at, other)) = ground arith
  cause_decides name_exists (inr (inl (under, soa, named))) = ground arith
  cause_decides name_exists (inr (inr found)) = ground arith
  cause_decides nx_domain (inl (under, outside)) = ground arith
  cause_decides nx_domain (inr asked) = ground arith
  cause_decides serv_fail asked = ground arith
  cause_decides panics (under, other, named, unknown) = ground (arith, unsupported_filter unknown)

  -- Which answer it is, exactly. At the apex it is the SOA, for SOA and for any type, or the NS record, or that the name
  -- exists. Elsewhere: a name outside the zone does not exist; below the zone a query for the SOA is
  -- answered as of a name that exists, and a type that the conversion does not know panics; otherwise
  -- the runtime is asked for the label. If its call fails, so does the server; if it has nothing, the
  -- name does not exist; if it has something, the answer is what that converts to, or, where it converts
  -- to nothing, that the name exists.
  pub lookup-Explained : (a : Answer) → (Explained a ↔ (lookup parse api block_number name q ≡ a))
  lookup-Explained a = (cause_decides a, λ same. subst Explained same has_cause)
