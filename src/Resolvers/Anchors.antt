-- ===== src/Resolvers/Anchors.antt =====
-- The anchors, the SS58 and ORIGIN records, and the record types that no answer holds, of
-- pallets/pns-resolvers/src/resolvers.rs.
use pns_pallets.Base.{
  ℕ, ◌≡◌, ◌≢◌, refl, Bool, true, false, List, [], ◌∷◌, ◌++◌, ◌==◌, arith, some, if◌then◌else◌, ◌⊎◌,
  inl, inr,
}
use pns_pallets.Types.{AccountId, DomainHash, Bytes}
use pns_pallets.Types.Ddns.{RecordType, storage_key, same_type}
use pns_pallets.Types.Dispatch.{RawOrigin}
use pns_pallets.Types.Storage.{State, Resolvers}
use pns_pallets.Runtime.{Env, ok, ⊤}
use pns_pallets.Label.{parse_name_to_node}
use pns_pallets.Resolvers.{
  entry, del_entry, set_entry, get_record, is_blocked, answer, answers, lookup, set_record,
}

-- The answer's entries, each of an admitted type and with the content that stands under the node.
abbrev pub Answers :
    (RecordType → Type 0) → DomainHash → Resolvers → List (RecordType × Bytes) → Type 0
Answers P node r [] = ⊤
Answers P node r ((t, c) ∷ es) = P t × (c ≢ []) × (get_record node t r ≡ c) × Answers P node r es

-- Each type that the answer may hold is admitted, unless it is blocked.
abbrev pub AllAdmitted : (RecordType → Type 0) → List RecordType → Type 0
AllAdmitted P [] = ⊤
AllAdmitted P (t ∷ ts) = (is_blocked t ≡ false → P t) × AllAdmitted P ts

abbrev pub IsAnswerable : RecordType → Type 0
IsAnswerable t = (t ≡ RecordType.ss58) ⊎ ((t ≡ RecordType.origin) ⊎ (is_blocked t ≡ false))

module _ (P : RecordType → Type 0) (node : DomainHash) (r : Resolvers) where
  Answers-++ :
      (xs ys : List (RecordType × Bytes))
      → Answers P node r xs
      → Answers P node r ys
      → Answers P node r (xs ++ ys)
  Answers-++ [] ys a b = b
  Answers-++ ((t, c) ∷ xs) ys (p, q, e, a) b = (p, q, e, Answers-++ xs ys a b)

  answer-Answers : (t : RecordType) → P t → Answers P node r (answer node t r)
  unfolding answer
  answer-Answers t h =
      elim (get_record node t r)
          as (λ c.
            get_record node t r ≡ c
            → Answers P node r (elim c as (λ _. List (RecordType × Bytes)) [
              | [] ↦ []
              | b ∷ bs ↦ (t, b ∷ bs) ∷ []
            ])) [ [] ↦ λ _. tt | b ∷ bs ↦ λ e. (h, ground arith, e, tt) ]
        refl

  unless-Answers :
      (b : Bool) (xs ys : List (RecordType × Bytes))
      → (b ≡ false → Answers P node r xs)
      → Answers P node r ys
      → Answers P node r (if b then ys else xs ++ ys)
  unless-Answers true xs ys h a = a
  unless-Answers false xs ys h a = Answers-++ xs ys (h refl) a

  answers-Answers : (ts : List RecordType) → AllAdmitted P ts → Answers P node r (answers node ts r)
  unfolding answers
  answers-Answers [] h = tt
  answers-Answers (t ∷ ts) (h, hs) =
      unless-Answers (is_blocked t) (answer node t r) (answers node ts r)
        (λ kept. answer-Answers t (h kept)) (answers-Answers ts hs)

  -- Whatever is admitted with the anchors and the requested types that are not blocked.
  pub lookup-admitted :
      (ts : List RecordType)
      → P RecordType.ss58
      → P RecordType.origin
      → AllAdmitted P ts
      → Answers P node r (lookup node ts r)
  unfolding lookup
  lookup-admitted ts ss58 origin h =
      Answers-++ (answer node RecordType.ss58 r)
        (answer node RecordType.origin r ++ answers node ts r) (answer-Answers RecordType.ss58 ss58)
        (Answers-++ (answer node RecordType.origin r) (answers node ts r)
          (answer-Answers RecordType.origin origin) (answers-Answers ts h))

unblocked_answerable : (ts : List RecordType) → AllAdmitted IsAnswerable ts
unblocked_answerable [] = tt
unblocked_answerable (t ∷ ts) = (λ h. inr (inr h), unblocked_answerable ts)

-- Every record of an answer has a content, the one that stands under the node, and its type is that
-- of an anchor or one that is not blocked, whatever types were asked for.
pub lookup-Answers :
    (node : DomainHash) (ts : List RecordType) (r : Resolvers)
    → Answers IsAnswerable node r (lookup node ts r)
lookup-Answers node ts r =
    lookup-admitted IsAnswerable node r ts (inl refl) (inr (inl refl)) (unblocked_answerable ts)

entry-del_entry :
    (j k : ℕ) (es : List (ℕ × Bytes)) → (j == k) ≡ false → entry j (del_entry k es) ≡ entry j es
unfolding entry del_entry
entry-del_entry j k [] h = refl
entry-del_entry j k ((i, v) ∷ es) h = ground (arith, entry-del_entry j k es)

pub entry-set_entry :
    (j k : ℕ) (v : Bytes) (es : List (ℕ × Bytes))
    → entry j (set_entry k v es) ≡ (elim (j == k) [ true ↦ v | false ↦ entry j es ])
unfolding entry set_entry
entry-set_entry j k v es = ground (arith, entry-del_entry j k es)

-- A record that an account sets at a name was useable by it and is of neither anchor's type; the
-- record then reads as the content, and the anchors and every record of another type of that name,
-- every record of another name and all texts read as before.
pub set_record_lem :
    (env : Env) (useable : DomainHash → AccountId → State → Bool) (origin : RawOrigin)
    (name content : Bytes) (record_type other third : RecordType) (who : AccountId)
    (target node : DomainHash) (s s' : State)
    → env.ensure_signed origin ≡ ok who
    → parse_name_to_node env name env.base_node ≡ some target
    → same_type other record_type ≡ false
    → node ≢ target
    → set_record env useable origin name record_type content s ≡ ok (tt, s')
    → (useable target who s ≡ true)
      × (same_type record_type RecordType.ss58 ≡ false)
      × (same_type record_type RecordType.origin ≡ false)
      × (get_record target record_type s'.resolvers ≡ content)
      × (get_record target RecordType.ss58 s'.resolvers
          ≡ get_record target RecordType.ss58 s.resolvers)
      × (get_record target RecordType.origin s'.resolvers
          ≡ get_record target RecordType.origin s.resolvers)
      × (get_record target other s'.resolvers ≡ get_record target other s.resolvers)
      × (get_record node third s'.resolvers ≡ get_record node third s.resolvers)
      × (s'.resolvers.texts ≡ s.resolvers.texts)
unfolding set_record same_type
set_record_lem env useable origin name content record_type other third who target node s s' signed
      parsed distinct apart e =
    let es = s.resolvers.records target in
    let k = storage_key record_type in
    (
      ground arith,
      ground arith,
      ground arith,
      ground (arith, entry-set_entry k k content es),
      ground (arith, entry-set_entry 0 k content es),
      ground (arith, entry-set_entry 10 k content es),
      ground (arith, entry-set_entry (storage_key other) k content es),
      ground arith,
      ground arith,
    )
