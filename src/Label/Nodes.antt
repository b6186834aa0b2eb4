-- ===== src/Label/Nodes.antt =====
-- The node of a name: `parse_name_to_node` of pns-types, which the registry and the resolvers use,
-- against `Label` of traits.rs, which the registrar uses.
use pns_pallets.Base.{
  ℕ, zero, suc, ◌≡◌, refl, Option, none, some, [], ◌∷◌, ◌++◌, map, arith, length, take, drop,
  position, Option-cases, inl, inr, ap,
}
use pns_pallets.Types.{DomainHash, Bytes}
use pns_pallets.Runtime.{Env}
use pns_pallets.Label.{
  check_label, validate_label, new_with_len, encode_with_node, hash_label, child_node,
  parse_name_to_node, ◌>>=◌,
}
use pns_pallets.Label.Utf8.{lower, to_ascii_lowercase}
use pns_pallets.Label.Valid.{from_utf8-lower, from_utf8-same}

position-append :
    (k : ℕ) (xs ys : Bytes) → position k xs ≡ none → position k (xs ++ k ∷ ys) ≡ some (length xs)
position-append k [] ys h = ground arith
position-append k (x ∷ xs) ys h = ground (arith, position-append k xs ys)

take-append : (xs ys : Bytes) → take (length xs) (xs ++ ys) ≡ xs
take-append [] ys = refl
take-append (x ∷ xs) ys = ap (λ (l : Bytes). x ∷ l) (take-append xs ys)

drop-append : (k : ℕ) (xs ys : Bytes) → drop (suc (length xs)) (xs ++ k ∷ ys) ≡ ys
drop-append k [] ys = refl
drop-append k (x ∷ xs) ys = drop-append k xs ys

position-lower : (bs : Bytes) → position b'.' (map lower bs) ≡ position b'.' bs
position-lower [] = refl
position-lower (b ∷ bs) = ground (arith, position-lower bs)

take-lower : (n : ℕ) (bs : Bytes) → take n (map lower bs) ≡ map lower (take n bs)
take-lower zero bs = refl
take-lower (suc n) [] = refl
take-lower (suc n) (b ∷ bs) = rw (take-lower n bs)

drop-lower : (n : ℕ) (bs : Bytes) → drop n (map lower bs) ≡ map lower (drop n bs)
drop-lower zero bs = refl
drop-lower (suc n) [] = refl
drop-lower (suc n) (b ∷ bs) = drop-lower n bs

lower-lower : (bs : Bytes) → map lower (map lower bs) ≡ map lower bs
lower-lower [] = refl
lower-lower (b ∷ bs) = ground (arith, lower-lower bs)

module _ (env : Env) where
  -- The node that a call of the registrar computes from a parent's node and a label.
  abbrev pub label_child : DomainHash → Bytes → Option DomainHash
  label_child parent raw = do
    (label, _) ← new_with_len env raw
    some (encode_with_node env label parent)

  hash_label-child :
      (parent : DomainHash) (raw : Bytes)
      → (hash_label env raw >>= λ h. some (child_node env parent h)) ≡ label_child parent raw
  unfolding hash_label child_node new_with_len encode_with_node check_label validate_label
  hash_label-child parent raw = ground arith

  below :
      (base : DomainHash) (sub : Bytes) (domain : Option DomainHash)
      → (domain >>= λ d.
          hash_label env sub >>= λ h. some (child_node env (child_node env base d) h))
        ≡ (domain >>= (λ d. some (child_node env base d)) >>= λ parent. label_child parent sub)
  below base sub none = refl
  below base sub (some d) = hash_label-child (child_node env base d) sub

  hash_label-lower : (raw : Bytes) → hash_label env (map lower raw) ≡ hash_label env raw
  unfolding hash_label validate_label
  hash_label-lower raw = ground (
    arith,
    from_utf8-lower raw,
    from_utf8-same raw,
    from_utf8-same (map lower raw),
    lower-lower raw,
  )

  -- `parse_name_to_node` takes a name with no dot to the node that the registrar's calls compute
  -- for it, and `sub.domain` to the node that they compute for `sub` below that of `domain`.
  pub parse_name_to_node-label :
      (base : DomainHash) (sub domain : Bytes)
      → position b'.' sub ≡ none
      → (parse_name_to_node env sub base ≡ label_child base sub)
        × (parse_name_to_node env (sub ++ b'.' ∷ domain) base
            ≡ (label_child base domain >>= λ parent. label_child parent sub))
  unfolding parse_name_to_node
  parse_name_to_node-label base sub domain h = (
    rw (h, parse_name_to_node) (hash_label-child base sub),
    rw (position-append b'.' sub domain h, parse_name_to_node)
        (rw (drop-append b'.' sub domain, take-append sub (b'.' ∷ domain))
          (rw (← hash_label-child base domain) (below base sub (hash_label env domain)))),
  )

  -- A name and the same name in lower case have the same node, or both have none.
  pub parse_name_to_node-lower :
      (base : DomainHash) (name : Bytes)
      → parse_name_to_node env (to_ascii_lowercase name) base ≡ parse_name_to_node env name base
  unfolding parse_name_to_node
  parse_name_to_node-lower base name = elim (Option-cases (position b'.' name)) [
    | inl e ↦ rw (position-lower name, e, parse_name_to_node) (rw (hash_label-lower name))
    | inr (i, e) ↦
        rw (position-lower name, e, parse_name_to_node)
          (rw (
            drop-lower (suc i) name,
            take-lower i name,
            hash_label-lower (take i name),
            hash_label-lower (drop (suc i) name),
          ))
  ]
