-- ===== src/Label.antt =====
-- Labels and name hashes: `Label` and `check_label` of pallets/pns-registrar/src/traits.rs, and
-- `validate_label` and `parse_name_to_node` of pallets/pns-types/src/lib.rs.
pub mod Utf8
pub mod Valid
pub mod Nodes
pub mod Bases
use pns_pallets.Base.{
  ℕ, zero, suc, ◌+◌, ◌/◌, ◌%◌, Bool, not, Option, none, some, List, [], ◌∷◌, ◌++◌, ◌&&◌, ◌||◌, leb,
  ◌==◌, if◌then◌else◌, length, take, drop, all, position, ltb,
}
use pns_pallets.Types.{DomainHash, Bytes}
use pns_pallets.Runtime.{Env, ⊤}
use Utf8.{from_utf8, chars, to_ascii_lowercase, is_ascii_alphanumeric}

pub record Label : Type 0 where
  pub node : DomainHash

infixl 5 ◌>>=◌
abbrev pub ◌>>=◌ : {A B : Type 0} → Option A → (A → Option B) → Option B
none >>= f = none
some a >>= f = f a

-- `if c { return None; }`
abbrev pub none_if : Bool → Option ⊤
none_if c = if c then none else some tt

abbrev pub label_min_len : ℕ
label_min_len = 1

abbrev pub label_max_len : ℕ
label_max_len = 63

abbrev pub min_registrable_len : ℕ
min_registrable_len = 1

infixl 5 ◌>>◌
abbrev pub ◌>>◌ : {B : Type 0} → Option ⊤ → Option B → Option B
m >> k = m >>= λ _. k

unfoldable pub check_label : Bytes → Option ⊤
check_label raw = do
  utf8 ← from_utf8 raw
  let label = to_ascii_lowercase utf8
  none_if (not (leb label_min_len (length label) && leb (length label) label_max_len))
  none_if (not (all is_ascii_alphanumeric (chars label)))
  some tt

-- The copy in pns-types.
unfoldable pub validate_label : Bytes → Option ⊤
validate_label raw = do
  utf8 ← from_utf8 raw
  let label = to_ascii_lowercase utf8
  none_if (not (leb 1 (length label) && leb (length label) 63))
  none_if (not (all is_ascii_alphanumeric (chars label)))
  some tt

-- `(a, b).encode()`: the 32 bytes of each hash, big end first.
unfoldable pub be_bytes : ℕ → ℕ → Bytes
be_bytes zero n = []
be_bytes (suc k) n = be_bytes k (n / 256) ++ n % 256 ∷ []

unfoldable pub encode_pair : DomainHash → DomainHash → Bytes
encode_pair a b = be_bytes 32 a ++ be_bytes 32 b

module _ (env : Env) where
  open env use {keccak_256}

  -- `Label::new_with_len`; `Label::new` is its first part.
  unfoldable pub new_with_len : Bytes → Option (Label × ℕ)
  new_with_len raw = do
    check_label raw
    utf8 ← from_utf8 raw
    let normalized = to_ascii_lowercase utf8
    some (record { node = keccak_256 normalized }, length normalized)

  unfoldable pub new : Bytes → Option Label
  new raw = do
    check_label raw
    utf8 ← from_utf8 raw
    let normalized = to_ascii_lowercase utf8
    some (record { node = keccak_256 normalized })

  unfoldable pub encode_with_node : Label → DomainHash → DomainHash
  encode_with_node label node = keccak_256 (encode_pair node label.node)

  -- `new_basenode` is a label below the hash of no name, that of 32 zero bytes.
  unfoldable pub new_basenode : Bytes → Option Label
  new_basenode raw = do
    check_label raw
    utf8 ← from_utf8 raw
    let normalized = to_ascii_lowercase utf8
    some (record { node = keccak_256 (encode_pair 0 (keccak_256 normalized)) })

  unfoldable pub basenode : DomainHash → DomainHash
  basenode baselabel = keccak_256 (encode_pair 0 baselabel)

  abbrev pub to_basenode : Label → DomainHash
  to_basenode label = basenode label.node

  unfoldable pub encode_with_baselabel : Label → DomainHash → DomainHash
  unfolding basenode
  encode_with_baselabel label baselabel = keccak_256 (encode_pair (basenode baselabel) label.node)

  -- The names' own label stands below that of `label`, as a node or as a base label.
  unfoldable pub encode_with_name : Label → Bytes → Option Label
  encode_with_name label raw = do
    node ← new raw
    some (record { node = encode_with_node label node.node })

  unfoldable pub encode_with_basename : Label → Bytes → Option Label
  encode_with_basename label raw = do
    node ← new raw
    some (record { node = encode_with_baselabel label node.node })

  -- `hash_label` and `encode_with_node` of `parse_name_to_node`.
  unfoldable pub hash_label : Bytes → Option DomainHash
  hash_label label = do
    validate_label label
    utf8 ← from_utf8 label
    let normalized = to_ascii_lowercase utf8
    some (keccak_256 normalized)

  unfoldable pub child_node : DomainHash → DomainHash → DomainHash
  child_node parent label_hash = keccak_256 (encode_pair parent label_hash)

  unfoldable pub parse_name_to_node : Bytes → DomainHash → Option DomainHash
  parse_name_to_node name base_node = elim (position b'.' name) [
    | none ↦ do label ← hash_label name; some (child_node base_node label)
    | some dot ↦ do
      domain ← hash_label (drop (suc dot) name)
      let domain_hash = child_node base_node domain
      sub ← hash_label (take dot name)
      some (child_node domain_hash sub)
  ]

-- `Available for usize`; no length is left to auctions.
unfoldable pub is_anctionable : ℕ → Bool
is_anctionable len = leb 1 len && ltb len min_registrable_len

unfoldable pub is_registrable : ℕ → Bool
is_registrable len = leb min_registrable_len len
