-- ===== src/Resolvers.antt =====
-- DNS records and texts of the names, pallets/pns-resolvers/src/resolvers.rs. Below a node stand
-- contents under the storage keys of their record types; a missing entry reads as empty.
pub mod Anchors
pub mod Clear
use pns_pallets.Base.{
  ℕ, Bool, not, Option, none, some, List, [], ◌∷◌, ◌++◌, ◌||◌, ltb, ◌==◌, if◌then◌else◌, length,
}
use pns_pallets.Base.Storage.{update, clear_prefix}
use pns_pallets.Types.{AccountId, DomainHash, Bytes}
use pns_pallets.Types.Ddns.{RecordType, storage_key, same_type}
use pns_pallets.Types.Dispatch.{
  RawOrigin, DispatchError, resolver, ResolverError, Event, TextKind, email, url, avatar,
  description, notice, keywords, twitter, github, ipfs,
}
use pns_pallets.Types.Storage.{State, Resolvers}
use pns_pallets.Runtime.{
  M, ⊤, Env, ◌>>=◌, ◌>>◌, ensure, gets, ok_or, fail, on_resolvers, deposit_event, signed_by,
}
use pns_pallets.Label.{parse_name_to_node}

-- `Records::get(node, key)`, a `ValueQuery`.
unfoldable pub entry : ℕ → List (ℕ × Bytes) → Bytes
entry k [] = []
entry k ((j, v) ∷ es) = if k == j then v else entry k es

unfoldable pub del_entry : ℕ → List (ℕ × Bytes) → List (ℕ × Bytes)
del_entry k [] = []
del_entry k ((j, v) ∷ es) = if k == j then del_entry k es else (j, v) ∷ del_entry k es

unfoldable pub set_entry : ℕ → Bytes → List (ℕ × Bytes) → List (ℕ × Bytes)
set_entry k v es = (k, v) ∷ del_entry k es

-- The entry under one key, and nothing else.
unfoldable pub keep_entry : ℕ → List (ℕ × Bytes) → List (ℕ × Bytes)
keep_entry k [] = []
keep_entry k ((j, v) ∷ es) = if k == j then (j, v) ∷ keep_entry k es else keep_entry k es

abbrev pub get_record : DomainHash → RecordType → Resolvers → Bytes
get_record node t r = entry (storage_key t) (r.records node)

abbrev pub put_record : DomainHash → RecordType → Bytes → Resolvers → Resolvers
put_record node t content r = record r {
  records = update node (set_entry (storage_key t) content (r.records node)) r.records;
}

pub text_key : TextKind → ℕ
text_key email = 0
text_key url = 1
text_key avatar = 2
text_key description = 3
text_key notice = 4
text_key keywords = 5
text_key twitter = 6
text_key github = 7
text_key ipfs = 8

abbrev blocked : List RecordType
blocked =
    RecordType.ss58 ∷ RecordType.origin ∷ RecordType.any ∷ RecordType.axfr ∷ RecordType.ixfr
    ∷ RecordType.opt ∷ RecordType.tsig ∷ RecordType.sig ∷ RecordType.rrsig ∷ RecordType.nsec
    ∷ RecordType.nsec3 ∷ RecordType.nsec3param ∷ RecordType.dnskey ∷ RecordType.cdnskey
    ∷ RecordType.cds ∷ RecordType.ds ∷ []

unfoldable pub contains_type : RecordType → List RecordType → Bool
unfolding same_type
contains_type t [] = Bool.false
contains_type t (u ∷ us) = same_type t u || contains_type t us

-- `BLOCKED.contains(&rt)`
unfoldable pub is_blocked : RecordType → Bool
unfolding contains_type
is_blocked t = contains_type t blocked

-- What one requested type adds to the answer: nothing if its content is empty.
unfoldable pub answer : DomainHash → RecordType → Resolvers → List (RecordType × Bytes)
answer node t r = elim (get_record node t r) [ [] ↦ [] | b ∷ bs ↦ (t, b ∷ bs) ∷ [] ]

unfoldable pub answers : DomainHash → List RecordType → Resolvers → List (RecordType × Bytes)
unfolding is_blocked answer
answers node [] r = []
answers node (t ∷ ts) r =
    if is_blocked t then answers node ts r else answer node t r ++ answers node ts r

unfoldable pub lookup : DomainHash → List RecordType → Resolvers → List (RecordType × Bytes)
unfolding answer answers
lookup node record_types r =
    answer node RecordType.ss58 r
    ++ (answer node RecordType.origin r ++ answers node record_types r)

module _ (env : Env) where
  -- `RegistryChecker` is an interface of this pallet: whether an account may use a node now.
  module _ (check_node_useable : DomainHash → AccountId → State → Bool) where
    abbrev name_to_node : Bytes → M DomainHash
    name_to_node name =
        ok_or (parse_name_to_node env name env.base_node) (resolver ResolverError.invalid_name)

    unfoldable pub set_record : RawOrigin → Bytes → RecordType → Bytes → M ⊤
    unfolding same_type
    set_record origin name record_type content = do
      who ← signed_by env origin
      ensure
          (not (same_type record_type RecordType.ss58 || same_type record_type RecordType.origin))
          (resolver ResolverError.ss58_record_protected)
      node ← name_to_node name
      useable ← gets (check_node_useable node who)
      ensure useable (resolver ResolverError.invalid_permission)
      on_resolvers (put_record node record_type content)
      deposit_event (Event.records_changed node record_type content)

    unfoldable pub set_text : RawOrigin → Bytes → TextKind → Bytes → M ⊤
    set_text origin name kind content = do
      who ← signed_by env origin
      node ← name_to_node name
      useable ← gets (check_node_useable node who)
      ensure useable (resolver ResolverError.invalid_permission)
      on_resolvers λ r. record r {
        texts = update node (set_entry (text_key kind) content (r.texts node)) r.texts;
      }
      deposit_event (Event.texts_changed node kind content)

  -- `Content::try_from(bytes)`
  abbrev pub bounded_content : Bytes → M ⊤
  bounded_content bytes =
      ensure (not (ltb env.max_content_len (length bytes)))
        (resolver ResolverError.invalid_permission)

  unfoldable pub set_ss58_record : DomainHash → AccountId → M ⊤
  set_ss58_record node owner = do
    let bytes = env.encode_account owner
    bounded_content bytes
    on_resolvers (put_record node RecordType.ss58 bytes)

  unfoldable pub set_origin_record : DomainHash → Bytes → M ⊤
  set_origin_record node block_hash = do
    bounded_content block_hash
    on_resolvers (put_record node RecordType.origin block_hash)

unfoldable pub clear_records_except_ss58 : DomainHash → Resolvers → Resolvers
clear_records_except_ss58 node r = record r {
  records = update node (keep_entry (storage_key RecordType.ss58) (r.records node)) r.records;
}

unfoldable pub clear_all_records : DomainHash → Resolvers → Resolvers
clear_all_records node r = record r {
  records = clear_prefix node r.records;
  texts = clear_prefix node r.texts;
}
