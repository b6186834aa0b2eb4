-- ===== src/Chain/Fresh.antt =====
-- The nodes at which a call of pallets/pns-registrar/src/registrar.rs enters a name, and when such a
-- node already is another's: two names whose hashes collide.
use pns_pallets.Base.{Bool, true, false, Option, none, some, ◌||◌, ◌==◌, ltb, is_some, u32_mod, ◌≡◌}
use pns_pallets.Types.{DomainHash, Bytes, RegistrarInfo}
use pns_pallets.Types.Dispatch.{RawOrigin}
use pns_pallets.Types.Storage.{State}
use pns_pallets.Runtime.{Env, ok, err}
use pns_pallets.Label.{new_with_len, encode_with_node}
use pns_pallets.Registrar.{primary_name}
use pns_pallets.Registry.Clear.{record_of}
use pns_pallets.Chain.Calls.{RuntimeCall, register, offer_subdomain}

-- The capacity of a registration is a `u32`.
abbrev pub fits : Option RegistrarInfo → Bool
fits none = true
fits (some info) = ltb info.capacity u32_mod

abbrev pub Fits : State → Type 0
Fits s = (n : DomainHash) → fits (s.registrar.registrar_infos n) ≡ true

-- The node of a label below a node, if it is a label.
abbrev pub node_of : Env → Bytes → DomainHash → Option DomainHash
node_of env name parent = elim (new_with_len env name) [
  | none ↦ none
  | some (label, _) ↦ some (encode_with_node env label parent)
]

-- A root name at a node that is the base node or a subname's.
abbrev pub taken_by_subname : Env → Option DomainHash → State → Bool
taken_by_subname env none s = false
taken_by_subname env (some node) s = is_some (record_of node s) || node == env.base_node

-- A subname at a node that is a root name's.
abbrev pub taken_by_name : Option DomainHash → State → Bool
taken_by_name none s = false
taken_by_name (some node) s = is_some (s.registry.runtime_origin node)

abbrev pub subname_collides : Env → RawOrigin → Bytes → State → Bool
subname_collides env origin label s = elim (env.ensure_signed origin) [
  | err e ↦ false
  | ok caller ↦ elim (primary_name caller s) [
    | none ↦ false
    | some parent ↦ taken_by_name (node_of env label parent) s
  ]
]

unfoldable pub collides : Env → RawOrigin → RuntimeCall → State → Bool
collides env origin (register name owner reject) s =
    taken_by_subname env (node_of env name env.base_node) s
collides env origin (offer_subdomain label target) s = subname_collides env origin label s
collides env origin _ s = false
