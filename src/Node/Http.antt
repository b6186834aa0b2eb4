-- ===== src/Node/Http.antt =====
-- The HTTP server, pallets/pns-ddns/src/lib.rs: its three routes, each a JSON value.
use pns_pallets.Base.{Option, none, some, List, []}
use pns_pallets.Types.{DomainHash, Bytes, RegistrarInfo}
use pns_pallets.Runtime.{Env}
use pns_pallets.Label.{new_with_len, encode_with_node}
use pns_pallets.Chain.Apis.{NameRecord}
use pns_pallets.Node.Client.{Client}

-- A failed call is logged, and answers as nothing does.
unfoldable pub get_info : DomainHash → Client → Option NameRecord
get_info id client = elim (client.runtime_api client.best_hash) [
  | none ↦ none
  | some api ↦ api.get_info id
]

unfoldable pub get_info_from_name : Env → Bytes → Client → Option NameRecord
unfolding get_info
get_info_from_name env name client = elim (new_with_len env name) [
  | none ↦ none
  | some (label, _) ↦ get_info (encode_with_node env label env.base_node) client
]

unfoldable pub all : Client → List (DomainHash × RegistrarInfo)
all client = elim (client.runtime_api client.best_hash) [ none ↦ [] | some api ↦ api.all ]
