-- ===== src/Node/Agreement.antt =====
-- The HTTP server against the JSON-RPC, which answer the same question.
use mathlib.Core.Option
use pns_pallets.Base.{ℕ, ◌≡◌, Option, none, some, arith}
use pns_pallets.Types.{DomainHash, Bytes}
use pns_pallets.Types.Storage.{State}
use pns_pallets.Runtime.{Env}
use pns_pallets.Chain.Apis
use pns_pallets.Chain.Apis.{NameRecord}
use pns_pallets.Node.Client.{Client, Iterators, node_at}
use pns_pallets.Node.Rpc
use pns_pallets.Node.Rpc.{RpcResult, internal_error, panics, stamp}
use pns_pallets.Node.Http

-- The JSON-RPC gives what HTTP gives, with the block that it read it at; only the JSON-RPC tells that a
-- call of the runtime has failed.
abbrev pub Agree : Client → Option NameRecord → RpcResult (Option NameRecord) → Type 0
Agree client r (RpcResult.ok r') = r' ≡ Option.map (stamp client) r
Agree client r internal_error = (r ≡ none) × (client.runtime_api client.best_hash ≡ none)
Agree client r panics = ⊥

-- Of any name, valid or not, and of any node, the HTTP server and the JSON-RPC tell the same record,
-- but that only the JSON-RPC fills in the block it was read at; where the call of the runtime fails the
-- JSON-RPC reports an error, and HTTP answers as for a name that nobody has.
pub Http-Rpc :
    (iter : Iterators) (env : Env) (block : Option State) (best_hash node : DomainHash)
    (best_number : ℕ) (name : Bytes)
    → let client = node_at iter best_hash best_number (Option.map (λ s. (env, s)) block) in
      Agree client (Http.get_info_from_name env name client) (Rpc.resolve_name name client)
      × Agree client (Http.get_info node client) (Rpc.get_info node client)
unfolding Http.get_info_from_name Rpc.resolve_name Rpc.get_info node_at Apis.get_info
    Apis.resolve_name
Http-Rpc iter env none best_hash node best_number name = ground arith
Http-Rpc iter env (some s) best_hash node best_number name = ground arith
