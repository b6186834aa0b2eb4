-- ===== src/Chain/Holders.antt =====
-- Who can set DNS records, by `check_node_useable` of runtime/src/configs/mod.rs: the holder of a
-- delegated subname cannot.
use pns_pallets.Base.{◌≡◌, ◌≢◌, false, some, none, arith}
use pns_pallets.Types.{AccountId, DomainHash, Bytes, SubnameRecord}
use pns_pallets.Types.Ddns.{RecordType}
use pns_pallets.Types.Dispatch.{RawOrigin, TextKind}
use pns_pallets.Types.Storage.{State}
use pns_pallets.Runtime.{Env, IsOk}
use pns_pallets.Label.{parse_name_to_node}
use pns_pallets.Registry.{token_info, verify}
use pns_pallets.Registry.Clear.{record_of}
use pns_pallets.Registry.Tidy.{IsTidy}
use pns_pallets.Resolvers.{set_record, set_text}
use pns_pallets.Chain.Configs.{check_node_useable}

subname-no_token :
    (base node : DomainHash) (rec : SubnameRecord) (s : State)
    → IsTidy base s
    → node ≢ base
    → record_of node s ≡ some rec
    → token_info node s ≡ none
subname-no_token base node rec s tidy other held =
    ground (arith, tidy.minted node, tidy.apart node, other)

useable-token :
    (env : Env) (node : DomainHash) (a : AccountId) (s : State)
    → token_info node s ≡ none
    → check_node_useable env node a s ≡ false
unfolding check_node_useable verify
useable-token env node a s missing = ground arith

-- In a registry in order, nobody, not even its holder, can set a DNS record or a text of a delegated
-- subname, in whatever state of its life: the runtime asks for a token that no subname has.
pub subname-set_record :
    (env : Env) (origin : RawOrigin) (name content : Bytes) (t : RecordType) (kind : TextKind)
    (node : DomainHash) (rec : SubnameRecord) (s : State)
    → IsTidy env.base_node s
    → parse_name_to_node env name env.base_node ≡ some node
    → node ≢ env.base_node
    → record_of node s ≡ some rec
    → (¬ IsOk (set_record env (check_node_useable env) origin name t content s))
      × (¬ IsOk (set_text env (check_node_useable env) origin name kind content s))
unfolding set_record set_text
subname-set_record env origin name content t kind node rec s tidy named other held =
    let missing = subname-no_token env.base_node node rec s tidy other held in
    (
      λ good. grind (arith, named, good, missing, useable-token),
      λ good. grind (arith, named, good, missing, useable-token),
    )
