-- ===== src/Tests/Nodes.antt =====
-- Queries to a node by the JSON-RPC and by HTTP.
use mathlib.Core.Option
use pns_pallets.Base.{ℕ, ◌^◌, ◌<◌, ◌≡◌, refl, some, [], ◌∷◌, ◌==◌, if◌then◌else◌, arith}
use pns_pallets.Dns.Types.{DnsType}
use pns_pallets.Node.Client.{Client, Iterators, node_at}
use pns_pallets.Node.Rpc
use pns_pallets.Node.Rpc.{RpcResult, panics, ok, pns_types}
use pns_pallets.Node.Http
use pns_pallets.Node.Codes.{Explains, lookup-Explains}
use pns_pallets.Node.Agreement.{Agree, Http-Rpc}
use pns_pallets.Chain.Apis.{node_or_zero}
use pns_pallets.Label.{parse_name_to_node}
use pns_pallets.Tests.Sample.{later_chain, abc, abc_node}
use pns_pallets.Tests.Steps.{steps}
use pns_pallets.Tests.Dns.{dns_steps, addressed}

-- The DNS library with A and CERT alone; the chain does not know CERT.
abbrev of_code : ℕ → DnsType
of_code c =
    if c == 1 then DnsType.a else if c == 37 then DnsType.unsupported 37 else DnsType.unknown c

abbrev to_code : DnsType → ℕ
to_code DnsType.a = 1
to_code (DnsType.unknown c) = c
to_code (DnsType.unsupported c) = c
to_code _ = 0

codes_back : (c : ℕ) → c < 2 ^ 16 → to_code (of_code c) ≡ c
codes_back c h = ground arith

abbrev iterators : Iterators
iterators = record { infos = λ _. []; offers = λ _. [] }

abbrev node : Client
node = node_at iterators 77 500 (some (later_chain, addressed))

-- The code of A with a bit above the low 16.
wide_code :
    Rpc.lookup of_code to_code abc_node (65537 ∷ []) node
    ≡ ok ((65280, 5 ∷ []) ∷ (65290, 9 ∷ []) ∷ (1, 10 ∷ 0 ∷ 0 ∷ 1 ∷ []) ∷ [])
unfolding dns_steps node_at Rpc.lookup
wide_code = refl

cert_code : Rpc.lookup of_code to_code abc_node (1 ∷ 37 ∷ []) node ≡ panics
unfolding dns_steps node_at Rpc.lookup
cert_code = refl

-- HTTP leaves the block out.
unstamped :
    Option.map (λ r. r.read_block_number) (Http.get_info_from_name later_chain abc node) ≡ some 0
unfolding steps node_at Http.get_info_from_name
unstamped = refl

lookup-Explains_example :
    Explains of_code to_code
      (65537 ∷ [])
      abc_node
      (some addressed)
      (Rpc.lookup of_code to_code abc_node (65537 ∷ []) node)
    × (Rpc.lookup_by_name of_code to_code abc (65537 ∷ []) node
        ≡ Rpc.lookup of_code to_code
            (node_or_zero (parse_name_to_node later_chain abc later_chain.base_node))
            (65537 ∷ [])
            node)
lookup-Explains_example =
    lookup-Explains of_code to_code codes_back (λ c. refl) iterators later_chain (some addressed) 77
      abc_node 500 abc (65537 ∷ [])

Http-Rpc_example :
    Agree node (Http.get_info_from_name later_chain abc node) (Rpc.resolve_name abc node)
    × Agree node (Http.get_info abc_node node) (Rpc.get_info abc_node node)
Http-Rpc_example = Http-Rpc iterators later_chain (some addressed) 77 abc_node 500 abc
