-- ===== src/Node.antt =====
-- The interfaces of a node to the runtime's queries: the JSON-RPC of node/src/pns_rpc.rs and the HTTP
-- server of pallets/pns-ddns/src/lib.rs, both clients of pallets/pns-runtime-api/src/lib.rs.
pub mod Client
pub mod Rpc
pub mod Http
pub mod Codes
pub mod Agreement
