-- ===== src/Dns.antt =====
-- The DNS server of the chain, pallets/pns-ddns/src/: the authority that answers from the chain's
-- records, and the checks before it.
pub mod Types
pub mod Records
pub mod Authority
pub mod Server
