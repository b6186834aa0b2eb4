-- ===== src/Lib.antt =====
-- The Polkadot name service: registration, transfer, sale and DNS records of names, by the pallets
-- below pallets/. A name is a label below the base node; its node is a hash, its token an NFT of class
-- 0 that the registry keeps, and its registration an entry of the registrar. The owner of a name can
-- delegate subnames, which are records of the registry and no NFTs. The marketplace and the redeem
-- codes call the registrar, the registrar calls the registry, the registry calls the NFT layer, and
-- all write the anchors (SS58 and ORIGIN records) through the resolvers. The runtime puts the pallets
-- together and answers queries, and a DNS server of the node answers from these.
--
-- What models which part of the code:
--   Types             pallets/pns-types/src (structs and enums, the record types in Types.Ddns), the
--                     storage items (Types.Storage), the errors, events and origins (Types.Dispatch)
--   Runtime           what a call runs in: Env for the configuration and for what lies outside the
--                     repository, M for a call that changes the State or fails
--   Label             Label and check_label of pallets/pns-registrar/src/traits.rs, parse_name_to_node
--                     and validate_label of pallets/pns-types/src/lib.rs; Label.Utf8 for the decoder
--                     and the ASCII functions of the standard library that they use
--   Nft               pallets/pns-registrar/src/nft.rs
--   Registry          pallets/pns-registrar/src/registry.rs: the helpers and clear_subnames here,
--                     mint, transfer and burn in Registry.Names, delegated subnames in
--                     Registry.Offers
--   Expiry            the checks that the trait Registrar gives the registry (registrar.rs)
--   Registrar         pallets/pns-registrar/src/registrar.rs: the shared checks and the reserved list
--                     here, the calls on canonical names in Registrar.Names and on subnames in
--                     Registrar.Subnames, the functions for the marketplace in Registrar.Trade and
--                     for the redeem codes in Registrar.Grant
--   PriceOracle, Origin, Redeem
--                     price_oracle.rs, origin.rs and redeem_code.rs of pallets/pns-registrar/src
--   Marketplace       pallets/pns-marketplace/src/lib.rs
--   Resolvers         pallets/pns-resolvers/src/resolvers.rs
--   Chain             the runtime: Chain.Configs for runtime/src/configs/mod.rs, Chain.Calls for the
--                     calls that runtime/src/lib.rs dispatches, Chain.Genesis for the genesis builds,
--                     Chain.Presets for runtime/src/genesis_config_presets.rs, Chain.Migration for
--                     pallets/pns-registrar/src/migration.rs, Chain.Apis for the queries of
--                     runtime/src/apis.rs
--   Dns               pallets/pns-ddns/src: Dns.Records and Dns.Authority for authority.rs, Dns.Server
--                     for dns_server.rs with the counters of metrics.rs; Dns.Types for the conversions
--                     of pallets/pns-types/src/ddns.rs
--   Node              the clients of the runtime's queries: Node.Rpc for node/src/pns_rpc.rs, Node.Http
--                     for the routes of pallets/pns-ddns/src/lib.rs, Node.Client for the interface of
--                     pallets/pns-runtime-api/src/lib.rs
--   Auction           pallets/pns-registrar/src/auction.rs, which the crate does not build
--   Base              shared tests, lists and storage maps
--   Tests             a small chain, runs of the calls on it, the theorems applied to it
-- The other modules hold proofs, named for what they prove. Functions keep the names of the source.
--
-- How the model reads the code. The storage of all pallets is one record, State. A StorageMap is a
-- function to Option; a double map that the code walks by its first key is a function to lists. A call
-- returns the new state or an error, and an error keeps no change, as FRAME runs every call in a
-- storage layer. Accounts, hashes and bytes are natural numbers. An integer of w bits keeps its bounds:
-- checked operations give an error, plain ones wrap around at 2 ^ w, saturating ones stop. A closure
-- that the registrar hands to mint_subname is an argument of type Option AccountId -> M. The hash, the
-- account encoding, the signature check, the lookup of accounts, the origins of frame_system and the
-- currency are fields of Env, and so are the constants of the runtime, the time and the block.
--
-- The loops of the redeem codes take fuel and have no result when it runs out; fuel for one round more
-- than the range has codes is enough, and a range up to the largest u32 has none that is enough. All
-- other loops run over a list of children or bytes.
--
-- The runtime runs calls one after another, each in a block of its own surroundings; a call collides
-- if it enters a name at a node that is another name's already, which two different names with one
-- hash would do. The DNS authority works over the queries of the runtime. The handler before it takes
-- what the rate limiters let pass, which entries the caches have lost and what the authority answers
-- in time as inputs of each request; its requests run one after another, but for the counter of those
-- in flight, whose steps interleave. A panic is an outcome of its own.
--
-- The auction stands apart: lib.rs comments its module out, and what it calls of the other pallets is
-- of earlier traits. It works over a world of any type, which those calls change, and the blocks follow
-- one after another, each with its hook first. A hook that gives `none` has panicked.
--
-- Not modelled: weights, the pallets of the framework, the sockets and threads of the servers, and the
-- node but for its JSON-RPC.
pub mod Base
pub mod Types
pub mod Runtime
pub mod Label
pub mod Nft
pub mod PriceOracle
pub mod Origin
pub mod Expiry
pub mod Resolvers
pub mod Registry
pub mod Registrar
pub mod Marketplace
pub mod Redeem
pub mod Chain
pub mod Dns
pub mod Node
pub mod Auction
pub mod Tests
