-- ===== src/Chain.antt =====
-- The runtime: the calls on names that it dispatches, with its own configuration of the pallets,
-- runtime/src/lib.rs and runtime/src/configs/mod.rs, and the queries that it answers.
pub mod Configs
pub mod Calls
pub mod Genesis
pub mod Migration
pub mod Aside
pub mod Fresh
pub mod Kept
pub mod KeptSubnames
pub mod Fits
pub mod KeptRegister
pub mod Tidy
pub mod Start
pub mod Presets
pub mod Holders
pub mod Apis
