-- ===== src/Tests.antt =====
-- Runs of the calls on a small chain, and the theorems applied to them.
pub mod Sample
pub mod Steps
mod Labels
mod Tokens
mod Names
mod Subnames
mod Sales
mod Chains
mod Queries
mod Dns
mod Nodes
mod Listings
mod Auctions
