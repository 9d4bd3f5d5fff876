-- ===== src/Dht/Tests.antt =====
-- The theorems on the package `dht` at concrete nodes, records and connections.
pub mod Samples
mod Ids
mod Tables
mod Stores
pub mod Walks
mod Values
mod Reannouncing
pub mod Servers
pub mod Nodes
