-- ===== src/Dht.antt =====
-- The package `dht`: Kademlia identifiers and routing table, record store, lookups, wire protocol.
pub mod NodeId
pub mod Contact
pub mod Table
pub mod Store
pub mod Lookup
pub mod Rpc
pub mod Env
pub mod Client
pub mod Node
pub mod Walk
pub mod ValueLookup
pub mod Register
pub mod Announce
pub mod Reannounce
pub mod Peers
pub mod Api
pub mod Server
pub mod Life
pub mod Tests
