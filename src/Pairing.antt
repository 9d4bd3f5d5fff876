-- ===== src/Pairing.antt =====
-- The package `pairing`: the book of paired devices (pairing/contacts.go) and the sessions that pair
-- two of them (pairing/pairing.go).
pub mod Contacts
pub mod Session
mod Tests
