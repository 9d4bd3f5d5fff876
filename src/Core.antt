-- ===== src/Core.antt =====
-- The package `core`: the identity of the node (core/identity.go), its certificate (core/cert.go), the
-- embedded Yggdrasil node (core/node.go) and the Yggdrasil subprocess (core/yggservice.go).
pub mod Identity
pub mod Cert
pub mod Node
pub mod YggService
mod Tests
