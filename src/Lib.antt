-- ===== src/Lib.antt =====
-- MeshNet gives nodes of the Yggdrasil network names that a distributed hash table resolves. This
-- development models its package `dht` (dht/), a Kademlia node that keeps a routing table of contacts
-- and a store of signed records, serves requests of its peers, and looks up nodes and records by
-- iterated requests; its package `pairing` (pairing/), by which two devices exchange their keys over
-- that table; its package `core` (core/), the identity of a node, the Yggdrasil node that is embedded
-- and the Yggdrasil process beside it; and its command line (cli/cli.go), which puts them together.
--
-- The parts, and the files that model them:
-- - Identifiers, their text form, the XOR metric and the index of a bucket (`NodeID`, `Less`,
--   `bucketIndex` of dht/routing.go): Dht.NodeId, with proofs in its child modules; the byte
--   operations are those of Bits.
-- - Contacts and the routing table (`Add`, `Remove`, `Closest`, `Size` of dht/routing.go, `All` of
--   dht/peers.go): Dht.Contact, Dht.Table. Dht.Table.View is the abstract view: a finite map from
--   identifiers to contacts.
-- - Records and their store (`Record`, `Verify`, `Store` of dht/store.go): Dht.Store; `CreateRecord` of
--   dht/register.go: Dht.Register.
-- - The wire protocol (`readMessage`, `writeMessage` and the bodies of dht/rpc.go): Dht.Rpc; the
--   requests of the client (`SendPing`, `SendFindNode`, `SendStore`, `SendFindValue`): Dht.Client; the
--   handlers of the server (dht/dht.go): Dht.Node.
-- - The iterative lookup (dht/lookup.go): `lookupState` in Dht.Lookup, `LookupNode` in Dht.Walk,
--   `LookupValue` in Dht.ValueLookup; `Announce` and `PingPeer` in Dht.Announce; the loop that
--   announces a record again (dht/announce.go): Dht.Reannounce.
-- - Dht.Life puts the parts together: the steps that change a node, in any order.
-- - Saved peers and the start of a node (`SavePeers`, `LoadPeers`, `BootstrapDHT` of dht/peers.go):
--   Dht.Peers. The handlers of the HTTP interface (dht/api.go) and `PingAllPeers`: Dht.Api.
-- - The contact book (pairing/contacts.go): Pairing.Contacts; the sessions (`Initiate` and `Join` of
--   pairing/pairing.go): Pairing.Session, whose parameter `Mesh` is what a session calls of the package
--   `dht`: `Announce` and `LookupValue`.
-- - The keys of the node, read from Yggdrasil's configuration or from the identity file
--   (core/identity.go): Core.Identity.
-- - The certificate of the node (core/cert.go): Core.Cert; the embedded node (core/node.go): Core.Node;
--   the Yggdrasil process (core/yggservice.go): Core.YggService, where Core.YggService.Effects tells what
--   the effects of a call leave on the host.
-- - The goroutines of a node, `Start`, `acceptLoop` and `Stop` of dht/dht.go with `Start` and `Stop` of
--   dht/store.go: Dht.Server, beside Dht.Life: the one counts the handlers that run and those that write
--   a reply, which no deadline ends, the other has what they do.
-- - The command line (cli/cli.go): the services, the name and the record options of `cmdStart` and the
--   report of `cmdLookup` in Cli; `cmdStart` as a whole in Cli.Start, whose parameter `World` is what the
--   command meets, with its shutdown, where `d.Stop()` stands at a state of Dht.Server; the other
--   commands and `Run` in Cli.Commands, with `IsNodeRunning` of dht/api.go.
-- - Base, Outcome and Sort hold what these share: lists, association lists for Go's maps, results
--   with errors and panics, `sort.Slice`, and the two sorting loops of `addCandidates` (Sort.Bubble).
--
-- State is passed explicitly. Each operation on a table, a store or a lookup state holds its lock
-- for all of its accesses, so it is one step of the model; `StoreStep` and `NodeStep` make the
-- steps of a store and of a node a relation. Where goroutines run side by side, the order in which
-- their answers arrive is a parameter (`LookupNode`), or each of their accesses to what they share
-- is a step of a relation (`LookupValue`, the re-announcer, the goroutines of the server). A read
-- of the clock is an argument, in nanoseconds since 1970. Files are arguments: what is read, and
-- whether a write succeeds. The seconds of `Expires` wrap in `time.Unix`, as int64 from year 1 on.
--
-- Go's library is modelled where its code is simple (`copy`, `hex`, `bytes.Split`, `io.ReadFull`,
-- `PutUint32`, `sort.Slice`, as a stable sort: the order of equal keys, which distinct identifiers
-- do not have, is not specified). Parameters stand for ed25519, SHA-256, JSON, `bytes.TrimSpace`,
-- IP addresses and the network (Crypto.`Crypto`, Dht.Env.`Env`, Dht.Env.`Network`), for X.509 and
-- Yggdrasil (Core.Cert.`X509`, Core.Node.`Yggdrasil`, Core.YggService.`Host`); the hypotheses on
-- them are `IsCrypto`, `IsX509`, `IsYggdrasil`, and per request that its bodies decode to
-- themselves. `Visits` says that a loop over a map visits each entry once, in an order left open,
-- and `Sleeps` that `time.Sleep` returns after its interval.
--
-- `lookup_loop` runs on fuel; more fuel than there are identifiers is enough, as each round
-- contacts a candidate that was not contacted before; `poll_loop` runs on fuel too, and 151 is
-- enough for five minutes of polls that sleep two seconds; `poll_admin` counts the rounds that are
-- left of 60; `services_loop` counts the indices that are left. `first_set` runs eight rounds, one
-- for each bit of a byte, and `digits_from` one more than the number itself, which has fewer digits
-- than that. All else is structural recursion.
--
-- Not modelled: the sockets themselves and the server of the HTTP interface, which are Go's; the
-- Yggdrasil library and process, whose answers are parameters; the parsing of flags, signals, and the
-- texts that are printed. The requests that a node serves while `cmdStart` is under way enter it at two
-- places, before and after its first pings.
pub mod Base
pub mod Bits
pub mod Outcome
pub mod Sort
pub mod Crypto
pub mod Dht
pub mod Pairing
pub mod Core
pub mod Cli
