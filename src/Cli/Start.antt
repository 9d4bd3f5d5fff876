-- ===== src/Cli/Start.antt =====
-- `cmdStart` of cli/cli.go: what it calls, in its order. The flags are parsed by Go's library, and the
-- lines that are printed are left out.
pub mod Tun
pub mod Joining
pub mod Publishing
pub mod Launched
pub mod Shutdown
pub mod Identified
use mesh_net.Base.{
  ℕ, ◌≡◌, Bool, true, false, if◌then◌else◌, Option, none, some, List, [], ◌∷◌, ◌++◌, Bytes,
  bytes_eq,
}
use mesh_net.Outcome.{Outcome, ok, err, panics, ◌>>=◌, listen_failed}
use mesh_net.Dht.NodeId.{NodeId, ℤ, node_id_from_hex}
use mesh_net.Dht.Contact.{Contact}
use mesh_net.Dht.Store.{Record}
use mesh_net.Dht.Env.{Env, Network, Codec}
use mesh_net.Dht.Node.{Dht, new}
use mesh_net.Dht.Register.{create_record}
use mesh_net.Dht.Announce.{Announced, ping_peer, announce}
use mesh_net.Dht.Reannounce.{Reannouncer}
use mesh_net.Dht.Reannounce
use mesh_net.Dht.Server.{Server, has_returned}
use mesh_net.Dht.Peers.{SavedPeer, save_to, bootstrap_dht, meshnet_bootstrap_peers}
use mesh_net.Core.Identity.{Identity, Disk, priv_key_hex}
use mesh_net.Core.Cert.{X509}
use mesh_net.Core.Node.{Yggdrasil, Node, new_node, public_key}
use mesh_net.Core.Node
use mesh_net.Core.YggService.{
  YggConfig, YggService, Effect, query_service, Host, Done, new_ygg_service, write_config,
}
use mesh_net.Core.YggService
use mesh_net.Cli.{prefix_of, start_options}

pub record Flags : Type 0 where
  pub name : Bytes
  pub port : ℤ
  pub identity : Bytes
  pub peer : Bytes
  pub services : Bytes
  pub tun : Bool
  pub ygg_bin : Bytes

-- What the command meets: Go's library and Yggdrasil's; the files, the host, and the random bytes for
-- a new key; the answer to the first `IsInstalled`, as that of the second is the host's; whether the
-- port can be listened on; the file of saved peers, its decoding, the order in which the pings arrive,
-- and the networks of the pings and of the announcement; what the requests that are served meanwhile
-- make of the node, before and after the pings; and the readings of the clock.
pub record World : Type 0 where
  pub env : Env
  pub ygg : Yggdrasil
  pub x509 : X509
  pub identity_json : Codec Identity
  pub trim : Bytes → Bytes
  pub encode : YggConfig → Option Bytes
  pub disk : Disk
  pub host : Host
  pub random : Option Bytes
  pub installed : Bool
  pub listens : Bool
  pub peers_file : Option Bytes
  pub decode_peers : Bytes → Option (List SavedPeer)
  pub ping_order : List Bytes → List Bytes
  pub ping_net : Network
  pub walk_net : ℕ → Network
  pub walk_order : ℕ → List (List Contact) → List (List Contact)
  pub store_net : Network
  pub fuel : ℕ
  pub served_first : Dht → Dht
  pub served_then : Dht → Dht
  pub started : ℕ
  pub created : ℕ
  pub announced : ℕ

-- The service of a node in TUN mode, the disk, and what was done to the host.
pub record Connected : Type 0 where
  pub service : Option YggService
  pub disk : Disk
  pub effects : List Effect

-- The configuration is written unless the service is installed.
unfoldable pub configure : World → YggService → Disk → Bytes → Outcome (Unit {0}) × Disk
configure w svc disk priv_key =
    if w.installed then (ok tt, disk) else write_config w.encode svc disk (priv_key_hex priv_key)

unfoldable pub connect_tun : World → Flags → Disk → Bytes → Outcome Connected
connect_tun w flags disk priv_key =
    let svc = new_ygg_service flags.ygg_bin in
    let (written, disk') = configure w svc disk priv_key in
    let done = YggService.start w.host svc in
    (do
      _ ← written
      _ ← done.result
      ok (record {
        service = some done.service;
        disk = disk';
        effects = query_service ∷ done.effects;
      }))

-- Without TUN, `BootstrapPeers` connects the embedded library.
unfoldable pub connect : World → Flags → Disk → Bytes → Outcome Connected
connect w flags disk priv_key =
    if flags.tun
    then connect_tun w flags disk priv_key
    else ok (record { service = none; disk = disk; effects = [] })

-- The node after `PingPeer`, whose error is only printed.
unfoldable pub after_ping : Dht → Outcome (Unit {0}) → Outcome Dht
after_ping d (ok _) = ok d
after_ping d (err e) = ok d
after_ping d panics = panics

-- `BootstrapDHT`, and `PingPeer` if a peer is given.
unfoldable pub join : World → Flags → Dht → Outcome Dht
join w flags d =
    let booted =
      (bootstrap_dht w.env w.ping_net w.ping_order w.decode_peers (w.served_first d) w.peers_file
        meshnet_bootstrap_peers).0 in
    if bytes_eq flags.peer []
    then ok booted
    else after_ping (ping_peer w.env w.ping_net booted flags.peer).0
        (ping_peer w.env w.ping_net booted flags.peer).1

-- The record, the node after `Announce` with its result, and the re-announcer.
pub record Registered : Type 0 where
  pub own : Record
  pub announcement : Announced
  pub reannouncer : Reannouncer

-- The error of `Announce` is only printed.
unfoldable pub after_announce : World → Record → Option Announced → Outcome (Option Registered)
after_announce w r none = ok none
after_announce w r (some a) =
    let reannouncer = Reannounce.start w.announced a.node r in
    elim a.result [
      | ok _ ↦ ok (some (record { own = r; announcement = a; reannouncer = reannouncer }))
      | err e ↦ ok (some (record { own = r; announcement = a; reannouncer = reannouncer }))
      | panics ↦ panics
    ]

-- From the name on; `none` means that the fuel of the announcement ran out. The arguments are the
-- address, the text of the public key, and the private key.
unfoldable pub register : World → Flags → Bytes → Bytes → Bytes → Dht → Outcome (Option Registered)
register w flags address key priv_key d = do
  opts ← start_options flags.name flags.services address key priv_key
  own ← create_record w.env.crypto w.created opts
  after_announce w own (announce w.env w.walk_net w.walk_order w.store_net w.fuel w.announced d own)

-- `d.Start()`
unfoldable pub listen : Bool → Outcome (Unit {0})
listen true = ok tt
listen false = err listen_failed

pub record Running : Type 0 where
  pub node : Node
  pub connected : Connected
  pub self_id : NodeId
  pub registered : Registered

abbrev registered_as : Node → Connected → NodeId → Option Registered → Option Running
registered_as node connected self_id none = none
registered_as node connected self_id (some r) =
    some (record { node = node; connected = connected; self_id = self_id; registered = r })

-- `cmdStart` from the start of the node of the package `core` on; an error ends the process. The
-- first 16 characters of the public key are printed.
unfoldable pub run_node : World → Flags → Node → Disk → Outcome (Option Running)
run_node w flags node disk = do
  key ← public_key node
  shown ← prefix_of 16 key
  connected ← connect w flags disk node.priv_key
  self_id ← node_id_from_hex key
  _ ← listen w.listens
  joined ← join w flags (new node.address self_id flags.port)
  registered ← register w flags node.address key node.priv_key (w.served_then joined)
  ok (registered_as node connected self_id registered)

unfoldable pub cmd_start : World → Flags → Outcome (Option Running)
cmd_start w flags =
    let (node, result, disk) =
      Node.start w.ygg w.x509 w.env.crypto w.identity_json w.trim w.started flags.identity w.random
        w.disk new_node in
    (do _ ← result; run_node w flags node disk)

-- What a signal leads to: the loop of the re-announcer, what is done to the host, the result of
-- `SavePeers` with the disk that it leaves, and what the node closes, where `none` is that `d.Stop()`
-- has not returned.
pub record Stopped : Type 0 where
  pub reannouncer : Reannouncer
  pub effects : List Effect
  pub saved : Outcome (Unit {0}) × Disk
  pub closed : Option (List Node.Closed)

-- `if yggSvc != nil { yggSvc.Stop() }`
abbrev pub stop_service : Option YggService → List Effect
stop_service none = []
stop_service (some svc) = YggService.stop svc

-- `node.Stop()`, once `d.Stop()` has returned.
unfoldable pub stop_node : Node → Bool → Outcome (Option (List Node.Closed))
stop_node node false = ok none
stop_node node true = elim (Node.stop node) [ none ↦ panics | some (n, closed) ↦ ok (some closed) ]

-- `reannouncer` and `d` are what the command started, as they stand at that time; `server` is where
-- `d.Stop()` stands among the goroutines of the node.
unfoldable pub shut_down :
    World → (List SavedPeer → Option Bytes) → Running → Reannouncer → Dht → Server → Outcome Stopped
shut_down w encode running reannouncer d server = do
  ended ← Reannounce.stop reannouncer
  returned ← has_returned server
  closed ← stop_node running.node returned
  ok (record {
    reannouncer = ended;
    effects = stop_service running.connected.service;
    saved = save_to w.env encode running.connected.disk d;
    closed = closed;
  })
