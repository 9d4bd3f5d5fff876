-- ===== src/Dht/Peers.antt =====
-- Saved peers and the start of a node, dht/peers.go. The contents of the file peers.json and its
-- decoding are parameters. The goroutines of a list of pings run side by side; each changes only the
-- table, by one step under its lock, and `arrive` is the order of these steps.
pub mod Restored
use mesh_net.Base.{
  ℕ, suc, ltb, if◌then◌else◌, Option, none, some, List, [], ◌∷◌, ◌++◌, map, Bytes, codes,
}
use mesh_net.Outcome.{Outcome, ok, err, panics, peers_not_encoded, peers_not_saved}
use mesh_net.Dht.NodeId.{ℤ, to_string}
use mesh_net.Dht.Contact.{Contact}
use mesh_net.Dht.Table.{all_contacts, size}
use mesh_net.Dht.Env.{Env, Network, decimal}
use mesh_net.Dht.Node.{Dht}
use mesh_net.Dht.Announce.{ping_peer}
use mesh_net.Core.Identity.{Disk, write_file}

pub record SavedPeer : Type 0 where
  pub id : Bytes
  pub addr : Bytes
  pub port : ℤ

-- `meshnetBootstrapPeers` of dht/bootstrap_peers.go
abbrev pub meshnet_bootstrap_peers : List Bytes
meshnet_bootstrap_peers = []

-- `const peersFile = "peers.json"`
abbrev pub peers_file : Bytes
peers_file = codes "peers.json"

-- `fmt.Sprintf("[%s]:%d", sp.Addr, sp.Port)`
unfoldable pub peer_addr : SavedPeer → Bytes
peer_addr p = codes "[" ++ (p.addr ++ (codes "]:" ++ decimal p.port))

-- The end of `SavePeers`, of the result of the encoding.
unfoldable pub save_text : Disk → Option Bytes → Outcome (Unit {0}) × Disk
save_text disk none = (err peers_not_encoded, disk)
save_text disk (some text) =
    if disk.writable peers_file
    then (ok tt, write_file disk peers_file text)
    else (err peers_not_saved, disk)

module _ (env : Env) where
  unfoldable pub saved_peer : Contact → SavedPeer
  saved_peer c = record { id = to_string c.id; addr = env.ip_string c.address; port = c.port }

  -- The peers that `SavePeers` encodes; with none it writes no file.
  unfoldable pub save_peers : Dht → List SavedPeer
  save_peers d = map saved_peer (all_contacts d.table)

  -- `SavePeers`; `encode` is `json.MarshalIndent`, where `none` is its error.
  unfoldable pub save_to : (List SavedPeer → Option Bytes) → Disk → Dht → Outcome (Unit {0}) × Disk
  save_to encode disk d = elim (save_peers d) [
    | [] ↦ (ok tt, disk)
    | p ∷ ps ↦ save_text disk (encode (p ∷ ps))
  ]

  module _ (net : Network) where
    abbrev count_ok : Outcome (Unit {0}) → ℕ → ℕ
    count_ok (ok _) n = suc n
    count_ok (err e) n = n
    count_ok panics n = n

    -- The pings of a list of addresses, and how many of them succeed.
    unfoldable pub ping_each : Dht → List Bytes → Dht × ℕ
    ping_each d [] = (d, 0)
    ping_each d (a ∷ addrs) =
        let (d', result) = ping_peer env net d a in
        let (after, alive) = ping_each d' addrs in (after, count_ok result alive)

    module _ (arrive : List Bytes → List Bytes) (decode : Bytes → Option (List SavedPeer)) where
      -- `LoadPeers`; `none` is a file that cannot be read.
      unfoldable pub load_peers : Dht → Option Bytes → Dht × ℕ
      load_peers d none = (d, 0)
      load_peers d (some data') = elim (decode data') [
        | none ↦ (d, 0)
        | some peers ↦ ping_each d (arrive (map peer_addr peers))
      ]

      -- `BootstrapDHT`; its list of well-known peers is `meshnet_bootstrap_peers`.
      unfoldable pub bootstrap_dht : Dht → Option Bytes → List Bytes → Dht × ℕ
      bootstrap_dht d file well_known =
          let restored = (load_peers d file).0 in
          let started = (ping_each restored (arrive well_known)).0 in
          if ltb 0 (size restored.table)
          then (restored, size restored.table)
          else (started, size started.table)
