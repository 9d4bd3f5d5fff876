-- ===== src/Dht/Announce.antt =====
-- `Announce` of dht/lookup.go and `PingPeer` of dht/dht.go: what a node does of its own accord.
pub mod Ends
pub mod Pinging
use mesh_net.Base.{
  ℕ, zero, suc, ◌+◌, ◌≡◌, Bool, true, false, if◌then◌else◌, Option, none, some, List, [], ◌∷◌,
  Bytes,
}
use mesh_net.Outcome.{
  Outcome, ok, err, panics, ◌>>=◌, invalid_record, invalid_sender_id, invalid_addr,
}
use mesh_net.Dht.NodeId.{NodeId, ℤ, node_id_from_hex}
use mesh_net.Dht.Contact.{Contact}
use mesh_net.Dht.Table.{RoutingTable, add}
use mesh_net.Dht.Store.{Record, Store, verify, put, record_id}
use mesh_net.Dht.Rpc.{PongBody}
use mesh_net.Dht.Env.{Env, Network, addr}
use mesh_net.Dht.Client.{send_ping, send_store}
use mesh_net.Dht.Node.{Dht}
use mesh_net.Dht.Walk.{lookup_node}

-- The node afterwards, how many nodes took the record (`stored`), and what is returned.
pub record Announced : Type 0 where
  pub node : Dht
  pub stored : ℕ
  pub result : Outcome (Unit {0})

-- The goroutines of the last loop of `Announce`: the number of requests that were written.
unfoldable pub count_stored : Env → Network → Record → List Contact → ℕ
count_stored env net r [] = 0
count_stored env net r (c ∷ cs) =
    let rest = count_stored env net r cs in
    elim (send_store env net (addr env c) r) [ ok _ ↦ suc rest | err e ↦ rest | panics ↦ rest ]

module _ (env : Env) (net : ℕ → Network) (arrive : ℕ → List (List Contact) → List (List Contact))
    (later : Network) where
  -- `Announce` after the record was stored; the requests to store it find the network `later`.
  unfoldable pub distribute : ℕ → Dht → Record → Option Announced
  distribute fuel d r =
      elim (lookup_node env net arrive fuel d.table (record_id env.crypto r.name)) [
        | none ↦ none
        | some (table, closest) ↦ some (record {
          node = record d { table = table };
          stored = count_stored env later r closest;
          result = ok tt;
        })
      ]

  -- `none` means that the fuel of the lookup ran out.
  unfoldable pub announce : ℕ → ℕ → Dht → Record → Option Announced
  announce fuel now d r = elim (verify env.crypto r) [
    | err e ↦ some (record { node = d; stored = 0; result = err invalid_record })
    | panics ↦ some (record { node = d; stored = 0; result = panics })
    | ok _ ↦ elim (put env.crypto now d.store r).1 [
      | ok _ ↦ distribute fuel (record d { store = (put env.crypto now d.store r).0 }) r
      | err e ↦ some (record {
        node = record d { store = (put env.crypto now d.store r).0 };
        stored = 0;
        result = err e;
      })
      | panics ↦ some (record {
        node = record d { store = (put env.crypto now d.store r).0 };
        stored = 0;
        result = panics;
      })
    ]
  ]

module _ (env : Env) (net : Network) where
  unfoldable pub self_contact : Dht → Contact
  self_contact d = record { id = d.table.self; address = env.parse_ip d.address; port = d.port }

  -- `PingPeer` after the pong: the sender is added under the address that was dialled.
  unfoldable pub add_ponged : Dht → Bytes → PongBody → Dht × Outcome (Unit {0})
  add_ponged d address pong = elim (node_id_from_hex pong.sender_id) [
    | err e ↦ (d, err invalid_sender_id)
    | panics ↦ (d, panics)
    | ok id ↦ elim (env.split_host_port address) [
      | none ↦ (d, err invalid_addr)
      | some (host, port_text) ↦ (
        record d {
          table =
              add d.table
                (record { id = id; address = env.parse_ip host; port = env.scan_int port_text });
        },
        ok tt,
      )
    ]
  ]

  unfoldable pub ping_peer : Dht → Bytes → Dht × Outcome (Unit {0})
  ping_peer d address = elim (send_ping env net address (self_contact d)) [
    | err e ↦ (d, err e)
    | panics ↦ (d, panics)
    | ok pong ↦ add_ponged d address pong
  ]
