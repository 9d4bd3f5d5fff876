-- ===== src/Dht/Life.antt =====
-- The life of a node of the package `dht`: the steps that change it, in any order and number. The
-- handlers, lookups, pings and the cleanup loop run side by side, and each of their steps holds the
-- lock of what it changes.
use mesh_net.Base.{ℕ, ◌≡◌, refl, false, Option, some, List, Bytes}
use mesh_net.Outcome.{ok}
use mesh_net.Dht.NodeId.{NodeId, IsNodeId, ℤ}
use mesh_net.Dht.Table.{remove}
use mesh_net.Dht.Table.Valid.{remove-IsTable}
use mesh_net.Dht.Store.{Record, Store, verify, is_expired}
use mesh_net.Dht.Store.Valid.{StoreStep, StoreStep-IsStore, held-IsEntry}
use mesh_net.Dht.Rpc.{Message, ContactInfo, msg_found_value, FindValueBody}
use mesh_net.Dht.Env.{Env, Network}
use mesh_net.Dht.Node.{Dht, new, handle_connection, handle_find_value}
use mesh_net.Dht.Node.Valid.{IsNode, new-IsNode, handle_connection-IsNode}
use mesh_net.Dht.Node.Privacy.{handle_find_value_private}
use mesh_net.Dht.Walk.{decode_infos, add_all}
use mesh_net.Dht.Walk.Round.{decode_infos-HasNodeId, add_all-IsTable}
use mesh_net.Dht.Announce.{ping_peer}
use mesh_net.Dht.Announce.Pinging.{ping_peer-IsNode}

module _ (env : Env) where
  -- A connection that is served, a ping, an answer that a lookup adds to the table, a contact that is
  -- removed, and an operation on the store: `Put` of `Announce`, `Delete`, or the cleanup loop.
  pub data NodeStep : Dht → Dht → Type 0 where
    serving :
        (now : ℕ) (d d' : Dht) (conn : Bytes) (reply : Option Message)
        → handle_connection env now d conn ≡ ok (d', reply)
        → NodeStep d d'
    pinging :
        (net : Network) (d : Dht) (address : Bytes) → NodeStep d (ping_peer env net d address).0
    learning :
        (d : Dht) (infos : List ContactInfo)
        → NodeStep d (record d { table = add_all d.table (decode_infos env infos) })
    forgetting :
        (d : Dht) (id : NodeId) → IsNodeId id → NodeStep d (record d { table = remove d.table id })
    storing :
        (d : Dht) (s : Store) → StoreStep env.crypto d.store s → NodeStep d (record d { store = s })

  pub data NodeReach (d : Dht) : Dht → Type 0 where
    start : NodeReach d d
    step : {d' d'' : Dht} → NodeReach d d' → NodeStep d' d'' → NodeReach d d''

  NodeStep-IsNode : {d d' : Dht} → NodeStep d d' → IsNode env d → IsNode env d'
  NodeStep-IsNode (serving now d d' conn reply run) v =
      handle_connection-IsNode env now d d' conn reply run v
  NodeStep-IsNode (pinging net d address) v =
      ping_peer-IsNode env net d (ping_peer env net d address).0 address
        (ping_peer env net d address).1 refl v
  NodeStep-IsNode (learning d infos) v = record {
    table =
        add_all-IsTable d.table (decode_infos env infos) v.table (decode_infos-HasNodeId env infos);
    store = v.store;
  }
  NodeStep-IsNode (forgetting d id h) v = record {
    table = remove-IsTable d.table id v.table h;
    store = v.store;
  }
  NodeStep-IsNode (storing d s st) v = record {
    table = v.table;
    store = StoreStep-IsStore env.crypto st v.store;
  }

  NodeReach-IsNode : {d d' : Dht} → IsNode env d → NodeReach d d' → IsNode env d'
  NodeReach-IsNode v start = v
  NodeReach-IsNode v (step reach st) = NodeStep-IsNode st (NodeReach-IsNode v reach)

  -- Whatever a new node with an identifier of 32 bytes lived through, in any order - connections
  -- with any bytes, pings with any answers, answers to lookups, contacts removed, operations on its
  -- store: a record that it gives away in reply to a request has the name and the group key of the
  -- request, has not expired, and has a signature that verifies.
  pub serves_verified :
      (address : Bytes) (self : NodeId) (port : ℤ) (now : ℕ) (d d' : Dht) (msg reply : Message)
      → IsNodeId self
      → NodeReach (new address self port) d
      → handle_find_value env now d msg ≡ (d', some reply)
      → reply.type ≡ msg_found_value
      → (req : FindValueBody) × (r : Record) × (env.find_value.unmarshal msg.body ≡ some req)
        × (reply.body ≡ env.found_value.marshal (record { found = r }))
        × (req.name ≡ r.name)
        × (verify env.crypto r ≡ ok tt)
        × (is_expired now r ≡ false)
        × (r.group_key ≡ req.group_key)
  serves_verified address self port now d d' msg reply h reach run type =
      let (req, r, asked, body, held, fresh, group) =
        handle_find_value_private env now d d' msg reply run type in
      let valid =
        NodeReach-IsNode {d = new address self port} (new-IsNode env address self port h) reach in
      let entry = held-IsEntry env.crypto d.store req.name r valid.store held in
      (req, r, asked, body, entry.named, entry.signed, fresh, group)
