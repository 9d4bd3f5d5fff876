-- ===== src/Dht/Node/Valid.antt =====
-- What the handlers of dht/dht.go keep.
use mesh_net.Base.{
  ℕ, ◌≡◌, refl, ◌==◌, Option, Bytes, arith, Option-cases, Bool-cases, inl, inr, ◌⊎◌,
}
use mesh_net.Outcome.{Outcome, ok, err, panics}
use mesh_net.Dht.NodeId.{NodeId, IsNodeId, ℤ, node_id_from_hex}
use mesh_net.Dht.NodeId.Hex.{node_id_from_hex-IsNodeId}
use mesh_net.Dht.Table.Valid.{IsTable, add-IsTable, new_routing_table-IsTable}
use mesh_net.Dht.Store.{put}
use mesh_net.Dht.Store.Valid.{IsStore, put-IsStore, StoreReach-new_store, StoreReach}
use mesh_net.Dht.Rpc.{Message, read_message, PingBody, StoreBody}
use mesh_net.Dht.Env.{Env}
use mesh_net.Dht.Node.{
  Dht, new, add_sender, handle_ping, handle_find_node, handle_store, not_found_reply,
  handle_find_value, handle_message, handle_connection,
}

-- The table is valid, and each record of the store stands under its name and verifies.
pub record IsNode (env : Env) (d : Dht) : Type 0 where
  pub table : IsTable d.table
  pub store : IsStore env.crypto d.store

-- A new node is valid.
pub new-IsNode :
    (env : Env) (address : Bytes) (self : NodeId) (port : ℤ)
    → IsNodeId self
    → IsNode env (new address self port)
unfolding new
new-IsNode env address self port h = record {
  table = new_routing_table-IsTable self h;
  store = StoreReach-new_store env.crypto StoreReach.here;
}

add_sender-IsNode :
    (env : Env) (d : Dht) (text : Bytes) (address : Option Bytes) (port : ℤ)
    → IsNode env d
    → IsNode env (add_sender d (node_id_from_hex text) address port)
add_sender-IsNode env d text address port v = go (node_id_from_hex text) refl
  where
    go : (o : Outcome NodeId) → node_id_from_hex text ≡ o → IsNode env (add_sender d o address port)
    go (ok id) e =
        unfold add_sender in
        record {
          table = add-IsTable d.table _ v.table (node_id_from_hex-IsNodeId text id e);
          store = v.store;
        }
    go (err x) e = unfold add_sender in v
    go panics e = unfold add_sender in v

module _ (env : Env) where
  handle_ping-cases :
      (d : Dht) (msg : Message)
      → ((handle_ping env d msg).0 ≡ d)
        ⊎ ((ping : PingBody) × ((handle_ping env d msg).0
              ≡ add_sender d
                  (node_id_from_hex ping.sender_id)
                  (env.parse_ip ping.sender_addr)
                  ping.sender_port))
  unfolding handle_ping
  handle_ping-cases d msg = elim (Option-cases (env.ping.unmarshal msg.body)) [
    | inl bad ↦ inl (ground arith)
    | inr (ping, e) ↦ inr (ping, ground arith)
  ]

  handle_ping-IsNode :
      (d : Dht) (msg : Message) → IsNode env d → IsNode env (handle_ping env d msg).0
  handle_ping-IsNode d msg v = elim (handle_ping-cases d msg) [
    | inl e ↦ rw e v
    | inr (ping, e) ↦
        rw e (
          add_sender-IsNode env d ping.sender_id (env.parse_ip ping.sender_addr) ping.sender_port v)
  ]

  handle_find_node_keeps : (d : Dht) (msg : Message) → (handle_find_node env d msg).0 ≡ d
  unfolding handle_find_node
  handle_find_node_keeps d msg = ground arith

  handle_find_value_keeps :
      (now : ℕ) (d : Dht) (msg : Message) → (handle_find_value env now d msg).0 ≡ d
  unfolding handle_find_value not_found_reply
  handle_find_value_keeps now d msg = ground arith

  handle_store-cases :
      (now : ℕ) (d d' : Dht) (msg : Message) (reply : Option Message)
      → handle_store env now d msg ≡ ok (d', reply)
      → (d' ≡ d)
        ⊎ ((req : StoreBody) × (d'
              ≡ record d { store = (put env.crypto now d.store req.stored).0 }))
  unfolding handle_store
  handle_store-cases now d d' msg reply h = elim (Option-cases (env.store.unmarshal msg.body)) [
    | inl bad ↦ inl (ground arith)
    | inr (req, e) ↦ inr (req, ground arith)
  ]

  handle_store-IsNode :
      (now : ℕ) (d d' : Dht) (msg : Message) (reply : Option Message)
      → handle_store env now d msg ≡ ok (d', reply)
      → IsNode env d
      → IsNode env d'
  handle_store-IsNode now d d' msg reply h v = elim (handle_store-cases now d d' msg reply h) [
    | inl e ↦ rw e v
    | inr (req, e) ↦
        rw e (record {
          table = v.table;
          store = put-IsStore env.crypto now d.store req.stored v.store;
        })
  ]

  -- The state after a message is that of a handler, or unchanged.
  handle_message-cases :
      (now : ℕ) (d d' : Dht) (msg : Message) (reply : Option Message)
      → handle_message env now d msg ≡ ok (d', reply)
      → (d' ≡ d)
        ⊎ ((d' ≡ (handle_ping env d msg).0) ⊎ (handle_store env now d msg ≡ ok (d', reply)))
  unfolding handle_message
  handle_message-cases now d d' msg reply h = elim (Bool-cases (msg.type == 0)) [
    | inl ping ↦ inr (inl (ground arith))
    | inr p ↦ elim (Bool-cases (msg.type == 2)) [
      | inl find ↦ inl (ground (arith, handle_find_node_keeps d msg))
      | inr q ↦ elim (Bool-cases (msg.type == 4)) [
        | inl stores ↦ inr (inr (ground arith))
        | inr r ↦ inl (ground (arith, handle_find_value_keeps now d msg))
      ]
    ]
  ]

  -- Whatever bytes a peer sends on a connection, a node that was valid and serves it without a
  -- panic is valid afterwards: its table is, and each record of its store stands under its name and
  -- verifies.
  pub handle_connection-IsNode :
      (now : ℕ) (d d' : Dht) (conn : Bytes) (reply : Option Message)
      → handle_connection env now d conn ≡ ok (d', reply)
      → IsNode env d
      → IsNode env d'
  handle_connection-IsNode now d d' conn reply h v = go (read_message conn) refl
    where
      served : (msg : Message) → handle_message env now d msg ≡ ok (d', reply) → IsNode env d'
      served msg run = elim (handle_message-cases now d d' msg reply run) [
        | inl e ↦ rw e v
        | inr (inl e) ↦ rw e (handle_ping-IsNode d msg v)
        | inr (inr e) ↦ handle_store-IsNode now d d' msg reply e v
      ]

      go : (o : Outcome (Message × Bytes)) → read_message conn ≡ o → IsNode env d'
      go (ok (msg, rest)) e = served msg (unfold handle_connection in ground arith)
      go (err x) e = let same : d' ≡ d = unfold handle_connection in ground arith in rw same v
      go panics e = absurd (unfold handle_connection in ground arith)
