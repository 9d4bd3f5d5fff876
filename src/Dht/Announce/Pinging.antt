-- ===== src/Dht/Announce/Pinging.antt =====
-- `PingPeer` of dht/dht.go: what a pong adds to the routing table.
use mesh_net.Base.{◌≡◌, ◌≢◌, refl, some, Bytes, arith, Option-cases, inl, inr, ◌⊎◌}
use mesh_net.Outcome.{Outcome, ok, err, panics}
use mesh_net.Dht.NodeId.{NodeId, node_id_from_hex}
use mesh_net.Dht.NodeId.Hex.{node_id_from_hex-IsNodeId}
use mesh_net.Dht.Table.{add}
use mesh_net.Dht.Table.Valid.{add-IsTable}
use mesh_net.Dht.Rpc.{PongBody}
use mesh_net.Dht.Env.{Env, Network}
use mesh_net.Dht.Contact.{Contact}
use mesh_net.Dht.Client.{send_ping, exchange}
use mesh_net.Dht.ValueLookup.Requests.{bind-no_panic, exchange-no_panic}
use mesh_net.Dht.Node.{Dht}
use mesh_net.Dht.Node.Valid.{IsNode}
use mesh_net.Dht.Announce.{self_contact, add_ponged, ping_peer}

-- The contact that a pong from an address stands for.
pub record Ponged (env : Env) (net : Network) (d d' : Dht) (address : Bytes) : Type 0 where
  pub pong : PongBody
  pub id : NodeId
  pub host : Bytes
  pub port_text : Bytes
  pub answered : send_ping env net address (self_contact env net d) ≡ ok pong
  pub id_read : node_id_from_hex pong.sender_id ≡ ok id
  pub split : env.split_host_port address ≡ some (host, port_text)
  pub added : d' ≡ record d {
    table =
        add d.table
          (record { id = id; address = env.parse_ip host; port = env.scan_int port_text });
  }

module _ (env : Env) (net : Network) where
  add_ponged-cases :
      (d d' : Dht) (address : Bytes) (pong : PongBody) (o : Outcome (Unit {0}))
      → add_ponged env net d address pong ≡ (d', o)
      → send_ping env net address (self_contact env net d) ≡ ok pong
      → ((o ≢ ok tt) × (d' ≡ d)) ⊎ ((o ≡ ok tt) × Ponged env net d d' address)
  add_ponged-cases d d' address pong o h answered = go (node_id_from_hex pong.sender_id) refl
    where
      go :
          (p : Outcome NodeId)
          → node_id_from_hex pong.sender_id ≡ p
          → ((o ≢ ok tt) × (d' ≡ d)) ⊎ ((o ≡ ok tt) × Ponged env net d d' address)
      go (ok id) e = elim (Option-cases (env.split_host_port address)) [
        | inl bad ↦ inl (unfold add_ponged in ground arith)
        | inr ((host, port_text), f) ↦ inr (
          unfold add_ponged in ground arith,
          record {
            pong = pong;
            id = id;
            host = host;
            port_text = port_text;
            answered = answered;
            id_read = e;
            split = f;
            added = unfold add_ponged in ground arith;
          },
        )
      ]
      go (err x) e = inl (unfold add_ponged in ground arith)
      go panics e = inl (unfold add_ponged in ground arith)

  -- `PingPeer` either succeeds and adds the sender of the pong to the table, with the address that
  -- was dialled, or fails and leaves the node as it was.
  pub ping_peer-cases :
      (d d' : Dht) (address : Bytes) (o : Outcome (Unit {0}))
      → ping_peer env net d address ≡ (d', o)
      → ((o ≢ ok tt) × (d' ≡ d)) ⊎ ((o ≡ ok tt) × Ponged env net d d' address)
  ping_peer-cases d d' address o h = go (send_ping env net address (self_contact env net d)) refl
    where
      go :
          (p : Outcome PongBody)
          → send_ping env net address (self_contact env net d) ≡ p
          → ((o ≢ ok tt) × (d' ≡ d)) ⊎ ((o ≡ ok tt) × Ponged env net d d' address)
      go (ok pong) e = add_ponged-cases d d' address pong o (unfold ping_peer in ground arith) e
      go (err x) e = inl (unfold ping_peer in ground arith)
      go panics e = inl (unfold ping_peer in ground arith)

  -- `PingPeer` keeps the node valid, whatever answers.
  pub ping_peer-IsNode :
      (d d' : Dht) (address : Bytes) (o : Outcome (Unit {0}))
      → ping_peer env net d address ≡ (d', o)
      → IsNode env d
      → IsNode env d'
  ping_peer-IsNode d d' address o h v = elim (ping_peer-cases d d' address o h) [
    | inl (_, same) ↦ rw same v
    | inr (_, p) ↦ rw p.added (record {
      table =
          add-IsTable d.table _ v.table (node_id_from_hex-IsNodeId p.pong.sender_id p.id p.id_read);
      store = v.store;
    })
  ]

  send_ping-no_panic : (address : Bytes) (self : Contact) → send_ping env net address self ≢ panics
  unfolding send_ping
  send_ping-no_panic address self =
      bind-no_panic (exchange env net address _) _ (exchange-no_panic env net address _)
        (λ response h. ground (arith, h))

  add_ponged-no_panic :
      (d : Dht) (address : Bytes) (pong : PongBody) → (add_ponged env net d address pong).1 ≢ panics
  unfolding add_ponged node_id_from_hex
  add_ponged-no_panic d address pong h = ground (arith, h)

  -- `PingPeer` returns, whatever answers.
  pub ping_peer-no_panic : (d : Dht) (address : Bytes) → (ping_peer env net d address).1 ≢ panics
  unfolding ping_peer
  ping_peer-no_panic d address =
      ended (send_ping env net address (self_contact env net d))
        (send_ping-no_panic address (self_contact env net d))
    where
      ended :
          (o : Outcome PongBody)
          → o ≢ panics
          → let r : Dht × Outcome (Unit {0}) = elim o [
            | err e ↦ (d, err e)
            | panics ↦ (d, panics)
            | ok pong ↦ add_ponged env net d address pong
          ] in
            r.1 ≢ panics
      ended (ok pong) h = add_ponged-no_panic d address pong
      ended (err e) h = λ e'. cc
      ended panics h = absurd (h refl)
