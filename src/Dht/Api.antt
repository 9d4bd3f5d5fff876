-- ===== src/Dht/Api.antt =====
-- The local HTTP interface of dht/api.go, and `PingAllPeers` of dht/peers.go. A handler is a function
-- of the method and the query values of a request, where a missing value is empty; `look` is
-- `LookupValue`. JSON is left out: a body is the value that is encoded.
pub mod Peering
use mesh_net.Base.{
  ℕ, ◌≡◌, Bool, true, false, not, if◌then◌else◌, Option, none, some, List, [], ◌∷◌, map, take,
  Bytes, bytes_eq, codes,
}
use mesh_net.Outcome.{Outcome, ok, err, panics}
use mesh_net.Dht.NodeId.{ℤ, to_string}
use mesh_net.Dht.Contact.{Contact}
use mesh_net.Dht.Table.{all_contacts, size}
use mesh_net.Dht.Store.{Record}
use mesh_net.Dht.Store
use mesh_net.Dht.Env.{Env, Network, addr}
use mesh_net.Dht.Client.{send_ping}
use mesh_net.Dht.Node.{Dht}
use mesh_net.Dht.Announce.{self_contact, ping_peer}
use mesh_net.Dht.Peers.{SavedPeer, save_peers}

-- `const APIPort = 9099`
abbrev pub api_port : ℕ
api_port = 9099

pub record PeerInfo : Type 0 where
  pub id : Bytes
  pub addr : Bytes
  pub port : ℤ
  pub latency : ℕ
  pub alive : Bool

pub record Status : Type 0 where
  pub name : Bytes
  pub address : Bytes
  pub public_key : Bytes
  pub peers : ℕ
  pub records : ℕ

pub data Body : Type 0 where
  message : Bytes → Body
  failure : Body
  status_of : Status → Body
  record_of : Record → Body
  peers_of : List PeerInfo → Body

pub record Response : Type 0 where
  pub code : ℕ
  pub body : Body

abbrev is_ok : Outcome (Unit {0}) → Bool
is_ok (ok _) = true
is_ok (err e) = false
is_ok panics = false

module _ (env : Env) (net : Network) where
  -- The goroutine of a contact: whether its ping succeeds. `time` is the latency that it measures.
  unfoldable pub peer_info : (Contact → ℕ) → Dht → Contact → PeerInfo
  peer_info time d c = record {
    id = take 16 (to_string c.id);
    addr = env.ip_string c.address;
    port = c.port;
    latency = time c;
    alive = elim (send_ping env net (addr env c) (self_contact env net d)) [
      | ok pong ↦ true
      | err e ↦ false
      | panics ↦ false
    ];
  }

  -- Each goroutine writes its own index of `results`.
  unfoldable pub ping_all_peers : (Contact → ℕ) → Dht → List PeerInfo
  ping_all_peers time d = map (peer_info time d) (all_contacts d.table)

  -- `GET /peers`
  unfoldable pub handle_peers : (Contact → ℕ) → Dht → Response
  handle_peers time d = record { code = 200; body = peers_of (ping_all_peers time d) }

  -- `POST /peer?addr=...`: the node afterwards, the peers that are saved, and the response; `none` is
  -- a panic. The error of `SavePeers` is ignored.
  unfoldable pub handle_peer :
      Dht → Bytes → Bytes → Option (Dht × Option (List SavedPeer) × Response)
  handle_peer d method address =
      if not (bytes_eq method (codes "POST"))
      then some (d, none, record { code = 405; body = message (codes "POST required") })
      else if bytes_eq address []
      then some (d, none, record { code = 400; body = message (codes "addr required") })
      else elim (ping_peer env net d address).1 [
        | ok _ ↦ some (
          (ping_peer env net d address).0,
          some (save_peers env (ping_peer env net d address).0),
          record { code = 200; body = message (codes "ok") },
        )
        | err e ↦
            some ((ping_peer env net d address).0, none, record { code = 502; body = failure })
        | panics ↦ none
      ]

-- `GET /status`
unfoldable pub handle_status : Bytes → Bytes → Bytes → Dht → Response
handle_status node_name node_address node_public_key d = record {
  code = 200;
  body = status_of (record {
    name = node_name;
    address = node_address;
    public_key = node_public_key;
    peers = size d.table;
    records = Store.size d.store;
  });
}

-- `GET /lookup?name=alice&group=`; a panic is passed on.
unfoldable pub handle_lookup :
    (Bytes → Bytes → Outcome (Option Record)) → Bytes → Bytes → Outcome Response
handle_lookup look name group =
    if bytes_eq name []
    then ok (record { code = 400; body = message (codes "name required") })
    else elim (look name group) [
      | err e ↦ ok (record { code = 500; body = failure })
      | panics ↦ panics
      | ok found ↦ elim found [
        | none ↦ ok (record { code = 404; body = message (codes "not found") })
        | some r ↦ ok (record { code = 200; body = record_of r })
      ]
    ]
