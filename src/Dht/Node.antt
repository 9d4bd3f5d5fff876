-- ===== src/Dht/Node.antt =====
-- The node of dht/dht.go: its state, and the handler of one connection. The handlers of several
-- connections run side by side; each step on the table or the store holds its lock.
pub mod Valid
pub mod Privacy
pub mod Exchange
pub mod Publishing
use mesh_net.Base.{
  ℕ, zero, suc, ◌≡◌, Bool, true, false, not, ◌==◌, if◌then◌else◌, Option, none, some, List, [], ◌∷◌,
  map, Bytes, bytes_eq, codes,
}
use mesh_net.Outcome.{Outcome, ok, err, panics, ◌>>=◌}
use mesh_net.Dht.NodeId.{NodeId, ℤ, pos, negsuc, to_string, node_id_from_hex}
use mesh_net.Dht.Contact.{Contact}
use mesh_net.Dht.Table.{RoutingTable, new_routing_table, bucket_size, add, closest}
use mesh_net.Dht.Store.{Record, Store, new_store, get_public, get_for_group, put, record_id}
use mesh_net.Dht.Rpc.{
  Message, ContactInfo, read_message, msg_ping, msg_pong, msg_find_node, msg_found_nodes, msg_store,
  msg_find_value, msg_found_value, msg_not_found,
}
use mesh_net.Dht.Env.{Env}

-- `const DHTPort = 9001`
abbrev pub dht_port : ℕ
dht_port = 9001

pub record Dht : Type 0 where
  pub address : Bytes
  pub port : ℤ
  pub table : RoutingTable
  pub store : Store

abbrev default_port : ℤ → ℤ
default_port (pos n) = if n == 0 then pos dht_port else pos n
default_port (negsuc n) = negsuc n

unfoldable pub new : Bytes → NodeId → ℤ → Dht
new address self_id port = record {
  address = address;
  port = default_port port;
  table = new_routing_table self_id;
  store = new_store;
}

-- The state after a handler, and the message that it writes to the connection, if any. What
-- `writeMessage` returns is ignored there.
abbrev pub Reply : Type 0
Reply = Dht × Option Message

-- `d.table.Add(Contact{…})` if the identifier can be parsed.
unfoldable pub add_sender : Dht → Outcome NodeId → Option Bytes → ℤ → Dht
add_sender d (ok id) address port = record d {
  table = add d.table (record { id = id; address = address; port = port });
}
add_sender d (err e) address port = d
add_sender d panics address port = d

-- The records that a lookup of the local store gives, by the group key of the request.
unfoldable pub local_value : ℕ → Store → Bytes → Bytes → Option Record
local_value now s name group_key =
    if bytes_eq group_key [] then get_public now s name else get_for_group now s name group_key

module _ (env : Env) where
  unfoldable pub contact_info : Contact → ContactInfo
  contact_info c = record { id = to_string c.id; addr = env.ip_string c.address; port = c.port }

  -- The loop that fills `contacts`; with no contact it stays nil.
  unfoldable pub contact_infos : List Contact → Option (List ContactInfo)
  contact_infos [] = none
  contact_infos (c ∷ cs) = some (map contact_info (c ∷ cs))

  unfoldable pub handle_ping : Dht → Message → Reply
  handle_ping d msg = elim (env.ping.unmarshal msg.body) [
    | none ↦ (d, none)
    | some ping ↦
        let d' =
          add_sender d (node_id_from_hex ping.sender_id) (env.parse_ip ping.sender_addr)
            ping.sender_port in
        (
          d',
          some (record {
            type = msg_pong;
            body = env.pong.marshal (record {
              sender_id = to_string d'.table.self;
              sender_addr = d'.address;
              sender_port = d'.port;
            });
          }),
        )
  ]

  unfoldable pub found_nodes_message : List Contact → Message
  found_nodes_message cs = record {
    type = msg_found_nodes;
    body = env.found_nodes.marshal (record { nodes = contact_infos cs });
  }

  unfoldable pub handle_find_node : Dht → Message → Reply
  handle_find_node d msg = elim (env.find_node.unmarshal msg.body) [
    | none ↦ (d, none)
    | some req ↦ elim (node_id_from_hex req.target_id) [
      | ok target ↦ (d, some (found_nodes_message (closest d.table target bucket_size)))
      | err e ↦ (d, none)
      | panics ↦ (d, none)
    ]
  ]

  -- The error of `Put` is ignored; its panic ends the process.
  unfoldable pub handle_store : ℕ → Dht → Message → Outcome Reply
  handle_store now d msg = elim (env.store.unmarshal msg.body) [
    | none ↦ ok (d, none)
    | some req ↦
        let (s, result) = put env.crypto now d.store req.stored in
        elim result [
          | ok _ ↦ ok (record d { store = s }, none)
          | err e ↦ ok (record d { store = s }, none)
          | panics ↦ panics
        ]
  ]

  unfoldable pub not_found_reply : Dht → Bytes → Reply
  not_found_reply d name = elim (closest d.table (record_id env.crypto name) bucket_size) [
    | [] ↦ (d, some (record { type = msg_not_found; body = codes "{}" }))
    | c ∷ cs ↦ (d, some (found_nodes_message (c ∷ cs)))
  ]

  unfoldable pub handle_find_value : ℕ → Dht → Message → Reply
  handle_find_value now d msg = elim (env.find_value.unmarshal msg.body) [
    | none ↦ (d, none)
    | some req ↦ elim (local_value now d.store req.name req.group_key) [
      | some r ↦ (
        d,
        some (record {
          type = msg_found_value;
          body = env.found_value.marshal (record { found = r });
        }),
      )
      | none ↦ not_found_reply d req.name
    ]
  ]

  -- The switch of `handleConnection`.
  unfoldable pub handle_message : ℕ → Dht → Message → Outcome Reply
  handle_message now d msg =
      if msg.type == msg_ping
      then ok (handle_ping d msg)
      else if msg.type == msg_find_node
      then ok (handle_find_node d msg)
      else if msg.type == msg_store
      then handle_store now d msg
      else if msg.type == msg_find_value
      then ok (handle_find_value now d msg)
      else ok (d, none)

  unfoldable pub handle_connection : ℕ → Dht → Bytes → Outcome Reply
  handle_connection now d conn = elim (read_message conn) [
    | ok (msg, _) ↦ handle_message now d msg
    | err e ↦ ok (d, none)
    | panics ↦ panics
  ]
