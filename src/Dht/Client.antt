-- ===== src/Dht/Client.antt =====
-- The requests of dht/rpc.go: each dials an address, writes one frame and, but for `SendStore`,
-- reads one frame back.
use mesh_net.Base.{not, ◌==◌, if◌then◌else◌, Option, none, some, List, Bytes}
use mesh_net.Outcome.{Outcome, ok, err, ◌>>=◌, connect_failed, unexpected_type, decode_failed}
use mesh_net.Dht.NodeId.{NodeId, to_string}
use mesh_net.Dht.Contact.{Contact}
use mesh_net.Dht.Store.{Record}
use mesh_net.Dht.Rpc.{
  Message, PongBody, ContactInfo, write_message, read_message, msg_ping, msg_pong, msg_find_node,
  msg_found_nodes, msg_store, msg_find_value, msg_found_value, msg_not_found,
}
use mesh_net.Dht.Env.{Env, Network}

-- `found` is `&found.Record, nil, nil`; `closer` is `nil, nodes.Nodes, nil`; `nothing` is
-- `nil, nil, nil`.
pub data FindValueResult : Type 0 where
  found : Record → FindValueResult
  closer : Option (List ContactInfo) → FindValueResult
  nothing : FindValueResult

abbrev decoded {ℓ} : {A : Type ℓ} → Option A → Outcome A
decoded none = err decode_failed
decoded (some a) = ok a

module _ (env : Env) (net : Network) where
  unfoldable pub write_request : Bytes → Message → Outcome Bytes
  write_request address msg =
      if not (net.reachable address)
      then err connect_failed
      else write_message env.marshal_raw (net.accepts address) msg

  -- Dial, write the request, read the response.
  unfoldable pub exchange : Bytes → Message → Outcome Message
  unfolding write_request
  exchange address msg = do
    sent ← write_request address msg
    (response, _) ← read_message (net.response address sent)
    ok response

  unfoldable pub send_ping : Bytes → Contact → Outcome PongBody
  send_ping address self = do
    response ← exchange address (record {
      type = msg_ping;
      body = env.ping.marshal (record {
        sender_id = to_string self.id;
        sender_addr = env.ip_string self.address;
        sender_port = self.port;
      });
    })
    if response.type == msg_pong
        then decoded (env.pong.unmarshal response.body)
        else err unexpected_type

  unfoldable pub send_find_node : Bytes → NodeId → NodeId → Outcome (Option (List ContactInfo))
  send_find_node address sender target = do
    response ← exchange address (record {
      type = msg_find_node;
      body =
          env.find_node.marshal
            (record { sender_id = to_string sender; target_id = to_string target });
    })
    if response.type == msg_found_nodes
        then (do nodes ← decoded (env.found_nodes.unmarshal response.body); ok nodes.nodes)
        else err unexpected_type

  unfoldable pub send_store : Bytes → Record → Outcome Bytes
  send_store address r =
      write_request address
        (record { type = msg_store; body = env.store.marshal (record { stored = r }) })

  unfoldable pub read_value : Message → Outcome FindValueResult
  read_value response =
      if response.type == msg_found_value
      then (do value ← decoded (env.found_value.unmarshal response.body); ok (found value.found))
      else if response.type == msg_found_nodes
      then (do nodes ← decoded (env.found_nodes.unmarshal response.body); ok (closer nodes.nodes))
      else if response.type == msg_not_found
      then ok nothing
      else err unexpected_type

  unfoldable pub send_find_value : Bytes → NodeId → Bytes → Bytes → Outcome FindValueResult
  send_find_value address sender name group_key = do
    response ← exchange address (record {
      type = msg_find_value;
      body =
          env.find_value.marshal
            (record { sender_id = to_string sender; name = name; group_key = group_key });
    })
    read_value response
