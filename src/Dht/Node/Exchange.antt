-- ===== src/Dht/Node/Exchange.antt =====
-- A request of dht/rpc.go against the handler of dht/dht.go that serves it.
use mesh_net.Base.{
  ℕ, ◌≡◌, ◌≤◌, refl, ap, sym, ◌∙◌, Bool, true, some, [], append-nil, length, Bytes, arith,
}
use mesh_net.Outcome.{ok}
use mesh_net.Dht.NodeId.{NodeId, IsNodeId, node_id_from_hex, to_string}
use mesh_net.Dht.NodeId.Hex.{node_id_from_hex-to_string}
use mesh_net.Dht.Table.{closest, bucket_size}
use mesh_net.Dht.Rpc.{
  Message, FindNodeBody, max_body, frame, read_message, write_message, msg_find_node,
  msg_found_nodes,
}
use mesh_net.Dht.Rpc.Frames.{read_message-frame}
use mesh_net.Dht.Env.{Codec, Env, Network}
use mesh_net.Dht.Client.{write_request, exchange, send_find_node}
use mesh_net.Dht.Node.{
  Dht, contact_infos, found_nodes_message, handle_find_node, handle_message, handle_connection,
}

-- A body that the encoders take, that is short enough to be read, and that is decoded to itself.
pub record IsCarried {T : Type 0} (env : Env) (codec : Codec T) (body : T) : Type 0 where
  pub raw : env.marshal_raw (codec.marshal body) ≡ some (codec.marshal body)
  pub short : length (codec.marshal body) ≤ max_body
  pub decoded : codec.unmarshal (codec.marshal body) ≡ some body

-- The node answers on the address: its connections take what is written, and bring back the frame
-- of the handler's reply.
pub record IsServing (env : Env) (net : Network) (address : Bytes) (now : ℕ) (d : Dht)
    : Type 0 where
  pub reachable : net.reachable address ≡ true
  pub taken : (sent : Bytes) → net.accepts address sent ≡ true
  pub answered :
      (sent bytes : Bytes) (d' : Dht) (reply : Message)
      → handle_connection env now d sent ≡ ok (d', some reply)
      → write_message env.marshal_raw (λ b. true) reply ≡ ok bytes
      → net.response address sent ≡ bytes

pub read_message-frame_alone :
    (type : ℕ) (body : Bytes)
    → length body ≤ max_body
    → read_message (frame type body) ≡ ok (record { type = type; body = body }, [])
read_message-frame_alone type body h =
    ap read_message (sym (append-nil (frame type body)))
    ∙ read_message-frame type body [] (omega arith)
    ∙ ground arith

module _ (env : Env) where
  pub write_message-frame :
      (accepts : Bytes → Bool) (type : ℕ) (body : Bytes)
      → ((sent : Bytes) → accepts sent ≡ true)
      → env.marshal_raw body ≡ some body
      → write_message env.marshal_raw accepts (record { type = type; body = body })
        ≡ ok (frame type body)
  unfolding write_message
  write_message-frame accepts type body h e = ground (arith, h (frame type body))

  serve_find_node :
      (now : ℕ) (d : Dht) (conn : Bytes) (req : FindNodeBody) (target : NodeId) (msg : Message)
      → read_message conn ≡ ok (msg, [])
      → msg.type ≡ msg_find_node
      → env.find_node.unmarshal msg.body ≡ some req
      → node_id_from_hex req.target_id ≡ ok target
      → handle_connection env now d conn
        ≡ ok (d, some (found_nodes_message env (closest d.table target bucket_size)))
  unfolding handle_connection handle_message handle_find_node
  serve_find_node now d conn req target msg read type decoded id = ground arith

  pub exchange-ok :
      (net : Network) (address sent : Bytes) (msg reply : Message)
      → write_request env net address msg ≡ ok sent
      → read_message (net.response address sent) ≡ ok (reply, [])
      → exchange env net address msg ≡ ok reply
  unfolding exchange
  exchange-ok net address sent msg reply e f = ground arith

  request_find_node : NodeId → NodeId → FindNodeBody
  request_find_node sender target = record {
    sender_id = to_string sender;
    target_id = to_string target;
  }

  -- `SendFindNode` to a node whose handler answers on the address returns the identifiers,
  -- addresses and ports that `Closest` gives on that node's table for a target of 32 bytes, in its
  -- order, where request and answer are encoded as JSON that decodes to them and have at most one
  -- MiB.
  pub send_find_node-handle_connection :
      (net : Network) (address : Bytes) (now : ℕ) (d : Dht) (sender target : NodeId)
      → IsServing env net address now d
      → IsNodeId target
      → IsCarried env env.find_node
          (record { sender_id = to_string sender; target_id = to_string target })
      → IsCarried env env.found_nodes
          (record { nodes = contact_infos env (closest d.table target bucket_size) })
      → send_find_node env net address sender target
        ≡ ok (contact_infos env (closest d.table target bucket_size))
  send_find_node-handle_connection net address now d sender target serving h request response =
      let body =
        env.find_node.marshal
          (record { sender_id = to_string sender; target_id = to_string target }) in
      let answer =
        env.found_nodes.marshal
          (record { nodes = contact_infos env (closest d.table target bucket_size) }) in
      let sent : write_request env net address (record { type = msg_find_node; body = body })
          ≡ ok (frame msg_find_node body) =
        unfold write_request in
        rw serving.reachable (
          write_message-frame (net.accepts address) msg_find_node body serving.taken request.raw) in
      let served =
        serve_find_node now d (frame msg_find_node body) _ target _
          (read_message-frame_alone msg_find_node body request.short) refl request.decoded
          (node_id_from_hex-to_string target h) in
      let received : net.response address (frame msg_find_node body)
          ≡ frame msg_found_nodes answer =
        serving.answered (frame msg_find_node body) (frame msg_found_nodes answer) d _ served (
          unfold found_nodes_message in
          write_message-frame (λ b. true) msg_found_nodes answer (λ b. refl) response.raw) in
      let replied = exchange-ok net address (frame msg_find_node body) _ _ sent (
        ap read_message received
        ∙ read_message-frame_alone msg_found_nodes answer response.short) in
      unfold send_find_node in ground (arith, replied, response.decoded)
