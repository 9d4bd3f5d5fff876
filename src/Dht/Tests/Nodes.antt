-- ===== src/Dht/Tests/Nodes.antt =====
-- A node and a toy network: connections, requests and announcements at concrete values.
use mesh_net.Base.{
  ◌+◌, ◌^◌, ◌%◌, ◌≡◌, refl, true, false, ltb, if◌then◌else◌, some, none, [], ◌∷◌, ◌++◌, length,
  Bytes, bytes_eq, codes, lookup, big_endian, arith,
}
use mesh_net.Outcome.{Outcome, ok, err, panics, message_too_large}
use mesh_net.Sort.{sort_slice}
use mesh_net.Dht.NodeId.{to_string, hex_encode, pos, bucket_index}
use mesh_net.Dht.Table.{
  add, closest, bucket_size, all_contacts, new_routing_table, add_to_bucket, index_of,
}
use mesh_net.Dht.Store.{Record, new_store, is_expired, get, get_for_group}
use mesh_net.Dht.Store.Valid.{StoreReach, StoreReach-new_store}
use mesh_net.Dht.Rpc.{
  Message, FindValueBody, max_body, frame, put_uint_32, read_full, read_body, read_message,
  write_message, msg_ping, msg_found_value,
}
use mesh_net.Dht.Rpc.Frames.{big_endian-put_uint_32, read_message-frame}
use mesh_net.Dht.Env.{Network}
use mesh_net.Dht.Client.{send_find_node, send_store, send_find_value, found}
use mesh_net.Dht.Store.Put.{accepts, is_free}
use mesh_net.Dht.Node.Publishing.{send_find_value-send_store}
use mesh_net.Dht.Node.{
  Dht, Reply, contact_info, contact_infos, handle_ping, handle_find_value, handle_message,
  handle_connection, local_value,
}
use mesh_net.Dht.Node.Valid.{IsNode, handle_connection-IsNode}
use mesh_net.Dht.Node.Privacy.{handle_find_value_private}
use mesh_net.Dht.Node.Exchange.{IsCarried, IsServing, send_find_node-handle_connection}
use mesh_net.Dht.Life.{NodeStep, NodeReach, serves_verified}
use mesh_net.Base.{insert}
use mesh_net.Crypto.{ed25519_verify}
use mesh_net.Dht.NodeId.{hex_decode}
use mesh_net.Dht.Store.{put, verify, verify_decoded, put_locked}
use mesh_net.Dht.Store.Valid.{StoreStep}
use mesh_net.Dht.Node.{new}
use mesh_net.Dht.Tests.Samples.{
  sample_record, sample_id, sample_id-IsNodeId, sample_contact, sample_table, sample_table-IsTable,
  toy, sample_store, toy_env, small_table,
}

big_endian-put_uint_32_example : big_endian (put_uint_32 (2 ^ 32 + 7)) ≡ (2 ^ 32 + 7) % 2 ^ 32
big_endian-put_uint_32_example = big_endian-put_uint_32 (2 ^ 32 + 7)

read_message-frame_example : read_message (frame 3 (codes "{}") ++ codes "rest") ≡ (
    if ltb max_body (length (codes "{}"))
    then err message_too_large
    else ok (record { type = 3; body = codes "{}" }, codes "rest"))
read_message-frame_example = read_message-frame 3 (codes "{}") (codes "rest") (omega arith)

abbrev sample_frame : Bytes
sample_frame = 3 ∷ 0 ∷ 0 ∷ 0 ∷ 2 ∷ codes "{}!"

read_frame : read_message sample_frame ≡ ok (record { type = 3; body = codes "{}" }, codes "!")
unfolding read_message read_full read_body big_endian
read_frame = refl

abbrev sample_node : Dht
sample_node = record {
  address = codes "200::1";
  port = pos 9_001;
  table = sample_table;
  store = new_store;
}

sample_node-IsNode : IsNode toy_env sample_node
sample_node-IsNode = record {
  table = sample_table-IsTable;
  store = StoreReach-new_store toy StoreReach.here;
}

abbrev ping_six : Message
ping_six = record { type = msg_ping; body = to_string (sample_id 6) }

abbrev pinged : Reply
pinged = handle_ping toy_env sample_node ping_six

served_ping :
    handle_connection toy_env 0 sample_node (frame msg_ping (to_string (sample_id 6))) ≡ ok pinged
unfolding handle_connection handle_message read_message read_full read_body big_endian frame
    put_uint_32 to_string hex_encode
served_ping = refl

handle_connection-IsNode_example : IsNode toy_env pinged.0
handle_connection-IsNode_example =
    handle_connection-IsNode toy_env 0 sample_node pinged.0
      (frame msg_ping (to_string (sample_id 6))) pinged.1 served_ping sample_node-IsNode

abbrev blue_node : Dht
blue_node = record sample_node { store = sample_store }

abbrev ask_web : Message
ask_web = record { type = 5; body = codes "web" }

abbrev web_reply : Message
web_reply = record { type = msg_found_value; body = codes "web" }

served_web : handle_find_value toy_env 0 blue_node ask_web ≡ (blue_node, some web_reply)
unfolding handle_find_value local_value bytes_eq get_for_group get lookup is_expired
served_web = refl

handle_find_value_private_example :
    (req : FindValueBody) × (r : Record) × (toy_env.find_value.unmarshal (codes "web") ≡ some req)
    × (codes "web" ≡ toy_env.found_value.marshal (record { found = r }))
    × (lookup req.name sample_store.records ≡ some r)
    × (is_expired 0 r ≡ false)
    × (r.group_key ≡ req.group_key)
handle_find_value_private_example =
    handle_find_value_private toy_env 0 blue_node blue_node ask_web web_reply served_web refl

abbrev small_node : Dht
small_node = record sample_node { table = small_table }

abbrev pub written : Outcome Bytes → Bytes
written (ok bytes) = bytes
written (err e) = []
written panics = []

abbrev pub answer_of : Outcome Reply → Bytes
answer_of (ok (d, some reply)) = written (write_message toy_env.marshal_raw (λ b. true) reply)
answer_of (ok (d, none)) = []
answer_of (err e) = []
answer_of panics = []

-- The network of one node.
abbrev small_net : Network
small_net = record {
  reachable = λ address. true;
  accepts = λ address sent. true;
  response = λ address sent. answer_of (handle_connection toy_env 0 small_node sent);
}

small_net-IsServing : IsServing toy_env small_net (codes "a") 0 small_node
small_net-IsServing = record {
  reachable = refl;
  taken = λ sent. refl;
  answered = λ sent bytes d' reply h k. ground (arith, h, k);
}

request_IsCarried :
    IsCarried toy_env toy_env.find_node
      (record { sender_id = to_string (sample_id 1); target_id = to_string (sample_id 8) })
unfolding to_string hex_encode
request_IsCarried = record { raw = refl; short = omega arith; decoded = refl }

small_closest : closest small_table (sample_id 8) bucket_size ≡ sample_contact 5 ∷ []
unfolding closest add sort_slice all_contacts bytes_eq new_routing_table bucket_index add_to_bucket
    index_of
small_closest = refl

infos_IsCarried :
    IsCarried toy_env toy_env.found_nodes
      (record { nodes = contact_infos toy_env (sample_contact 5 ∷ []) })
unfolding contact_infos contact_info to_string hex_encode
infos_IsCarried = record { raw = refl; short = omega arith; decoded = refl }

send_find_node-handle_connection_example :
    send_find_node toy_env small_net (codes "a") (sample_id 1) (sample_id 8)
    ≡ ok (contact_infos toy_env (closest small_table (sample_id 8) bucket_size))
send_find_node-handle_connection_example =
    send_find_node-handle_connection toy_env small_net (codes "a") 0 small_node (sample_id 1)
      (sample_id 8) small_net-IsServing (sample_id-IsNodeId 8 (omega arith)) request_IsCarried
      (rw small_closest infos_IsCarried)

abbrev pub newborn : Dht
newborn = new (codes "200::1") (sample_id 0) (pos 0)

-- The node after it took a record.
abbrev stocked : Dht
stocked = record newborn { store = (put toy 0 newborn.store sample_record).0 }

stocked-NodeReach : NodeReach toy_env newborn stocked
stocked-NodeReach = NodeReach.step NodeReach.start (
    NodeStep.storing newborn (put toy 0 newborn.store sample_record).0
      (StoreStep.putting 0 newborn.store sample_record))

served_stocked : handle_find_value toy_env 0 stocked ask_web ≡ (stocked, some web_reply)
unfolding handle_find_value local_value get_for_group get put bytes_eq lookup is_expired verify
    hex_decode hex_encode verify_decoded ed25519_verify put_locked new new_store insert
served_stocked = refl

serves_verified_example :
    (req : FindValueBody) × (r : Record) × (toy_env.find_value.unmarshal (codes "web") ≡ some req)
    × (codes "web" ≡ toy_env.found_value.marshal (record { found = r }))
    × (req.name ≡ r.name)
    × (verify toy r ≡ ok tt)
    × (is_expired 0 r ≡ false)
    × (r.group_key ≡ req.group_key)
serves_verified_example =
    serves_verified toy_env (codes "200::1") (sample_id 0) (pos 0) 0 stocked stocked ask_web
      web_reply (sample_id-IsNodeId 0 (omega arith)) stocked-NodeReach served_stocked refl

-- A network that takes each request, and answers as the node with the stored record.
abbrev stocked_net : Network
stocked_net = record {
  reachable = λ address. true;
  accepts = λ address sent. true;
  response = λ address sent. answer_of (handle_connection toy_env 9 stocked sent);
}

stocked_net-IsServing : IsServing toy_env stocked_net (codes "a") 9 stocked
stocked_net-IsServing = record {
  reachable = refl;
  taken = λ sent. refl;
  answered = λ sent bytes d' reply h k. ground (arith, h, k);
}

takes_sample : accepts toy 0 newborn.store sample_record ≡ true
unfolding accepts is_expired verify hex_decode hex_encode verify_decoded ed25519_verify is_free new
    new_store lookup
takes_sample = refl

fresh_sample : is_expired 9 sample_record ≡ false
unfolding is_expired
fresh_sample = refl

send_find_value-send_store_example :
    (sent : Bytes) × (send_store toy_env small_net (codes "a") sample_record ≡ ok sent)
    × (handle_connection toy_env 0 newborn sent ≡ ok (stocked, none))
    × (send_find_value toy_env stocked_net
          (codes "a")
          (sample_id 1)
          sample_record.name
          sample_record.group_key
        ≡ ok (found sample_record))
send_find_value-send_store_example =
    send_find_value-send_store toy_env small_net stocked_net (codes "a") (codes "a") 0 9 newborn
      (sample_id 1) sample_record refl (λ sent. refl) takes_sample fresh_sample
      stocked_net-IsServing (record { raw = refl; short = omega arith; decoded = refl })
      (record { raw = refl; short = omega arith; decoded = refl })
      (record { raw = refl; short = omega arith; decoded = refl })
