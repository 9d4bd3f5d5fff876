-- ===== src/Dht/Tests/Walks.antt =====
-- Lookups and announcements, at concrete values.
use mathlib.Core.List.{Permᴰ}
use mathlib.Core.Path.{subst}
use mesh_net.Base.{
  Option, Bytes, map, ◌≢◌, ℕ, ◌≡◌, refl, true, some, List, [], ◌∷◌, bytes_eq, codes, big_endian,
  arith,
}
use mesh_net.Dht.NodeId.{
  NodeId, to_string, hex_encode, hex_decode, node_id_from_hex, copy_32, pos, bucket_index,
}
use mesh_net.Dht.Contact.{Contact, has_id}
use mesh_net.Dht.Table.{
  RoutingTable, add, closest, bucket_size, all_contacts, new_routing_table, add_to_bucket, index_of,
}
use mesh_net.Dht.Store.{new_store, record_id}
use mesh_net.Dht.Store.Valid.{StoreReach, StoreReach-new_store}
use mesh_net.Dht.Lookup.{LookupState, new_lookup_state, add_candidates}
use mesh_net.Dht.Lookup.Adding.{IsLookup, add_candidates-IsLookup}
use mesh_net.Dht.Rpc.{
  frame, msg_found_nodes, msg_pong, read_message, read_full, read_body, write_message, put_uint_32,
}
use mesh_net.Dht.Env.{Network, addr}
use mesh_net.Dht.Client.{send_find_node, exchange}
use mesh_net.Dht.Node.{Dht}
use mesh_net.Dht.Node.Valid.{IsNode}
use mesh_net.Dht.Walk.{ask, decode_infos, lookup_node}
use mesh_net.Dht.Walk.Open.{contains}
use mesh_net.Dht.Walk.Round.{AreAmong, Arrives, Answers}
use mesh_net.Dht.Walk.Ends.{IsFound, lookup_node-Ends}
use mesh_net.Dht.Walk.Seeds.{closest-IsLookup}
use mesh_net.Dht.Announce.{Announced, announce}
use mesh_net.Dht.Announce.Ends.{IsAnnounced, announce-Ends}
use mesh_net.Dht.Peers.{
  SavedPeer, peers_file, save_peers, save_to, save_text, load_peers, ping_each,
}
use mesh_net.Dht.Peers.Restored.{file_text, load_peers-save_to}
use mesh_net.Core.Identity.{Disk, write_file}
use mesh_net.Outcome.{ok, missing}
use mesh_net.Dht.Tests.Samples.{
  sample_id, sample_id-IsNodeId, sample_contact, sample_table, sample_table-IsTable, toy,
  toy-IsCrypto, sample_record, toy_env, small_table, small_table-IsTable,
}

abbrev start : LookupState
start =
    new_lookup_state sample_table.self (sample_id 8)
      (closest sample_table (sample_id 8) bucket_size)

start-IsLookup : IsLookup start
start-IsLookup =
    closest-IsLookup sample_table (sample_id 8) sample_table-IsTable
      (sample_id-IsNodeId 8 (omega arith))

abbrev offered : List Contact
offered = sample_contact 6 ∷ sample_contact 0 ∷ []

add_candidates-IsLookup_example : IsLookup (add_candidates start offered)
add_candidates-IsLookup_example =
    add_candidates-IsLookup start offered start-IsLookup
      (sample_id-IsNodeId 6 (omega arith), (sample_id-IsNodeId 0 (omega arith), tt))

-- Every peer answers each request with the contact 9.
abbrev pub nine_net : ℕ → Network
nine_net n = record {
  reachable = λ address. true;
  accepts = λ address sent. true;
  response = λ address sent. frame msg_found_nodes (to_string (sample_id 9));
}

abbrev pub in_order : ℕ → List (List Contact) → List (List Contact)
in_order n results = results

same_order : (results : List (List Contact)) → Permᴰ results results
same_order [] = Permᴰ.nil
same_order (cs ∷ results) = Permᴰ.cons refl (same_order results)

pub in_order-Arrives : Arrives in_order
in_order-Arrives n results = same_order results

abbrev pub universe : List NodeId
universe = sample_id 5 ∷ sample_id 9 ∷ []

abbrev pub nine : Contact
nine = record { id = sample_id 9; address = some (2 ∷ 5 ∷ []); port = pos 9_001 }

asked_nine :
    (n : ℕ) (self target : NodeId) (c : Contact)
    → ask toy_env nine_net n self target c ≡ some (nine ∷ [])
unfolding ask send_find_node exchange write_message read_message read_full frame put_uint_32
    to_string hex_encode read_body big_endian decode_infos node_id_from_hex hex_decode copy_32
asked_nine n self target c = refl

pub nine_among : AreAmong universe (nine ∷ [])
unfolding has_id contains
nine_among q h = ground arith

pub nine_net-Answers : (self target : NodeId) → Answers toy_env nine_net universe self target
nine_net-Answers self target n c cs e =
    subst (AreAmong universe) (ground (arith, e, asked_nine n self target c)) nine_among

pub small_contacts : all_contacts small_table ≡ sample_contact 5 ∷ []
unfolding all_contacts add bytes_eq new_routing_table bucket_index add_to_bucket index_of
small_contacts = refl

pub five_among : AreAmong universe (sample_contact 5 ∷ [])
unfolding has_id contains
five_among q h = ground arith

lookup_node-Ends_example :
    (after : RoutingTable) × (found : List Contact) × (lookup_node toy_env nine_net in_order 3
        small_table
        (sample_id 8)
      ≡ some (after, found))
    × IsFound small_table (sample_id 8) after found
lookup_node-Ends_example =
    lookup_node-Ends toy_env nine_net in_order universe 3 small_table (sample_id 8) in_order-Arrives
      (nine_net-Answers small_table.self (sample_id 8)) small_table-IsTable
      (sample_id-IsNodeId 8 (omega arith)) (rw small_contacts five_among) (omega arith)

abbrev pub small_node : Dht
small_node = record {
  address = codes "200::1";
  port = pos 9_001;
  table = small_table;
  store = new_store;
}

pub small_node-IsNode : IsNode toy_env small_node
small_node-IsNode = record {
  table = small_table-IsTable;
  store = StoreReach-new_store toy StoreReach.here;
}

announce-Ends_example :
    (a : Announced) × (announce toy_env nine_net in_order (nine_net 0) 3 0 small_node sample_record
      ≡ some a)
    × IsAnnounced toy_env 0 small_node sample_record a
announce-Ends_example =
    announce-Ends toy_env nine_net in_order (nine_net 0) universe 3 0 small_node sample_record
      toy-IsCrypto in_order-Arrives
      (nine_net-Answers small_table.self (record_id toy (codes "web"))) small_node-IsNode
      (rw small_contacts five_among) (omega arith)

-- A peer that answers a ping.
abbrev pub pong_net : Network
pong_net = record {
  reachable = λ address. true;
  accepts = λ address sent. true;
  response = λ address sent. frame msg_pong (to_string (sample_id 6));
}

abbrev encode : List SavedPeer → Option Bytes
encode peers = some (codes "[]")

abbrev decode : Bytes → Option (List SavedPeer)
decode text = some (save_peers toy_env small_node)

abbrev blank_disk : Disk
blank_disk = record { read = λ path. missing; writable = λ path. true }

abbrev saved_disk : Disk
saved_disk = write_file blank_disk peers_file (codes "[]")

has_peer : all_contacts small_table ≢ []
has_peer h = cc (h, small_contacts)

saves : save_to toy_env encode blank_disk small_node ≡ (ok tt, saved_disk)
unfolding save_to save_text save_peers all_contacts add bytes_eq new_routing_table bucket_index
    add_to_bucket index_of
saves = refl

load_peers-save_to_example :
    load_peers toy_env pong_net
      (λ addrs. addrs)
      decode
      small_node
      (file_text (saved_disk.read peers_file))
    ≡ ping_each toy_env pong_net small_node (map (addr toy_env) (all_contacts small_table))
load_peers-save_to_example =
    load_peers-save_to toy_env encode pong_net (λ addrs. addrs) decode small_node small_node
      blank_disk saved_disk has_peer (λ text h. refl) saves
