-- ===== src/Dht/Tests/Values.antt =====
-- Lookups of a value, at concrete nodes and networks.
use mesh_net.Sort.{sort_slice}
use mesh_net.Base.{
  ◌+◌, ◌*◌, ◌≤◌, ◌≡◌, refl, true, none, some, List, [], ◌∷◌, ◌⊎◌, Bytes, codes, arith, insert, sym,
  length, big_endian, lookup, bytes_eq,
}
use mesh_net.Outcome.{ok}
use mesh_net.Dht.NodeId.{
  pos, to_string, hex_encode, hex_decode, node_id_from_hex, copy_32, bucket_index,
}
use mesh_net.Dht.Contact.{Contact}
use mesh_net.Dht.Table.{add, closest, new_routing_table, add_to_bucket, index_of, bucket_size}
use mesh_net.Dht.Store.{new_store, record_id, get_public, get}
use mesh_net.Dht.Rpc.{
  frame, msg_found_value, read_message, read_full, read_body, write_message, put_uint_32,
  ContactInfo,
}
use mesh_net.Dht.Env.{Network, addr}
use mesh_net.Dht.Client.{send_find_value, exchange, read_value, found, closer}
use mesh_net.Dht.Lookup.{
  new_lookup_state, next_batch, next_batch_from, mark_contacted, is_contacted,
}
use mesh_net.Dht.Node.{local_value}
use mesh_net.Dht.Walk.{decode_infos}
use mesh_net.Dht.ValueLookup.{
  ValueLookup, begin_lookup, settle, Answered, Run, finished, choosing, waiting, returned, asking,
  launch, mark, answer, receive, here, next,
}
use mesh_net.Dht.ValueLookup.Valid.{AnswersAmong}
use mesh_net.Dht.ValueLookup.Measure.{Progress, lookup_value-Ends}
use mesh_net.Dht.ValueLookup.Origin.{IsAnswered, lookup_value-sourced, answer_returned_or_dropped}
use mesh_net.Dht.Tests.Samples.{
  sample_id, sample_contact, small_table-IsTable, toy-IsCrypto, toy_env, sample_record,
}
use mesh_net.Dht.Tests.Walks.{
  small_node, universe, nine_net, nine, nine_among, five_among, small_contacts,
}

abbrev IsNine : Network → Type 0
IsNine net = net ≡ nine_net 0

abbrev nine_infos : List ContactInfo
nine_infos = record { id = to_string (sample_id 9); addr = 2 ∷ 5 ∷ []; port = pos 9_001 } ∷ []

abbrev web : Bytes
web = codes "web"

abbrev start : ValueLookup
start = record {
  phase = choosing;
  lookup = record {
    target = sample_id 7;
    self = sample_id 0;
    contacted = [];
    candidates = sample_contact 5 ∷ [];
  };
  table = small_node.table;
  channel = none;
  workers = [];
}

-- The goroutine of the contact 5 has marked it.
abbrev asked : ValueLookup
asked = record start {
  phase = waiting;
  lookup = record start.lookup { contacted = (sample_id 5, true) ∷ [] };
  workers = asking (sample_contact 5) ∷ [];
}

nine_answer :
    (c : Contact)
    → send_find_value toy_env (nine_net 0) (addr toy_env c) small_node.table.self web []
      ≡ ok (closer (some nine_infos))
unfolding send_find_value exchange write_message read_message read_full frame put_uint_32 to_string
    hex_encode read_body read_value big_endian
nine_answer c = refl

nine_decoded : decode_infos toy_env nine_infos ≡ nine ∷ []
unfolding decode_infos node_id_from_hex hex_decode copy_32 to_string hex_encode
nine_decoded = refl

net-AnswersAmong : AnswersAmong toy_env IsNine small_node.table.self web [] universe
net-AnswersAmong c infos (net, same, e) =
    let known : nine_infos ≡ infos = ground (arith, rw same at e, nine_answer c) in
    rw (sym known, nine_decoded) nine_among

seeds : closest small_node.table (sample_id 7) bucket_size ≡ sample_contact 5 ∷ []
unfolding closest sort_slice
seeds = rw small_contacts refl

-- The lookup of a name that the node does not hold begins with the contact 5.
begun : begin_lookup toy_env 0 small_node web [] ≡ start
unfolding begin_lookup local_value get_public get lookup record_id new_store copy_32
    new_lookup_state bytes_eq add new_routing_table bucket_index add_to_bucket index_of
begun = rw seeds refl

start_batch : next_batch start.lookup ≡ sample_contact 5 ∷ []
unfolding next_batch next_batch_from is_contacted lookup
start_batch = refl

first_step :
    (Occurs : Network → Type 0)
    → Run toy_env Occurs small_node.table.self web []
        (begin_lookup toy_env 0 small_node web [])
        2
        asked
unfolding mark_contacted lookup insert
first_step Occurs = rw begun (
    next (next here (launch (sample_contact 5) [] refl start_batch refl) refl)
      (mark [] [] (sample_contact 5) refl refl) refl)

lookup_value-Ends_example :
    (2 ≤ 10 * length universe + 1) × Progress toy_env IsNine small_node.table.self web [] asked
lookup_value-Ends_example =
    lookup_value-Ends universe toy_env IsNine 0 small_node web [] 2 asked toy-IsCrypto
      small_table-IsTable (rw small_contacts five_among) net-AnswersAmong (first_step IsNine)

-- Every peer answers each request with the record "web", which nobody has to have signed.
abbrev value_net : Network
value_net = record {
  reachable = λ address. true;
  accepts = λ address sent. true;
  response = λ address sent. frame msg_found_value web;
}

abbrev IsValueNet : Network → Type 0
IsValueNet net = net ≡ value_net

value_answer :
    (c : Contact)
    → Answered toy_env IsValueNet small_node.table.self web [] c (ok (found sample_record))
unfolding send_find_value exchange write_message read_message read_full frame put_uint_32 to_string
    hex_encode read_body read_value big_endian
value_answer c = (value_net, refl, refl)

abbrev returns_record : ValueLookup
returns_record = record asked {
  phase = returned (ok (some sample_record));
  workers = finished ∷ [];
}

value_returned :
    Run toy_env IsValueNet small_node.table.self web []
      (begin_lookup toy_env 0 small_node web [])
      4
      returns_record
unfolding settle
value_returned =
    next
      (next (first_step IsValueNet)
        (answer [] [] (sample_contact 5) (ok (found sample_record)) refl
          (value_answer (sample_contact 5)) refl)
        refl)
      (receive sample_record refl refl refl) refl

lookup_value-sourced_example :
    (local_value 0 small_node.store web [] ≡ some sample_record)
    ⊎ IsAnswered toy_env IsValueNet small_node.table.self web [] sample_record
lookup_value-sourced_example =
    lookup_value-sourced toy_env IsValueNet small_node.table.self web [] 0 small_node 4
      returns_record sample_record value_returned refl

answer_returned_or_dropped_example :
    ((t : ValueLookup) × Run toy_env IsValueNet small_node.table.self web [] asked 2 t
      × (t.phase ≡ returned (ok (some sample_record))))
    × ((t : ValueLookup) × Run toy_env IsValueNet small_node.table.self web [] asked 2 t
        × (t.phase ≡ choosing)
        × (t.channel ≡ some sample_record))
answer_returned_or_dropped_example =
    answer_returned_or_dropped toy_env IsValueNet small_node.table.self web [] asked [] []
      (sample_contact 5) sample_record refl refl refl (refl, tt) (value_answer (sample_contact 5))
