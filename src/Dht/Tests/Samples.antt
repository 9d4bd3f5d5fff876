-- ===== src/Dht/Tests/Samples.antt =====
-- Sample identifiers, contacts, tables, and a toy cryptography that has the laws that are relied on.
use mesh_net.Base.{
  ℕ, ◌<◌, ◌≡◌, refl, Bool, true, ltb, ◌&&◌, ◌==◌, Option, none, some, List, [], ◌∷◌, ◌++◌, length,
  length-append, replicate, All, All-append, Bytes, IsByte, codes, arith,
}
use mesh_net.Crypto.{Crypto, IsCrypto}
use mesh_net.Dht.NodeId.{NodeId, IsNodeId, pos, hex_encode, to_string}
use mesh_net.Dht.Contact.{Contact}
use mesh_net.Dht.Store.{Record, Store}
use mesh_net.Dht.Rpc.{ContactInfo}
use mesh_net.Dht.Env.{Env}
use mesh_net.Dht.Table.{RoutingTable, new_routing_table, add}
use mesh_net.Dht.Table.Valid.{IsTable, new_routing_table-IsTable, add-IsTable}

abbrev pub is_bytes : Bytes → Bool
is_bytes [] = true
is_bytes (x ∷ b) = ltb x 256 && is_bytes b

pub is_bytes-IsByte : (b : Bytes) → is_bytes b ≡ true → All IsByte b
is_bytes-IsByte [] h = tt
is_bytes-IsByte (x ∷ b) h = (ground arith, is_bytes-IsByte b (ground arith))

-- An identifier that ends in a byte.
abbrev pub sample_id : ℕ → NodeId
sample_id n = replicate 31 0 ++ n ∷ []

pub sample_id-IsNodeId : (n : ℕ) → n < 256 → IsNodeId (sample_id n)
sample_id-IsNodeId n h = (refl, All-append IsByte (replicate 31 0) (n ∷ []) zeros (h, tt))
  where
    zeros : All IsByte (replicate 31 0)
    zeros = is_bytes-IsByte (replicate 31 0) refl

abbrev pub sample_contact : ℕ → Contact
sample_contact n = record { id = sample_id n; address = some (2 ∷ n ∷ []); port = pos 9_001 }

-- The node 0 knows the contacts 5 and 9.
abbrev pub empty_table : RoutingTable
empty_table = new_routing_table (sample_id 0)

abbrev pub sample_table : RoutingTable
sample_table = add (add empty_table (sample_contact 5)) (sample_contact 9)

pub sample_table-IsTable : IsTable sample_table
sample_table-IsTable =
    add-IsTable _ (sample_contact 9)
      (add-IsTable empty_table (sample_contact 5)
        (new_routing_table-IsTable (sample_id 0) (sample_id-IsNodeId 0 (omega arith)))
        (sample_id-IsNodeId 5 (omega arith)))
      (sample_id-IsNodeId 9 (omega arith))

abbrev pub toy : Crypto
toy = record {
  marshal_payload = λ p. p.name;
  sum_256 = λ b. sample_id 7;
  new_key = λ seed. seed ++ seed;
  verifies = λ key message sig. length sig == 64;
  signature = λ key message. key;
}

pub toy-IsCrypto : IsCrypto toy
toy-IsCrypto = record {
  sum_IsNodeId = λ b. sample_id-IsNodeId 7 (omega arith);
  key_length = λ seed h. omega (arith, length-append seed seed);
  key_bytes = λ seed h. All-append IsByte seed seed h h;
  signature_bytes = λ key message h. h;
  correct = λ seed message h. ground (arith, length-append seed seed);
}

-- A record of a node with the public key 1, 1, …, in the group "blue".
abbrev pub sample_record : Record
sample_record = record {
  name = codes "web";
  address = codes "200::1";
  public_key = hex_encode (replicate 32 1);
  services = none;
  group_key = codes "blue";
  signature = hex_encode (replicate 64 1);
  expires = pos 5;
}

abbrev pub sample_store : Store
sample_store = record { records = (sample_record.name, sample_record) ∷ [] }

-- The node 0 knows the contact 5.
abbrev pub small_table : RoutingTable
small_table = add empty_table (sample_contact 5)

pub small_table-IsTable : IsTable small_table
small_table-IsTable =
    add-IsTable empty_table (sample_contact 5)
      (new_routing_table-IsTable (sample_id 0) (sample_id-IsNodeId 0 (omega arith)))
      (sample_id-IsNodeId 5 (omega arith))

abbrev text_of : Option Bytes → Bytes
text_of none = codes "<nil>"
text_of (some b) = b

-- A text of one contact: its identifier alone.
abbrev nodes_text : Option (List ContactInfo) → Bytes
nodes_text none = []
nodes_text (some []) = []
nodes_text (some (ci ∷ cis)) = ci.id

abbrev text_nodes : Bytes → Option (List ContactInfo)
text_nodes [] = none
text_nodes (x ∷ b) = some (record { id = x ∷ b; addr = 2 ∷ 5 ∷ []; port = pos 9_001 } ∷ [])

-- Encoders that keep one field of each body, and decoders that fill in the others.
abbrev pub toy_env : Env
toy_env = record {
  crypto = toy;
  parse_ip = λ text. some text;
  ip_string = text_of;
  split_host_port = λ text. some (text, codes "9001");
  scan_int = λ text. pos 9_001;
  marshal_raw = λ text. some text;
  ping = record {
    marshal = λ p. p.sender_id;
    unmarshal =
        λ b. some (record { sender_id = b; sender_addr = 2 ∷ 6 ∷ []; sender_port = pos 9_001 });
  };
  pong = record {
    marshal = λ p. p.sender_id;
    unmarshal =
        λ b. some (record { sender_id = b; sender_addr = 2 ∷ 6 ∷ []; sender_port = pos 9_001 });
  };
  find_node = record {
    marshal = λ r. r.target_id;
    unmarshal = λ b. some (record { sender_id = to_string (sample_id 1); target_id = b });
  };
  found_nodes = record {
    marshal = λ r. nodes_text r.nodes;
    unmarshal = λ b. some (record { nodes = text_nodes b });
  };
  store = record {
    marshal = λ r. r.stored.name;
    unmarshal = λ b. some (record { stored = sample_record });
  };
  find_value = record {
    marshal = λ r. r.name;
    unmarshal = λ b.
        some (record { sender_id = to_string (sample_id 1); name = b; group_key = codes "blue" });
  };
  found_value = record {
    marshal = λ r. r.found.name;
    unmarshal = λ b. some (record { found = sample_record });
  };
}
