-- ===== src/Cli/Tests/Worlds.antt =====
-- A world in which `cmdStart` of cli/cli.go brings a node up.
use mesh_net.Base.{
  ◌≡◌, refl, Bool, true, false, ◌==◌, none, some, [], drop, replicate, Bytes, bytes_eq, codes,
  arith,
}
use mesh_net.Outcome.{Outcome, ok, err, panics, missing}
use mesh_net.Crypto.{public}
use mesh_net.Dht.NodeId.{pos, hex_encode, copy_32}
use mesh_net.Dht.Table.{add}
use mesh_net.Dht.Table.Valid.{add-IsTable}
use mesh_net.Dht.Env.{Codec}
use mesh_net.Dht.Node.{Dht}
use mesh_net.Dht.Node.Valid.{IsNode}
use mesh_net.Dht.Tests.Samples.{toy, toy_env, sample_id-IsNodeId, sample_contact}
use mesh_net.Dht.Tests.Walks.{nine_net, in_order, pong_net}
use mesh_net.Core.Identity.{
  Identity, Keys, Disk, load_or_create_identity, try_read_yggdrasil_identity, load_own_identity,
  create_and_save_identity, identity_file_path, write_file,
}
use mesh_net.Core.Cert.{X509, IsX509, generate_self_signed_cert}
use mesh_net.Core.Node.{YggCore, Yggdrasil, Node, new_node, start_admin, start_core, start_keys}
use mesh_net.Core.Node
use mesh_net.Core.Node.Started.{IsYggdrasil}
use mesh_net.Core.YggService.{Host}
use mesh_net.Cli.Start.{World, Flags}

abbrev core_of : Outcome Bytes → Outcome YggCore
core_of (ok key) = ok (record { address = codes "200::1"; public_key = key })
core_of (err e) = err e
core_of panics = panics

-- A library that takes the public key of the certificate.
abbrev pub sample_ygg : Yggdrasil
sample_ygg = record {
  new_core = λ cert. core_of (public cert.private_key);
  new_admin = λ core. ok false;
  parse_url = λ url. some url;
  add_peer = λ core url. ok tt;
}

pub sample_ygg-IsYggdrasil : IsYggdrasil sample_ygg
sample_ygg-IsYggdrasil = record { keyed = λ cert core h. taken (public cert.private_key) core h }
  where
    taken : (o : Outcome Bytes) (core : YggCore) → core_of o ≡ ok core → o ≡ ok core.public_key
    taken (ok key) core h = ground arith
    taken (err e) core h = ground arith
    taken panics core h = ground arith

-- Encodings that are the bytes themselves.
abbrev pub sample_x509 : X509
sample_x509 = record {
  create_certificate = λ template parent pub_key priv_key. ok pub_key;
  encode_pem = λ type block. block;
  marshal_pkcs8 = λ key. ok key;
  key_pair = λ cert key. ok (record { leaf = cert; private_key = key });
}

pub sample_x509-IsX509 : IsX509 sample_x509
sample_x509-IsX509 = record {
  paired = λ cert_der key priv_key_bytes cert e h. ground (arith, e, h);
}

-- A host with the service or without it, whose process answers the third poll.
abbrev pub sample_host : Bool → Host
sample_host installed = record {
  installed = installed;
  admin = installed;
  abs = λ path. some path;
  not_exist = λ path. false;
  log_opens = true;
  starts = λ path args. true;
  dials = λ i. i == 2;
}

abbrev pub empty_disk : Disk
empty_disk = record { read = λ path. missing; writable = λ path. true }

abbrev pub seed : Bytes
seed = replicate 32 1

abbrev pub sample_json : Codec Identity
sample_json = record {
  marshal = λ i. i.private_key;
  unmarshal = λ text. some (record { private_key = text; public_key = drop 64 text });
}

-- What is served meanwhile: a ping of the contact 5.
abbrev pub meet_five : Dht → Dht
meet_five d = record d { table = add d.table (sample_contact 5) }

pub meet_five-IsNode : (d : Dht) → IsNode toy_env d → IsNode toy_env (meet_five d)
meet_five-IsNode d v = record {
  table = add-IsTable d.table (sample_contact 5) v.table (sample_id-IsNodeId 5 (omega arith));
  store = v.store;
}

abbrev pub sample_world : World
sample_world = record {
  env = toy_env;
  ygg = sample_ygg;
  x509 = sample_x509;
  identity_json = sample_json;
  trim = λ b. b;
  encode = λ c. some c.private_key;
  disk = empty_disk;
  host = sample_host false;
  random = some seed;
  installed = false;
  listens = true;
  peers_file = none;
  decode_peers = λ text. none;
  ping_order = λ addrs. addrs;
  ping_net = pong_net;
  walk_net = nine_net;
  walk_order = in_order;
  store_net = nine_net 0;
  fuel = 3;
  served_first = λ d. d;
  served_then = meet_five;
  started = 7;
  created = 8;
  announced = 9;
}

-- `meshnet start --services ssh:22`
abbrev pub sample_flags : Flags
sample_flags = record {
  name = [];
  port = pos 0;
  identity = codes "identity.json";
  peer = [];
  services = codes "ssh:22";
  tun = false;
  ygg_bin = codes "bin/yggdrasil.exe";
}

abbrev pub sample_keys : Keys
sample_keys = record { pub_key = seed; priv_key = toy.new_key seed }

abbrev pub sample_disk : Disk
sample_disk = write_file empty_disk (codes "identity.json") (hex_encode (toy.new_key seed))

abbrev pub sample_node : Node
sample_node = record {
  core = some (record { address = codes "200::1"; public_key = seed });
  has_admin = false;
  logger = some true;
  address = codes "200::1";
  priv_key = toy.new_key seed;
}

pub identity_made :
    load_or_create_identity toy sample_json (λ b. b) (codes "identity.json") (some seed) empty_disk
    ≡ (ok sample_keys, sample_disk)
unfolding load_or_create_identity try_read_yggdrasil_identity load_own_identity
    create_and_save_identity identity_file_path bytes_eq copy_32
identity_made = refl

pub node_started :
    Node.start sample_ygg sample_x509 toy sample_json
      (λ b. b)
      7
      (codes "identity.json")
      (some seed)
      empty_disk
      new_node
    ≡ (sample_node, ok tt, sample_disk)
unfolding Node.start start_keys start_core start_admin generate_self_signed_cert
    load_or_create_identity try_read_yggdrasil_identity load_own_identity create_and_save_identity
    identity_file_path bytes_eq copy_32 public new_node
node_started = refl
