-- ===== src/Cli/Start/Identified.antt =====
-- The identity of a node that `cmdStart` of cli/cli.go runs: one key through all of its parts.
use mathlib.Core.Path.{subst}
use mesh_net.Base.{◌≡◌, sym, ap, ◌∙◌, Option, none, some, drop, Bytes, All, IsByte, arith, []}
use mesh_net.Outcome.{Outcome, ok, passed, ok_injective}
use mesh_net.Crypto.{public}
use mesh_net.Dht.NodeId.{NodeId, IsNodeId, hex_encode, to_string, node_id_from_hex}
use mesh_net.Dht.NodeId.Hex.{copy_32-IsNodeId, node_id_from_hex-to_string}
use mesh_net.Dht.Store.{Record}
use mesh_net.Dht.Node.{Dht, new}
use mesh_net.Dht.Register.{unsigned, create_record}
use mesh_net.Dht.Register.Signed.{drop-All, create_record-fields}
use mesh_net.Dht.Announce.{Announced}
use mesh_net.Core.Identity.{Keys, Disk, load_or_create_identity}
use mesh_net.Core.Cert.{IsX509}
use mesh_net.Core.Node.{Node, new_node, public_key}
use mesh_net.Core.Node
use mesh_net.Core.Node.Started.{IsYggdrasil, IsRunning, start-IsRunning}
use mesh_net.Cli.{prefix_of, start_options, service_list, node_name}
use mesh_net.Cli.Start.{
  World, Flags, Connected, Registered, Running, connect, join, after_announce, register, listen,
  registered_as, run_node, cmd_start,
}

-- A public key is 32 bytes.
public-IsNodeId :
    (key pub_key : Bytes) → All IsByte key → public key ≡ ok pub_key → IsNodeId pub_key
unfolding public
public-IsNodeId key pub_key bytes h =
    subst IsNodeId (ground arith) (copy_32-IsNodeId (drop 32 key) (drop-All 32 key bytes))

module _ (w : World) (flags : Flags) where
  -- The record that is announced, of the address and the keys of the node.
  pub record IsOwn (address key priv_key : Bytes) (r : Record) : Type 0 where
    pub named : (name : Bytes) × (node_name flags.name key ≡ ok name) × (r.name ≡ name)
    pub placed : r.address ≡ address
    pub keyed :
        (pub_key : Bytes) × (public priv_key ≡ ok pub_key) × (r.public_key ≡ hex_encode pub_key)
    pub listed : r.services ≡ service_list flags.services
    pub shared : r.group_key ≡ []

  after_announce-own :
      (r : Record) (a : Option Announced) (reg : Registered)
      → after_announce w r a ≡ ok (some reg)
      → reg.own ≡ r
  unfolding after_announce
  after_announce-own r a reg h = ground arith

  register-IsOwn :
      (address key priv_key : Bytes) (d : Dht) (reg : Registered)
      → register w flags address key priv_key d ≡ ok (some reg)
      → IsOwn address key priv_key reg.own
  unfolding register start_options unsigned
  register-IsOwn address key priv_key d reg h =
      let (opts, chosen, h') =
        passed (start_options flags.name flags.services address key priv_key) _ h in
      let (own, made, h'') = passed (create_record w.env.crypto w.created opts) _ h' in
      let (name, named, e) = passed (node_name flags.name key) _ chosen in
      let (pub_key, keyed, fields) =
        create_record-fields w.env.crypto w.created opts priv_key own made (ground (arith, e)) in
      let same = after_announce-own own _ reg h'' in
      record {
        named = (name, named, ground (arith, same, fields, e));
        placed = ground (arith, same, fields, e);
        keyed = (pub_key, keyed, ground (arith, same, fields, e));
        listed = ground (arith, same, fields, e);
        shared = ground (arith, same, fields, e);
      }

  -- The key of the identity, the node of Yggdrasil, the identifier of the node in the table, and the
  -- record that it announces belong together.
  pub record IsIdentified (disk : Disk) (keys : Keys) (run : Running) : Type 0 where
    pub running : IsRunning run.node keys
    pub self : public keys.priv_key ≡ ok run.self_id
    pub sized : IsNodeId run.self_id
    pub own_key : run.registered.own.public_key ≡ to_string run.self_id
    pub own_address : run.registered.own.address ≡ run.node.address
    pub own_name :
        (name : Bytes) × (node_name flags.name (to_string run.self_id) ≡ ok name)
        × (run.registered.own.name ≡ name)
    pub linked : connect w flags disk run.node.priv_key ≡ ok run.connected
    pub own_services : run.registered.own.services ≡ service_list flags.services

  -- Behind the parse of the public key.
  behind_key :
      (node : Node) (disk : Disk) (keys : Keys) (key : Bytes) (self_id : NodeId)
      (connected : Connected) (joined : Dht) (reg : Option Registered) (run : Running)
      → All IsByte keys.priv_key
      → IsRunning node keys
      → public keys.priv_key ≡ ok key
      → node_id_from_hex (hex_encode key) ≡ ok self_id
      → connect w flags disk node.priv_key ≡ ok connected
      → register w flags node.address (hex_encode key) node.priv_key (w.served_then joined) ≡ ok reg
      → ◌≡◌ {A = Outcome (Option Running)}
          (ok (registered_as node connected self_id reg))
          (ok (some run))
      → IsIdentified disk keys run
  behind_key node disk keys key self_id connected joined none run bytes v shown parsed linked
        registered h =
      absurd (ground arith)
  behind_key node disk keys key self_id connected joined (some r) run bytes v shown parsed linked
        registered h =
      let valid = public-IsNodeId keys.priv_key key bytes shown in
      let same : self_id ≡ key =
        ok_injective (sym parsed ∙ (unfold to_string in node_id_from_hex-to_string key valid)) in
      let own =
        register-IsOwn node.address (hex_encode key) node.priv_key (w.served_then joined) r
          registered in
      let (pub_key, keyed, fields) = own.keyed in
      let agree : pub_key ≡ key = ok_injective (sym keyed ∙ ap public v.priv_key ∙ shown) in
      let text : to_string self_id ≡ hex_encode key = unfold to_string in ap hex_encode same in
      let (name, named, titled) = own.named in
      let e : run
          ≡ record { node = node; connected = connected; self_id = self_id; registered = r } =
        ground arith in
      subst (IsIdentified disk keys) (sym e) (record {
        running = v;
        self = shown ∙ ap ok (sym same);
        sized = subst IsNodeId (sym same) valid;
        own_key = fields ∙ ap hex_encode agree ∙ sym text;
        own_address = own.placed;
        own_name = (name, ap (λ (t : Bytes). node_name flags.name t) text ∙ named, titled);
        linked = linked;
        own_services = own.listed;
      })

  run_node-IsIdentified :
      (node : Node) (disk : Disk) (keys : Keys) (run : Running)
      → All IsByte keys.priv_key
      → IsRunning node keys
      → run_node w flags node disk ≡ ok (some run)
      → IsIdentified disk keys run
  unfolding run_node
  run_node-IsIdentified node disk keys run bytes v h =
      let (key, shown, is_shown) = v.shown in
      let (text, read, h1) = passed (public_key node) _ h in
      let (_, _, h2) = passed (prefix_of 16 text) _ h1 in
      let (connected, linked, h3) = passed (connect w flags disk node.priv_key) _ h2 in
      let (self_id, parsed, h4) = passed (node_id_from_hex text) _ h3 in
      let (_, _, h5) = passed (listen w.listens) _ h4 in
      let (joined, _, h6) = passed (join w flags (new node.address self_id flags.port)) _ h5 in
      let (reg, registered, h7) =
        passed (register w flags node.address text node.priv_key (w.served_then joined)) _ h6 in
      let same : text ≡ hex_encode key = ok_injective (sym read ∙ is_shown) in
      behind_key node disk keys key self_id connected joined reg run bytes v shown
        (ap node_id_from_hex (sym same) ∙ parsed) linked
        (ap (λ (t : Bytes). register w flags node.address t node.priv_key (w.served_then joined))
            (sym same)
          ∙ registered)
        h7

  -- A node that `cmdStart` brings up has one identity: the identity that is loaded or made gives
  -- its keys, its Yggdrasil node runs with them, its identifier in the table is the public key of
  -- the private key, and the record that it announces has the text of this identifier as its key,
  -- the address of the Yggdrasil node, the name that was asked for or else `node-` and the start of
  -- the identifier, and the services that were asked for. A byte is taken to be below 256,
  -- `X509KeyPair` to read back the key that was encoded, and the Yggdrasil library to use the key
  -- of its certificate.
  pub cmd_start-IsIdentified :
      (run : Running)
      → IsYggdrasil w.ygg
      → IsX509 w.x509
      → ((keys : Keys) (disk : Disk)
          → load_or_create_identity w.env.crypto w.identity_json w.trim flags.identity w.random
              w.disk
            ≡ (ok keys, disk)
          → All IsByte keys.priv_key)
      → cmd_start w flags ≡ ok (some run)
      → (keys : Keys) × (disk : Disk) × (load_or_create_identity w.env.crypto w.identity_json w.trim
            flags.identity w.random w.disk
          ≡ (ok keys, disk))
        × IsIdentified disk keys run
  unfolding cmd_start
  cmd_start-IsIdentified run laws pairs bytes h =
      let result =
        Node.start w.ygg w.x509 w.env.crypto w.identity_json w.trim w.started flags.identity
          w.random w.disk new_node in
      let (_, fine, h') = passed result.1 _ h in
      let (keys, loaded, running) =
        start-IsRunning w.ygg w.x509 laws pairs w.env.crypto w.identity_json w.trim w.started
          flags.identity w.random w.disk new_node result.0 result.2
          (λ i. (result.0, fine i, result.2)) in
      (
        keys,
        result.2,
        loaded,
        run_node-IsIdentified result.0 result.2 keys run (bytes keys result.2 loaded) running h',
      )
