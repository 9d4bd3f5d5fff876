-- ===== src/Cli/Start/Launched.antt =====
-- `cmdStart` of cli/cli.go brings a node up.
use mesh_net.Base.{
  take, ◌+◌, ◌*◌, ◌^◌, ◌<◌, ◌≤◌, ◌≡◌, ◌≢◌, refl, sym, ap, ◌∙◌, true, false, ltb, none, some, List,
  [], drop, length, length-drop, Bytes, lookup, All, IsByte, arith,
}
use mesh_net.Outcome.{ok, ok_injective}
use mesh_net.Crypto.{IsCrypto, public}
use mesh_net.Dht.NodeId.{NodeId, IsNodeId, hex_encode, to_string, node_id_from_hex}
use mesh_net.Dht.NodeId.Hex.{length-hex_encode, node_id_from_hex-to_string}
use mesh_net.Dht.Table.{all_contacts}
use mesh_net.Dht.Store.{record_id}
use mesh_net.Dht.Node.{Dht, new}
use mesh_net.Dht.Node.Valid.{IsNode, new-IsNode}
use mesh_net.Dht.Register.Signed.{drop-All, public-ok}
use mesh_net.Dht.Walk.Round.{AreAmong, Arrives, Answers}
use mesh_net.Core.Identity.{Keys, Disk}
use mesh_net.Core.Node.{Node, public_key}
use mesh_net.Core.Node.Started.{IsRunning}
use mesh_net.Cli.{prefix_of, node_name}
use mesh_net.Cli.Start.{
  World, Flags, Connected, Registered, Running, connect, join, register, listen, run_node,
}
use mesh_net.Cli.Start.Joining.{join-IsNode}
use mesh_net.Cli.Start.Publishing.{IsRegistered, register-IsRegistered}

module _ (w : World) (flags : Flags) (node : Node) (disk : Disk) (seed : Bytes) where
  abbrev pub own_id : NodeId
  own_id = drop 32 (w.env.crypto.new_key seed)

  own_id-IsNodeId : IsCrypto w.env.crypto → (length seed ≡ 32) × All IsByte seed → IsNodeId own_id
  own_id-IsNodeId laws (size, bytes) = (
    omega (arith, laws.key_length seed size, length-drop 32 (w.env.crypto.new_key seed)),
    drop-All 32 (w.env.crypto.new_key seed) (laws.key_bytes seed bytes),
  )

  prefix_shown : length own_id ≡ 32 → (shown : Bytes) × (prefix_of 16 (to_string own_id) ≡ ok shown)
  unfolding prefix_of to_string
  prefix_shown h =
      let long : ltb (length (hex_encode own_id)) 16 ≡ false =
        ground (arith, length-hex_encode own_id, h) in
      (take 16 (hex_encode own_id), rw long refl)

  connected : flags.tun ≡ false → (c : Connected) × (connect w flags disk node.priv_key ≡ ok c)
  unfolding connect
  connected h = (record { service = none; disk = disk; effects = [] }, rw h refl)

  -- The node once it has joined.
  abbrev pub IsJoined : Dht → Type 0
  IsJoined joined = join w flags (new node.address own_id flags.port) ≡ ok joined

  steps :
      (shown : Bytes) (c : Connected) (joined : Dht) (reg : Registered)
      → public_key node ≡ ok (to_string own_id)
      → prefix_of 16 (to_string own_id) ≡ ok shown
      → connect w flags disk node.priv_key ≡ ok c
      → node_id_from_hex (to_string own_id) ≡ ok own_id
      → w.listens ≡ true
      → join w flags (new node.address own_id flags.port) ≡ ok joined
      → register w flags node.address (to_string own_id) node.priv_key (w.served_then joined)
        ≡ ok (some reg)
      → run_node w flags node disk
        ≡ ok (some (record { node = node; connected = c; self_id = own_id; registered = reg }))
  unfolding run_node listen
  steps shown c joined reg a b d e f g h = simp (a, b, d, e, f, g, h)

  -- Without TUN, `cmdStart` brings a node up and registers its name, from a started node of the
  -- package `core` with keys of 32 random bytes and an address on, where the port can be listened
  -- on: whatever answers the pings, the node joins and is valid, its record is made and verifies,
  -- `Announce` ends and reports success, and the node is valid and its store holds the record under
  -- the name. What is served meanwhile is taken to keep the node valid and, on a node that has
  -- joined, not to take the name; the two readings of the clock around the record to lie within
  -- 3,599 seconds, the first before the year 2262; and, as for `Announce`, the identifiers of the
  -- table of a node that has joined and of all answers to lie in a finite set whose size the fuel
  -- exceeds, and each answer of a round to arrive once.
  pub run_node-IsRegistered :
      (keys : Keys) (name : Bytes) (universe : List NodeId)
      → IsCrypto w.env.crypto
      → (length seed ≡ 32) × All IsByte seed
      → keys.priv_key ≡ w.env.crypto.new_key seed
      → IsRunning node keys
      → node.address ≢ []
      → flags.tun ≡ false
      → w.listens ≡ true
      → node_name flags.name (to_string own_id) ≡ ok name
      → w.announced ≤ w.created + 3_599 * 1_000_000_000
      → w.created < 2 ^ 63
      → ((d : Dht) → IsNode w.env d → IsNode w.env (w.served_first d))
      → ((d : Dht) → IsNode w.env d → IsNode w.env (w.served_then d))
      → ((joined : Dht) → IsJoined joined → lookup name (w.served_then joined).store.records ≡ none)
      → Arrives w.walk_order
      → ((joined : Dht)
          → IsJoined joined
          → Answers w.env w.walk_net universe
              (w.served_then joined).table.self
              (record_id w.env.crypto name))
      → ((joined : Dht)
          → IsJoined joined
          → AreAmong universe (all_contacts (w.served_then joined).table))
      → length universe < w.fuel
      → (joined : Dht) × IsJoined joined
        × IsNode w.env joined
        × (run : Running) × (run_node w flags node disk ≡ ok (some run))
        × (run.node ≡ node)
        × (run.self_id ≡ own_id)
        × IsRegistered w flags name node.address run.registered
  run_node-IsRegistered keys name universe laws secret same v placed plain listens chosen soon dated
        first then unknown arrives answers among enough =
      let own = own_id-IsNodeId laws secret in
      let (shown, b) = prefix_shown own.0 in
      let (c, d) = connected plain in
      let (joined, joins, vd) =
        join-IsNode w flags (new node.address own_id flags.port) first
          (new-IsNode w.env node.address own_id flags.port own) in
      let key : node.priv_key ≡ w.env.crypto.new_key seed = v.priv_key ∙ same in
      let (pub_key, shown_key, published) = v.shown in
      let mine : pub_key ≡ own_id =
        ok_injective
          (sym shown_key ∙ ap public same ∙ public-ok _ (laws.key_length seed secret.0)) in
      let (reg, registered, good) =
        register-IsRegistered w flags node.address (to_string own_id) seed name universe
          (w.served_then joined) laws secret chosen placed soon dated (then joined vd)
          (unknown joined joins) arrives (answers joined joins) (among joined joins) enough in
      (
        joined,
        joins,
        vd,
        record { node = node; connected = c; self_id = own_id; registered = reg },
        steps shown c joined reg
            (published ∙ unfold to_string in ap (λ (k : Bytes). ok (hex_encode k)) mine) b d
            (node_id_from_hex-to_string own_id own) listens joins
            (ap
                (λ (k : Bytes).
                  register w flags node.address (to_string own_id) k (w.served_then joined))
                key
              ∙ registered),
        refl,
        refl,
        good,
      )
