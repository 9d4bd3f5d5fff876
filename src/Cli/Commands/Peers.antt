-- ===== src/Cli/Commands/Peers.antt =====
-- `meshnet peers` of cli/cli.go against the handler of dht/api.go that serves it.
use mesh_net.Base.{
  ℕ, zero, suc, ◌≤◌, ◌≡◌, refl, ap, if◌then◌else◌, Option, none, some, List, [], ◌∷◌, map, take,
  length, length-take, Bytes, All, arith,
}
use mesh_net.Outcome.{ok}
use mesh_net.Dht.NodeId.{NodeId, hex_encode, to_string}
use mesh_net.Dht.NodeId.Hex.{length-hex_encode}
use mesh_net.Dht.Contact.{Contact, HasNodeId}
use mesh_net.Dht.Table.{all_contacts}
use mesh_net.Dht.Table.Contents.{all_contacts-HasNodeId}
use mesh_net.Dht.Env.{Env, Network}
use mesh_net.Dht.Node.{Dht}
use mesh_net.Dht.Node.Valid.{IsNode}
use mesh_net.Dht.Api.{Body, Response, PeerInfo, peers_of, peer_info, ping_all_peers, handle_peers}
use mesh_net.Cli.{prefix_of}
use mesh_net.Cli.Commands.{
  PeerLine, shown, peer_line, peer_lines, round_ms, cmd_peers, answered, is_node_running,
}

take-take : (n m : ℕ) (b : Bytes) → n ≤ m → take n (take m b) ≡ take n b
take-take zero m b h = refl
take-take (suc n) zero b h = absurd (omega arith)
take-take (suc n) (suc m) [] h = refl
take-take (suc n) (suc m) (x ∷ b) h = ap (◌∷◌ x) (take-take n m b (omega arith))

-- The text of an identifier is long enough to be cut twice.
prefix-shortened :
    (id : NodeId)
    → length id ≡ 32
    → prefix_of 12 (take 16 (to_string id)) ≡ ok (take 12 (to_string id))
unfolding prefix_of to_string
prefix-shortened id h =
    let long : length (take 16 (hex_encode id)) ≡ 16 =
      omega (arith, length-take 16 (hex_encode id), length-hex_encode id) in
    ground (arith, long, take-take 12 16 (hex_encode id) (omega arith))

module _ (env : Env) (net : Network) (time : Contact → ℕ) (d : Dht) where
  -- The line that shows a contact: whether it answers a ping, and the start of its identifier.
  unfoldable pub line_of : Contact → PeerLine
  line_of c =
      let alive = (peer_info env net time d c).alive in
      record {
        alive = alive;
        id = take 12 (to_string c.id);
        addr = env.ip_string c.address;
        port = c.port;
        latency = if alive then some (round_ms (time c)) else none;
      }

  peer_line-peer_info :
      (c : Contact) → HasNodeId c → peer_line (peer_info env net time d c) ≡ ok (line_of c)
  unfolding peer_line line_of peer_info
  peer_line-peer_info c h = rw (prefix-shortened c.id h.0) refl

  peer_lines-peer_info :
      (cs : List Contact)
      → All HasNodeId cs
      → peer_lines (map (peer_info env net time d) cs) ≡ ok (map line_of cs)
  unfolding peer_lines
  peer_lines-peer_info [] h = refl
  peer_lines-peer_info (c ∷ cs) h = simp (peer_line-peer_info c h.0, peer_lines-peer_info cs h.1)

  -- `meshnet peers` at a running node shows one line for each contact of its table, in the order of
  -- the table, with the first twelve characters of its identifier, whether it answers a ping, and
  -- then the latency in milliseconds; it does not panic. The node is valid, and the response is
  -- taken to arrive as it was sent.
  pub cmd_peers-shown :
      (first : Response) (decode : Body → Option (List PeerInfo))
      → IsNode env d
      → ((ps : List PeerInfo) → decode (peers_of ps) ≡ some ps)
      → cmd_peers (some first) (some (handle_peers env net time d)) decode
        ≡ ok (shown (map line_of (all_contacts d.table)))
  unfolding cmd_peers answered is_node_running handle_peers ping_all_peers
  cmd_peers-shown first decode v reads =
      simp (
        reads,
        peer_lines-peer_info (all_contacts d.table) (all_contacts-HasNodeId d.table v.table),
      )
