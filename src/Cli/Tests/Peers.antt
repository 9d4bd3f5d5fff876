-- ===== src/Cli/Tests/Peers.antt =====
-- The commands on peers of cli/cli.go at a sample node.
use mesh_net.Base.{◌≡◌, refl, true, some, [], ◌∷◌, drop, Bytes, codes}
use mesh_net.Dht.Env.{decimal, digits_from}
use mesh_net.Dht.Api.{Response, message}
use mesh_net.Dht.Tests.Samples.{toy_env}
use mesh_net.Dht.Tests.Walks.{pong_net, small_node}
use mesh_net.Cli.Commands.{peer_url, cmd_peer}
use mesh_net.Cli.Commands.Adding.{IsAdded, post, cmd_peer-IsAdded}
use mesh_net.Cli.Tests.Worlds.{empty_disk}

-- The value behind `http://127.0.0.1:9099/peer?addr=`.
abbrev query : Bytes → Bytes
query url = drop 32 url

abbrev status : Response
status = record { code = 200; body = message (codes "ok") }

plain : query (peer_url (codes "[200::2]:9001")) ≡ codes "[200::2]:9001"
unfolding peer_url decimal digits_from
plain = refl

cmd_peer-IsAdded_example :
    IsAdded toy_env pong_net small_node query
      (codes "[200::2]:9001")
      (cmd_peer
        (some status)
        (post toy_env pong_net small_node query)
        true
        empty_disk
        (codes "add" ∷ codes "[200::2]:9001" ∷ [])).1
cmd_peer-IsAdded_example =
    cmd_peer-IsAdded toy_env pong_net small_node query status true empty_disk
      (codes "[200::2]:9001") [] plain
