-- ===== src/Cli/Start/Joining.antt =====
-- The pings of `cmdStart` in cli/cli.go.
use mesh_net.Base.{◌≡◌, ◌≢◌, refl, bytes_eq, Bool-cases, inl, inr, []}
use mesh_net.Outcome.{Outcome, ok, err, panics}
use mesh_net.Dht.Node.{Dht}
use mesh_net.Dht.Node.Valid.{IsNode}
use mesh_net.Dht.Announce.{ping_peer}
use mesh_net.Dht.Announce.Pinging.{ping_peer-IsNode, ping_peer-no_panic}
use mesh_net.Dht.Peers.{bootstrap_dht, meshnet_bootstrap_peers}
use mesh_net.Dht.Peers.Restored.{bootstrap_dht-IsNode}
use mesh_net.Cli.Start.{World, Flags, after_ping, join}

after_ping-IsNode :
    (w : World) (d : Dht) (o : Outcome (Unit {0}))
    → o ≢ panics
    → IsNode w.env d
    → (d' : Dht) × (after_ping d o ≡ ok d') × IsNode w.env d'
unfolding after_ping
after_ping-IsNode w d (ok tt) h v = (d, refl, v)
after_ping-IsNode w d (err e) h v = (d, refl, v)
after_ping-IsNode w d panics h v = absurd (h refl)

-- Whatever answers the pings, and whatever is served meanwhile: they end with a valid node.
pub join-IsNode :
    (w : World) (flags : Flags) (d : Dht)
    → ((c : Dht) → IsNode w.env c → IsNode w.env (w.served_first c))
    → IsNode w.env d
    → (d' : Dht) × (join w flags d ≡ ok d') × IsNode w.env d'
unfolding join
join-IsNode w flags d keeps v =
    let booted =
      (bootstrap_dht w.env w.ping_net w.ping_order w.decode_peers (w.served_first d) w.peers_file
        meshnet_bootstrap_peers).0 in
    let vb =
      (bootstrap_dht-IsNode w.env w.ping_net w.ping_order w.decode_peers (w.served_first d)
        w.peers_file meshnet_bootstrap_peers (keeps d v)).0 in
    elim (Bool-cases (bytes_eq flags.peer [])) [
      | inl alone ↦ (booted, rw alone refl, vb)
      | inr given ↦ rw given (
          after_ping-IsNode w (ping_peer w.env w.ping_net booted flags.peer).0
            (ping_peer w.env w.ping_net booted flags.peer).1
            (ping_peer-no_panic w.env w.ping_net booted flags.peer)
            (ping_peer-IsNode w.env w.ping_net booted
              (ping_peer w.env w.ping_net booted flags.peer).0 flags.peer
              (ping_peer w.env w.ping_net booted flags.peer).1 refl vb))
    ]
