-- ===== src/Cli/Start/Shutdown.antt =====
-- The end of `cmdStart` in cli/cli.go.
use mesh_net.Base.{
  ◌≡◌, ◌≢◌, ◌↔◌, refl, ◌∙◌, Bool, false, if◌then◌else◌, true, false, Option, none, some, List, [],
  ◌∷◌, ◌++◌, Bytes, All, IsByte, arith, Bool-cases, inl, inr,
}
use mesh_net.Outcome.{ok}
use mesh_net.Dht.Node.{Dht}
use mesh_net.Dht.Reannounce.{Reannouncer}
use mesh_net.Dht.Reannounce
use mesh_net.Dht.Peers.{SavedPeer, save_to}
use mesh_net.Core.Identity.{Keys, Disk, load_or_create_identity}
use mesh_net.Core.Cert.{IsX509}
use mesh_net.Core.Node.{Node, Closed, admin_stopped, core_stopped}
use mesh_net.Core.Node
use mesh_net.Core.Node.Started.{IsRunning, IsYggdrasil}
use mesh_net.Dht.Server.{Server, stopped, new_server, start, has_returned, Steps}
use mesh_net.Dht.Server.Drained.{
  IsServer, start-IsServer, Steps-IsServer, IsServer-has_returned, IsServer-IsDrained, IsDrained,
}
use mesh_net.Core.YggService.{stop}
use mesh_net.Core.YggService.Effects.{after, clean, after-query}
use mesh_net.Core.YggService.Stopping.{start-stop}
use mesh_net.Cli.Start.{
  World, Flags, Connected, Running, Stopped, connect, connect_tun, stop_service, stop_node,
  shut_down, cmd_start,
}
use mesh_net.Cli.Start.Identified.{IsIdentified, cmd_start-IsIdentified}
use mesh_net.Cli.Start.Tun.{done, connect_tun-parts}

-- `node.Stop` closes the admin socket, if there is one, and the core.
abbrev pub closing_of : Node → List Closed
closing_of n = (if n.has_admin then admin_stopped ∷ [] else []) ++ core_stopped ∷ []

stopped_node :
    (n : Node) (keys : Keys) → IsRunning n keys → stop_node n true ≡ ok (some (closing_of n))
unfolding stop_node Node.stop
stopped_node n keys v = let (c, e, _) = v.core in ground (arith, v.logging, e)

module _ (w : World) (flags : Flags) (disk : Disk) where
  tun_ended :
      (priv_key : Bytes) (c : Connected)
      → connect_tun w flags disk priv_key ≡ ok c
      → after clean (c.effects ++ stop_service c.service) ≡ clean
  tun_ended priv_key c h =
      let (_, _, e) = connect_tun-parts w flags disk priv_key c h in
      rw e (
        after-query clean
          ((done w flags disk priv_key).effects ++ stop (done w flags disk priv_key).service)
        ∙ start-stop w.host flags.ygg_bin)

  -- What `connect` starts, the `Stop` of its service ends.
  connect_ended :
      (priv_key : Bytes) (c : Connected)
      → connect w flags disk priv_key ≡ ok c
      → after clean (c.effects ++ stop_service c.service) ≡ clean
  connect_ended priv_key c h = elim (Bool-cases flags.tun) [
    | inl tun ↦ tun_ended priv_key c (unfold connect in ground (arith, h, tun))
    | inr plain ↦
        let e : c ≡ record { service = none; disk = disk; effects = [] } =
          unfold connect in ground (arith, h, plain) in
        rw e (unfold after in refl)
  ]

-- The node is closed once `d.Stop()` has returned, and then nothing of the server is left.
abbrev pub IsClosed : Node → Server → Option (List Closed) → Type 0
IsClosed n s none = s.stage ≢ stopped
IsClosed n s (some closed) = IsDrained s × (closed ≡ closing_of n)

-- What the shutdown leaves.
pub record IsEnded (w : World) (encode : List SavedPeer → Option Bytes) (run : Running) (d : Dht)
    (server : Server) (st : Stopped) : Type 0 where
  pub told : st.reannouncer.closed ≡ true
  pub unlinked : after clean (run.connected.effects ++ st.effects) ≡ clean
  pub saved : st.saved ≡ save_to w.env encode run.connected.disk d
  pub closed : IsClosed run.node server st.closed

closes :
    (n : Node) (keys : Keys) (s : Server)
    → IsRunning n keys
    → IsServer s
    → (b : Bool) → has_returned s ≡ ok b
    → (b ≡ true) ↔ (s.stage ≡ stopped)
    → (o : Option (List Closed)) × (stop_node n b ≡ ok o) × IsClosed n s o
closes n keys s v vs true e (to, from) =
    (some (closing_of n), stopped_node n keys v, (IsServer-IsDrained vs (to refl), refl))
closes n keys s v vs false e (to, from) =
    (none, unfold stop_node in refl, λ h. ground (arith, from h))

module _ (w : World) (flags : Flags) (encode : List SavedPeer → Option Bytes) where
  ended :
      (disk : Disk) (keys : Keys) (run : Running) (s : Reannouncer) (d : Dht) (server : Server)
      → IsIdentified w flags disk keys run
      → IsServer server
      → s.closed ≡ false
      → (st : Stopped) × (shut_down w encode run s d server ≡ ok st)
        × IsEnded w encode run d server st
  unfolding shut_down Reannounce.stop
  ended disk keys run s d server v vs fresh =
      let (b, told, means) = IsServer-has_returned server vs server.stage refl in
      let (closed, e, good) = closes run.node keys server v.running vs b told means in
      (
        record {
          reannouncer = record s { closed = true };
          effects = stop_service run.connected.service;
          saved = save_to w.env encode run.connected.disk d;
          closed = closed;
        },
        ground (arith, fresh, told, e),
        record {
          told = refl;
          unlinked = connect_ended w flags disk run.node.priv_key run.connected v.linked;
          saved = refl;
          closed = good;
        },
      )

  -- The shutdown of a node that `cmdStart` has brought up panics in none of its parts, whatever
  -- became of its table and of the goroutines of its server, and of its re-announcer unless that
  -- was stopped before: the loop of the re-announcer is told to end, no process that was started
  -- and no log file that was opened is left, and the contacts of the table are saved as `SavePeers`
  -- does. Where `d.Stop()` has returned, no goroutine of the server is left and the admin socket,
  -- if there is one, and the core of Yggdrasil are stopped; else these are not stopped yet. As for
  -- the identity of the node, a byte is taken to be below 256, `X509KeyPair` to read back the key
  -- that was encoded, and the Yggdrasil library to use the key of its certificate.
  pub shut_down-IsEnded :
      (run : Running) (s : Reannouncer) (d : Dht) (server : Server)
      → IsYggdrasil w.ygg
      → IsX509 w.x509
      → ((keys : Keys) (disk : Disk)
          → load_or_create_identity w.env.crypto w.identity_json w.trim flags.identity w.random
              w.disk
            ≡ (ok keys, disk)
          → All IsByte keys.priv_key)
      → cmd_start w flags ≡ ok (some run)
      → s.closed ≡ false
      → Steps (start true new_server).0 server
      → (st : Stopped) × (shut_down w encode run s d server ≡ ok st)
        × IsEnded w encode run d server st
  shut_down-IsEnded run s d server laws pairs bytes h fresh steps =
      let (keys, disk, _, v) = cmd_start-IsIdentified w flags run laws pairs bytes h in
      ended disk keys run s d server v (Steps-IsServer (start-IsServer true) steps) fresh
