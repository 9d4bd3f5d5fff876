-- ===== src/Cli/Tests/Tunnels.antt =====
-- The TUN mode of `cmdStart` of cli/cli.go in a sample world.
use mesh_net.Base.{◌≡◌, refl, false, some, ◌∷◌}
use mesh_net.Outcome.{ok}
use mesh_net.Dht.Tests.Samples.{toy}
use mesh_net.Core.YggService.{
  start, launch, poll_admin, new_ygg_service, with_cmd, write_config, query_service,
}
use mesh_net.Cli.Start.{Connected, connect_tun, configure}
use mesh_net.Cli.Start.Tun.{IsConnected, connect_tun-IsConnected}
use mesh_net.Cli.Tests.Worlds.{sample_world, sample_flags, seed, empty_disk, sample_host}

abbrev tunnel : Connected
tunnel = record {
  service = some (start (sample_host false) (new_ygg_service sample_flags.ygg_bin)).service;
  disk =
      (configure sample_world (new_ygg_service sample_flags.ygg_bin) empty_disk
        (toy.new_key seed)).1;
  effects =
      query_service ∷ (start (sample_host false) (new_ygg_service sample_flags.ygg_bin)).effects;
}

tunnelled : connect_tun sample_world sample_flags empty_disk (toy.new_key seed) ≡ ok tunnel
unfolding connect_tun configure write_config start launch poll_admin new_ygg_service with_cmd
tunnelled = refl

connect_tun-IsConnected_example : IsConnected sample_world (toy.new_key seed) empty_disk tunnel
connect_tun-IsConnected_example =
    connect_tun-IsConnected sample_world sample_flags empty_disk (toy.new_key seed) tunnel refl
      tunnelled
