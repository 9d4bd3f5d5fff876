-- ===== src/Core/YggService/Starting.antt =====
-- `Start` of core/yggservice.go.
use mesh_net.Base.{
  ℕ, zero, suc, ◌+◌, ◌<◌, ◌≤◌, ◌≡◌, refl, ◌∙◌, true, false, Option, none, some, [], ◌∷◌, Bytes,
  arith, Bool-cases, inl, inr, ◌⊎◌,
}
use mesh_net.Outcome.{
  ok, err, Error, invalid_binary_path, binary_not_found, invalid_config_path, yggdrasil_not_started,
  yggdrasil_not_ready,
}
use mesh_net.Core.YggService.{
  YggService, Cmd, Host, Done, new_ygg_service, ygg_config_file, ygg_args, poll_admin, with_cmd,
  launch, start, query_service, fails, add_peers_via_admin,
}
use mesh_net.Core.YggService.Effects.{effect, after, clean, after-query, after-add_peers}

-- The socket of the subprocess answers one of the 60 polls.
abbrev pub IsReady : Host → Type 0
IsReady host = (i : ℕ) × (i < 60) × (host.dials i ≡ true)

-- What each error of `Start` says of the host.
pub data Fault (host : Host) (bin_path : Bytes) : Error → Type 0 where
  no_path : host.abs bin_path ≡ none → Fault host bin_path invalid_binary_path
  no_binary :
      (path : Bytes)
      → host.abs bin_path ≡ some path
      → host.not_exist path ≡ true
      → Fault host bin_path binary_not_found
  no_config : host.abs ygg_config_file ≡ none → Fault host bin_path invalid_config_path
  no_start :
      (path cfg : Bytes)
      → host.abs bin_path ≡ some path
      → host.abs ygg_config_file ≡ some cfg
      → host.starts path (ygg_args cfg) ≡ false
      → Fault host bin_path yggdrasil_not_started
  no_answer : ((i : ℕ) → i < 60 → host.dials i ≡ false) → Fault host bin_path yggdrasil_not_ready

-- The process that `Start` runs.
abbrev pub command : Host → Bytes → Bytes → Cmd
command host path cfg = record {
  path = path;
  args = ygg_args cfg;
  logged = host.log_opens;
  started = true;
}

-- The installed service is used and nothing is started; or the subprocess runs, with its output in
-- the log file if that can be opened, and has answered a poll; or there is an error, with its cause,
-- and neither a process nor an open log file is left.
abbrev pub IsStarted : Host → Bytes → Done → Type 0
IsStarted host bin_path d =
    ((host.installed ≡ true)
      × (d.result ≡ ok tt)
      × (d.service ≡ new_ygg_service bin_path)
      × (after clean d.effects ≡ clean))
    ⊎ ((host.installed ≡ false)
        × (path : Bytes) × (cfg : Bytes) × (host.abs bin_path ≡ some path)
        × (host.abs ygg_config_file ≡ some cfg)
        × (host.not_exist path ≡ false)
        × (host.starts path (ygg_args cfg) ≡ true)
        × IsReady host
        × (d.result ≡ ok tt)
        × (d.service.cmd ≡ some (command host path cfg))
        × (d.service.has_log ≡ host.log_opens)
        × (after clean d.effects ≡ record { process = true; log = host.log_opens }))
    ⊎ ((host.installed ≡ false)
        × (e : Error) × (d.result ≡ err e)
        × Fault host bin_path e
        × (after clean d.effects ≡ clean))

module _ (host : Host) where
  poll_admin-cases :
      (n i : ℕ)
      → ((poll_admin host n i ≡ true) × (j : ℕ) × (j < i + n) × (host.dials j ≡ true))
        ⊎ ((poll_admin host n i ≡ false) × ((j : ℕ) → i ≤ j → j < i + n → host.dials j ≡ false))
  unfolding poll_admin
  poll_admin-cases zero i = inr (refl, λ j low high. absurd (omega arith))
  poll_admin-cases (suc n) i = elim (Bool-cases (host.dials i)) [
    | inl up ↦ inl (ground (arith, up), i, omega arith, up)
    | inr down ↦ elim (poll_admin-cases n (suc i)) [
      | inl (found, j, lt, up) ↦ inl (ground (arith, down, found), j, omega arith, up)
      | inr (lost, none_up) ↦
          inr (ground (arith, down, lost), λ j low high. below down none_up j low high)
    ]
  ]
    where
      below :
          host.dials i ≡ false
          → ((j : ℕ) → suc i ≤ j → j < suc i + n → host.dials j ≡ false)
          → (j : ℕ) → i ≤ j
          → j < i + suc n
          → host.dials j ≡ false
      below down none_up j low high = ground (arith, none_up j)

  module _ (bin_path path cfg : Bytes) (found : host.abs bin_path ≡ some path)
      (conf : host.abs ygg_config_file ≡ some cfg) (absent : host.installed ≡ false)
      (there : host.not_exist path ≡ false) where
    launch-IsStarted : IsStarted host bin_path (launch host (new_ygg_service bin_path) path cfg)
    unfolding launch with_cmd new_ygg_service after effect
    launch-IsStarted = elim (Bool-cases (host.starts path (ygg_args cfg))) [
      | inr refused ↦ inr (
          inr (
            absent,
            yggdrasil_not_started,
            ground (arith, refused),
            no_start path cfg found conf refused,
            ground (arith, refused),
          ))
      | inl runs ↦ elim (poll_admin-cases 60 0) [
        | inl (ready, j, lt, up) ↦ inr (
            inl (
              absent,
              path,
              cfg,
              found,
              conf,
              there,
              runs,
              (j, lt, up),
              ground (arith, runs, ready),
              ground (arith, runs, ready),
              ground (arith, runs, ready),
              ground (arith, runs, ready),
            ))
        | inr (dead, silent) ↦ inr (
            inr (
              absent,
              yggdrasil_not_ready,
              ground (arith, runs, dead),
              no_answer (λ i bound. silent i (omega arith) bound),
              ground (arith, runs, dead),
            ))
      ]
    ]

  module _ (s : YggService) where
    start-installed :
        host.installed ≡ true
        → start host s ≡ record {
          service = s;
          result = ok tt;
          effects = query_service ∷ add_peers_via_admin host;
        }
    unfolding start
    start-installed h = ground (arith, h)

    module _ (absent : host.installed ≡ false) where
      start-no_path :
          host.abs s.bin_path ≡ none
          → start host s ≡ fails s (query_service ∷ []) invalid_binary_path
      unfolding start
      start-no_path h = ground (arith, absent, h)

      module _ (path : Bytes) (found : host.abs s.bin_path ≡ some path) where
        start-no_binary :
            host.not_exist path ≡ true
            → start host s ≡ fails s (query_service ∷ []) binary_not_found
        unfolding start
        start-no_binary h = ground (arith, absent, found, h)

        start-no_config :
            host.not_exist path ≡ false
            → host.abs s.cfg_path ≡ none
            → start host s ≡ fails s (query_service ∷ []) invalid_config_path
        unfolding start
        start-no_config h c = ground (arith, absent, found, h, c)

        start-launch :
            (cfg : Bytes)
            → host.not_exist path ≡ false
            → host.abs s.cfg_path ≡ some cfg
            → start host s ≡ launch host s path cfg
        unfolding start
        start-launch cfg h c = ground (arith, absent, found, h, c)

  own_process :
      (bin_path : Bytes)
      → host.installed ≡ false
      → (o : Option Bytes) → host.abs bin_path ≡ o
      → (c : Option Bytes) → host.abs ygg_config_file ≡ c
      → IsStarted host bin_path (start host (new_ygg_service bin_path))
  unfolding new_ygg_service after effect
  own_process bin_path absent none p c q =
      rw (start-no_path (new_ygg_service bin_path) absent p)
        (inr (inr (absent, invalid_binary_path, refl, no_path p, refl)))
  own_process bin_path absent (some path) p c q = elim (Bool-cases (host.not_exist path)) [
    | inl gone ↦
        rw (start-no_binary (new_ygg_service bin_path) absent path p gone)
          (inr (inr (absent, binary_not_found, refl, no_binary path p gone, refl)))
    | inr there ↦ (unresolved c q there)
  ]
    where
      unresolved :
          (c : Option Bytes)
          → host.abs ygg_config_file ≡ c
          → host.not_exist path ≡ false
          → IsStarted host bin_path (start host (new_ygg_service bin_path))
      unresolved none q there =
          rw (start-no_config (new_ygg_service bin_path) absent path p there q)
            (inr (inr (absent, invalid_config_path, refl, no_config q, refl)))
      unresolved (some cfg) q there =
          rw (start-launch (new_ygg_service bin_path) absent path p cfg there q)
            (launch-IsStarted bin_path path cfg p q absent there)

  -- `Start` of a new service does exactly one of three things. Where the service of Yggdrasil is
  -- installed, it succeeds and starts nothing. Else it succeeds exactly where the binary is found,
  -- both paths are valid, the process starts and one of the 60 polls reaches its socket: then the
  -- process runs with the configuration, and with its output in the log file if that could be
  -- opened. Or it returns an error that tells which of these failed, and leaves neither a process
  -- nor an open log file.
  pub start-IsStarted :
      (bin_path : Bytes) → IsStarted host bin_path (start host (new_ygg_service bin_path))
  start-IsStarted bin_path = elim (Bool-cases host.installed) [
    | inl there ↦ rw (start-installed (new_ygg_service bin_path) there) (
        inl (
          there,
          refl,
          refl,
          after-query clean (add_peers_via_admin host) ∙ after-add_peers host clean,
        ))
    | inr absent ↦
        own_process bin_path absent (host.abs bin_path) refl (host.abs ygg_config_file) refl
  ]
