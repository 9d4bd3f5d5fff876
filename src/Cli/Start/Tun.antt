-- ===== src/Cli/Start/Tun.antt =====
-- The TUN mode of `cmdStart` in cli/cli.go against core/yggservice.go.
use mesh_net.Base.{
  ◌≡◌, refl, ap, sym, ◌∙◌, Bool, true, false, if◌then◌else◌, Option, none, some, Bytes, arith, inl,
  inr, ◌⊎◌, ◌∷◌,
}
use mesh_net.Outcome.{Outcome, ok, err, passed, content, config_not_encoded, config_not_written}
use mesh_net.Dht.Announce.Ends.{err_apart}
use mesh_net.Core.Identity.{Disk, write_file, read-write_file, priv_key_hex}
use mesh_net.Core.YggService.{
  YggService, Done, new_ygg_service, ygg_config, ygg_config_file, write_config, start,
  query_service,
}
use mesh_net.Core.YggService.Effects.{after, clean, after-query}
use mesh_net.Core.YggService.Starting.{IsReady, command, start-IsStarted}
use mesh_net.Cli.Start.{World, Flags, Connected, configure, connect_tun}

-- The configuration of the key is in the file that the process is told to read.
abbrev pub IsConfigured : World → Bytes → Disk → Type 0
IsConfigured w priv_key disk =
    (text : Bytes) × (w.encode (ygg_config (priv_key_hex priv_key)) ≡ some text)
    × (disk.read ygg_config_file ≡ content text)

-- The service of the host is used and nothing was written or started; or the process runs with the
-- configuration of the key, and has answered.
abbrev pub IsConnected : World → Bytes → Disk → Connected → Type 0
IsConnected w priv_key disk c =
    ((w.host.installed ≡ true) × (c.disk ≡ disk) × (after clean c.effects ≡ clean))
    ⊎ ((w.host.installed ≡ false)
        × IsConfigured w priv_key c.disk
        × (svc : YggService) × (path : Bytes) × (cfg : Bytes) × (c.service ≡ some svc)
        × (w.host.abs ygg_config_file ≡ some cfg)
        × (svc.cmd ≡ some (command w.host path cfg))
        × IsReady w.host
        × (after clean c.effects ≡ record { process = true; log = w.host.log_opens }))

written-IsConfigured :
    (w : World) (bin priv_key : Bytes) (disk disk' : Disk)
    → write_config w.encode (new_ygg_service bin) disk (priv_key_hex priv_key) ≡ (ok tt, disk')
    → IsConfigured w priv_key disk'
unfolding write_config new_ygg_service
written-IsConfigured w bin priv_key disk disk' h =
    encoded (w.encode (ygg_config (priv_key_hex priv_key))) refl h
  where
    encoded :
        (o : Option Bytes)
        → w.encode (ygg_config (priv_key_hex priv_key)) ≡ o
        → ◌≡◌ {A = Outcome (Unit {0}) × Disk}
            (elim o [
              | none ↦ (err config_not_encoded, disk)
              | some text ↦
                  if disk.writable ygg_config_file
                  then (ok tt, write_file disk ygg_config_file text)
                  else (err config_not_written, disk)
            ])
            (ok tt, disk')
        → IsConfigured w priv_key disk'
    encoded none e h' = ground arith
    encoded (some text) e h' = (text, e, kept (disk.writable ygg_config_file) h')
      where
        kept :
            (b : Bool)
            → ◌≡◌ {A = Outcome (Unit {0}) × Disk}
                (if b
                  then (ok tt, write_file disk ygg_config_file text)
                  else (err config_not_written, disk))
                (ok tt, disk')
            → disk'.read ygg_config_file ≡ content text
        kept true q =
            ap (λ (r : Outcome (Unit {0}) × Disk). r.1.read ygg_config_file) (sym q)
            ∙ read-write_file disk ygg_config_file text
        kept false q = ground arith

module _ (w : World) (flags : Flags) (disk : Disk) (priv_key : Bytes) where
  abbrev pub done : Done
  done = start w.host (new_ygg_service flags.ygg_bin)

  abbrev pub configured : Outcome (Unit {0}) × Disk
  configured = configure w (new_ygg_service flags.ygg_bin) disk priv_key

  -- What a success of `connect_tun` passed through.
  pub connect_tun-parts :
      (c : Connected)
      → connect_tun w flags disk priv_key ≡ ok c
      → (configured.0 ≡ ok tt)
        × (done.result ≡ ok tt)
        × (c ≡ record {
          service = some done.service;
          disk = configured.1;
          effects = query_service ∷ done.effects;
        })
  unfolding connect_tun
  connect_tun-parts c h =
      let (_, wrote, h') = passed configured.0 _ h in
      let (_, ran, h'') = passed done.result _ h' in (wrote, ran, ground (arith, h''))

  written-installed : w.installed ≡ true → configured ≡ (ok tt, disk)
  unfolding configure
  written-installed h = ground (arith, h)

  written-own : w.installed ≡ false → configured.0 ≡ ok tt → IsConfigured w priv_key configured.1
  written-own h k =
      let e : configured
          ≡ write_config w.encode (new_ygg_service flags.ygg_bin) disk (priv_key_hex priv_key) =
        unfold configure in ground (arith, h) in
      written-IsConfigured w flags.ygg_bin priv_key disk configured.1 (sym e ∙ ground (arith, k))

  -- If the TUN mode comes up, and the two questions whether the service of Yggdrasil is installed
  -- have the same answer, then that service is used, with nothing written and nothing started; or
  -- the process of Yggdrasil runs and has answered, it was told to read the file of the
  -- configuration, and that file holds the configuration with the private key of the node.
  pub connect_tun-IsConnected :
      (c : Connected)
      → w.installed ≡ w.host.installed
      → connect_tun w flags disk priv_key ≡ ok c
      → IsConnected w priv_key disk c
  connect_tun-IsConnected c same h =
      let (wrote, ran, e) = connect_tun-parts c h in
      rw e (elim (start-IsStarted w.host flags.ygg_bin) [
        | inl (there, _, _, left) ↦ inl (
          there,
          ap (λ (r : Outcome (Unit {0}) × Disk). r.1) (written-installed (same ∙ there)),
          after-query clean done.effects ∙ left,
        )
        | inr (inl (absent, path, cfg, _, conf, _, _, ready, _, cmd, _, left)) ↦ inr (
          absent,
          written-own (same ∙ absent) wrote,
          done.service,
          path,
          cfg,
          refl,
          conf,
          cmd,
          ready,
          after-query clean done.effects ∙ left,
        )
        | inr (inr (_, x, bad, _, _)) ↦ absurd (err_apart (sym bad ∙ ran))
      ])
