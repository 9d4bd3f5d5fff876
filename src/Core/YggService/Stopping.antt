-- ===== src/Core/YggService/Stopping.antt =====
-- `Stop` of core/yggservice.go after `Start`.
use mesh_net.Base.{◌≡◌, refl, ◌∙◌, Bool, true, some, ◌++◌, Bytes, arith, inl, inr, ap}
use mesh_net.Core.YggService.{YggService, Cmd, Host, new_ygg_service, start, stop}
use mesh_net.Core.YggService.Effects.{effect, after, clean, after-append}
use mesh_net.Core.YggService.Starting.{start-IsStarted}

-- `Stop` starts nothing and opens nothing.
stop-clean : (s : YggService) → after clean (stop s) ≡ clean
unfolding stop after effect
stop-clean s = ground arith

stop-running :
    (s : YggService) (c : Cmd) (log : Bool)
    → s.cmd ≡ some c
    → c.started ≡ true
    → s.has_log ≡ log
    → after (record { process = true; log = log }) (stop s) ≡ clean
unfolding stop after effect
stop-running s c log h st l = ground (arith, h, st, l)

-- However `Start` of a new service ends, a `Stop` behind it leaves no process that it started and no
-- open log file.
pub start-stop :
    (host : Host) (bin_path : Bytes)
    → after clean (
        (start host (new_ygg_service bin_path)).effects
        ++ stop (start host (new_ygg_service bin_path)).service)
      ≡ clean
start-stop host bin_path =
    let d = start host (new_ygg_service bin_path) in
    after-append clean d.effects (stop d.service) ∙ elim (start-IsStarted host bin_path) [
      | inl (_, _, _, same) ↦ ap (λ l. after l (stop d.service)) same ∙ stop-clean d.service
      | inr (inl (_, path, cfg, _, _, _, _, _, _, cmd, log, left)) ↦
          ap (λ l. after l (stop d.service)) left
          ∙ stop-running d.service _ host.log_opens cmd refl log
      | inr (inr (_, _, _, _, same)) ↦
          ap (λ l. after l (stop d.service)) same ∙ stop-clean d.service
    ]
