-- ===== src/Core/YggService/Effects.antt =====
-- What the effects of core/yggservice.go leave on the host: whether the process that it started runs,
-- and whether the log file is open.
use mesh_net.Base.{arith, ◌≡◌, refl, Bool, true, false, List, [], ◌∷◌, ◌++◌, map, Bytes}
use mesh_net.Core.YggService.{
  Effect, query_service, delete_adapter, request, open_log, close_log, spawn, kill, wait,
  add_peers_via_admin, add_peer_request, config_peers, Host,
}

pub record Left : Type 0 where
  pub process : Bool
  pub log : Bool

unfoldable pub effect : Left → Effect → Left
effect l query_service = l
effect l delete_adapter = l
effect l (request _) = l
effect l open_log = record l { log = true }
effect l close_log = record l { log = false }
effect l (spawn _ _) = record l { process = true }
effect l kill = record l { process = false }
effect l wait = l

unfoldable pub after : Left → List Effect → Left
after l [] = l
after l (e ∷ es) = after (effect l e) es

-- No process, and no open log file.
abbrev pub clean : Left
clean = record { process = false; log = false }

pub after-append : (l : Left) (es fs : List Effect) → after l (es ++ fs) ≡ after (after l es) fs
unfolding after
after-append l [] fs = refl
after-append l (e ∷ es) fs = after-append (effect l e) es fs

pub after-query : (l : Left) (es : List Effect) → after l (query_service ∷ es) ≡ after l es
unfolding after effect
after-query l es = refl

after-requests :
    (l : Left) (ps : List Bytes)
    → after l (map (λ (p : Bytes). request (add_peer_request p)) ps) ≡ l
unfolding after effect
after-requests l [] = refl
after-requests l (p ∷ ps) = after-requests l ps

-- The requests of `addPeersViaAdmin` leave all as it was.
pub after-add_peers : (host : Host) (l : Left) → after l (add_peers_via_admin host) ≡ l
unfolding add_peers_via_admin after
after-add_peers host l = ground (arith, after-requests l config_peers)
