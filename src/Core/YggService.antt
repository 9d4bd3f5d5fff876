-- ===== src/Core/YggService.antt =====
-- The Yggdrasil subprocess of core/yggservice.go: `WriteConfig`, `Start` and `Stop`. What
-- the host answers is a parameter, `Host`; what a call does to the host is the list of its effects, in
-- their order. Waiting, printing and the connections that `isSubprocessRunning` opens and closes are
-- left out.
pub mod Address
pub mod Effects
pub mod Starting
pub mod Stopping
use mesh_net.Base.{
  ℕ, zero, suc, ◌+◌, ◌≡◌, Bool, true, false, ◌||◌, if◌then◌else◌, Option, none, some, List, [], ◌∷◌,
  ◌++◌, map, Bytes, bytes_eq, codes,
}
use mesh_net.Outcome.{
  Outcome, ok, err, panics, Error, config_not_encoded, config_not_written, invalid_binary_path,
  binary_not_found, invalid_config_path, yggdrasil_not_started, yggdrasil_not_ready,
  admin_not_reached, admin_not_read, admin_not_parsed, address_not_found,
}
use mesh_net.Core.Identity.{Disk, write_file}

abbrev pub ygg_config_file : Bytes
ygg_config_file = codes "yggdrasil-meshnet.conf"

abbrev pub ygg_admin_addr : Bytes
ygg_admin_addr = codes "localhost:9001"

abbrev pub ygg_subprocess_admin_addr : Bytes
ygg_subprocess_admin_addr = codes "localhost:9091"

abbrev pub ygg_log_file : Bytes
ygg_log_file = codes "yggdrasil.log"

pub record YggConfig : Type 0 where
  pub private_key : Bytes
  pub peers : List Bytes
  pub if_name : Bytes
  pub if_mtu : ℕ
  pub admin_listen : Bytes

-- `exec.Command(path, args...)`. `logged` says that its output goes to the log file, and `started`
-- that `Process` is not nil.
pub record Cmd : Type 0 where
  pub path : Bytes
  pub args : List Bytes
  pub logged : Bool
  pub started : Bool

-- `has_log` says that the field `logFile` is not nil.
pub record YggService : Type 0 where
  pub cmd : Option Cmd
  pub bin_path : Bytes
  pub cfg_path : Bytes
  pub has_log : Bool

unfoldable pub new_ygg_service : Bytes → YggService
new_ygg_service bin_path = record {
  cmd = none;
  bin_path = bin_path;
  cfg_path = ygg_config_file;
  has_log = false;
}

abbrev pub config_peers : List Bytes
config_peers =
    codes "tls://62.210.85.80:39575"
    ∷ codes "tls://51.15.204.214:54321"
    ∷ codes "tls://n.ygg.yt:443"
    ∷ codes
        "tls://ygg7.mk16.de:1338?key=000000086278b5f3ba1eb63acb5b7f6e406f04ce83990dee9c07f49011e375ae"
    ∷ codes "tls://syd.joel.net.au:8443"
    ∷ codes "tls://95.217.35.92:1337"
    ∷ codes "tls://37.205.14.171:993"
    ∷ []

unfoldable pub ygg_config : Bytes → YggConfig
ygg_config priv_key_hex = record {
  private_key = priv_key_hex;
  peers = config_peers;
  if_name = codes "auto";
  if_mtu = 65_535;
  admin_listen = ygg_subprocess_admin_addr;
}

-- `encode` is `json.MarshalIndent`; `none` is its error.
unfoldable pub write_config :
    (YggConfig → Option Bytes) → YggService → Disk → Bytes → Outcome (Unit {0}) × Disk
write_config encode s disk priv_key_hex = elim (encode (ygg_config priv_key_hex)) [
  | none ↦ (err config_not_encoded, disk)
  | some text ↦
      if disk.writable s.cfg_path
      then (ok tt, write_file disk s.cfg_path text)
      else (err config_not_written, disk)
]

-- What a call does to the host: the commands `sc` and `netsh`, a request to the admin socket of the
-- installed service, the log file opened and closed, and the process started, killed and waited for.
pub data Effect : Type 0 where
  query_service : Effect
  delete_adapter : Effect
  request : Bytes → Effect
  open_log : Effect
  close_log : Effect
  spawn : Bytes → List Bytes → Effect
  kill : Effect
  wait : Effect

-- What the host answers: `sc query Yggdrasil`; the admin socket of the installed service;
-- `filepath.Abs`, where `none` is its error; `os.IsNotExist` of `os.Stat`; the open of the log file;
-- `cmd.Start`; and the dial of the socket of the subprocess at each poll.
pub record Host : Type 0 where
  pub installed : Bool
  pub admin : Bool
  pub abs : Bytes → Option Bytes
  pub not_exist : Bytes → Bool
  pub log_opens : Bool
  pub starts : Bytes → List Bytes → Bool
  pub dials : ℕ → Bool

-- `fmt.Sprintf` and the newline of `addPeersViaAdmin`
abbrev pub add_peer_request : Bytes → Bytes
add_peer_request peer =
    codes "{\"request\":\"addPeer\",\"uri\":\"" ++ (peer ++ (codes "\"}" ++ 10 ∷ []))

unfoldable pub add_peers_via_admin : Host → List Effect
add_peers_via_admin host =
    if host.admin then map (λ (p : Bytes). request (add_peer_request p)) config_peers else []

-- A method returns the service, its error, and its effects.
pub record Done : Type 0 where
  pub service : YggService
  pub result : Outcome (Unit {0})
  pub effects : List Effect

abbrev pub fails : YggService → List Effect → Error → Done
fails s effects e = record { service = s; result = err e; effects = effects }

-- The loop over `isSubprocessRunning`, with `n` rounds left from round `i` on.
unfoldable pub poll_admin : Host → ℕ → ℕ → Bool
poll_admin host zero i = false
poll_admin host (suc n) i =
    let rest = poll_admin host n (suc i) in if host.dials i then true else rest

abbrev pub closing : Bool → List Effect
closing true = close_log ∷ []
closing false = []

abbrev pub opening : Bool → List Effect
opening true = open_log ∷ []
opening false = []

abbrev pub ygg_args : Bytes → List Bytes
ygg_args cfg = codes "-useconffile" ∷ cfg ∷ codes "-logto" ∷ codes "stdout" ∷ []

-- `s` when `cmd.Start` is called.
unfoldable pub with_cmd : Host → YggService → Bytes → Bytes → YggService
with_cmd host s path cfg = record s {
  cmd =
      some (record { path = path; args = ygg_args cfg; logged = host.log_opens; started = false });
  has_log = host.log_opens || s.has_log;
}

abbrev pub with_process : YggService → Bytes → Bytes → Bool → YggService
with_process s path cfg logged = record s {
  cmd = some (record { path = path; args = ygg_args cfg; logged = logged; started = true });
}

-- `Start` from the removal of the adapter on.
unfoldable pub launch : Host → YggService → Bytes → Bytes → Done
launch host s path cfg =
    let before = query_service ∷ delete_adapter ∷ opening host.log_opens in
    let s' = with_cmd host s path cfg in
    let running = before ++ spawn path (ygg_args cfg) ∷ [] in
    if host.starts path (ygg_args cfg)
    then (if poll_admin host 60 0
        then record {
          service = with_process s' path cfg host.log_opens;
          result = ok tt;
          effects = running;
        }
        else fails (with_process s' path cfg host.log_opens) (running ++ kill ∷ closing s'.has_log)
            yggdrasil_not_ready)
    else fails s' (before ++ closing s'.has_log) yggdrasil_not_started

unfoldable pub start : Host → YggService → Done
start host s =
    if host.installed
    then record { service = s; result = ok tt; effects = query_service ∷ add_peers_via_admin host }
    else elim (host.abs s.bin_path) [
      | none ↦ fails s (query_service ∷ []) invalid_binary_path
      | some path ↦
          if host.not_exist path
          then fails s (query_service ∷ []) binary_not_found
          else elim (host.abs s.cfg_path) [
            | none ↦ fails s (query_service ∷ []) invalid_config_path
            | some cfg ↦ launch host s path cfg
          ]
    ]

abbrev pub is_started : Option Cmd → Bool
is_started none = false
is_started (some c) = c.started

-- The errors of `Kill`, `Wait` and `Close` are ignored, and the fields stay as they are.
unfoldable pub stop : YggService → List Effect
stop s = if is_started s.cmd then kill ∷ wait ∷ (closing s.has_log ++ delete_adapter ∷ []) else []
