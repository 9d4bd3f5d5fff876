-- ===== src/Core/Tests.antt =====
-- The theorems on the package `core`, at concrete files.
use mesh_net.Base.{
  ◌≡◌, refl, true, false, ◌==◌, if◌then◌else◌, none, some, [], ◌∷◌, ◌++◌, drop, replicate, Bytes,
  bytes_eq, codes,
}
use mesh_net.Outcome.{ok, err, content, missing, private_key_not_found}
use mesh_net.Dht.NodeId.{hex_encode}
use mesh_net.Dht.Env.{Codec}
use mesh_net.Dht.Tests.Samples.{toy, toy-IsCrypto, is_bytes-IsByte}
use mesh_net.Core.Identity.{
  Identity, Disk, yggdrasil_config_path, identity_file_path, split_lines, has_prefix, after_colon,
  key_hex, try_read_yggdrasil_identity, load_or_create_identity,
}
use mesh_net.Core.Identity.Config.{
  IsDecoded, try_read_yggdrasil_identity-first, load_or_create_identity-no_fallback,
}
use mesh_net.Core.YggService.{Host, new_ygg_service, start}
use mesh_net.Core.YggService.Starting.{IsStarted, start-IsStarted}
use mesh_net.Core.Identity.Saved.{keys_of, load_or_create_identity-again}

-- White space is trimmed at the start.
abbrev trim : Bytes → Bytes
trim [] = []
trim (x ∷ b) = if x == b' ' then trim b else x ∷ b

abbrev with_config : Bytes → Disk
with_config text = record {
  read = λ path. if bytes_eq path yggdrasil_config_path then content text else missing;
  writable = λ path. true;
}

abbrev seed : Bytes
seed = replicate 32 1

abbrev identity_json : Codec Identity
identity_json = record {
  marshal = λ i. i.private_key;
  unmarshal = λ text. some (record { private_key = text; public_key = drop 64 text });
}

abbrev commented : Bytes
commented = codes "# keys\n"

abbrev short_config : Bytes
short_config = commented ++ codes "PrivateKey: 0102\nAdminListen: none"

try_read_yggdrasil_identity-first_example :
    IsDecoded (codes "0102") (try_read_yggdrasil_identity trim (with_config short_config))
unfolding bytes_eq split_lines key_hex has_prefix after_colon
try_read_yggdrasil_identity-first_example =
    try_read_yggdrasil_identity-first trim (with_config short_config) short_config
      (codes "PrivateKey: 0102") (codes "0102") (codes "# keys" ∷ [])
      (codes "AdminListen: none" ∷ []) refl refl (refl, tt) refl

load_or_create_identity-no_fallback_example :
    load_or_create_identity toy identity_json trim [] (some seed) (with_config commented)
    ≡ (err private_key_not_found, with_config commented)
unfolding bytes_eq split_lines key_hex has_prefix after_colon
load_or_create_identity-no_fallback_example =
    load_or_create_identity-no_fallback trim toy identity_json [] (some seed)
      (with_config commented) commented refl (refl, (refl, tt))

abbrev empty_disk : Disk
empty_disk = record { read = λ path. missing; writable = λ path. true }

load_or_create_identity-again_example :
    (disk' : Disk) × (load_or_create_identity toy identity_json trim [] (some seed) empty_disk
      ≡ (ok (keys_of toy seed), disk'))
    × (load_or_create_identity toy identity_json trim [] none disk'
        ≡ (ok (keys_of toy seed), disk'))
unfolding hex_encode identity_file_path bytes_eq
load_or_create_identity-again_example =
    load_or_create_identity-again toy identity_json trim [] seed none empty_disk toy-IsCrypto
      (refl, is_bytes-IsByte seed refl) refl refl refl refl (λ e. cc)

-- A host without the service, whose process answers the third poll.
abbrev host : Host
host = record {
  installed = false;
  admin = false;
  abs = λ path. some path;
  not_exist = λ path. false;
  log_opens = false;
  starts = λ path args. true;
  dials = λ i. i == 2;
}

start-IsStarted_example :
    IsStarted host
      (codes "bin/yggdrasil.exe")
      (start host (new_ygg_service (codes "bin/yggdrasil.exe")))
start-IsStarted_example = start-IsStarted host (codes "bin/yggdrasil.exe")
