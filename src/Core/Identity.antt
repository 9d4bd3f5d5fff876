-- ===== src/Core/Identity.antt =====
-- The keys of the node in core/identity.go. The files are parameters: what can be read under a path,
-- and whether a path can be written. `json` is `encoding/json` on `Identity`, `trim` is
-- `bytes.TrimSpace`, and `random` what `ed25519.GenerateKey` reads, where `none` is its error.
pub mod Config
pub mod Saved
use mesh_net.Base.{
  ℕ, ◌≡◌, Bool, true, false, not, ◌||◌, ◌==◌, ltb, if◌then◌else◌, Option, none, some, List, [], ◌∷◌,
  length, take, drop, Bytes, bytes_eq, bytes_eq_refl, codes, refl,
}
use mesh_net.Outcome.{
  Outcome, ok, err, panics, ◌>>=◌, FileRead, content, missing, unreadable, key_not_generated,
  identity_not_read, identity_not_parsed, identity_not_saved, invalid_private_key,
  invalid_public_key, invalid_yggdrasil_key, private_key_not_found,
}
use mesh_net.Crypto.{Crypto, public}
use mesh_net.Dht.NodeId.{hex_encode, hex_decode, copy_32}
use mesh_net.Dht.Env.{Codec}

pub record Identity : Type 0 where
  pub private_key : Bytes
  pub public_key : Bytes

-- The results `(ed25519.PublicKey, ed25519.PrivateKey)`.
pub record Keys : Type 0 where
  pub pub_key : Bytes
  pub priv_key : Bytes

pub record Disk : Type 0 where
  pub read : Bytes → FileRead
  pub writable : Bytes → Bool

-- The argument is `os.Getenv("IDENTITY")`.
unfoldable pub identity_file_path : Bytes → Bytes
identity_file_path path = if bytes_eq path [] then codes "identity.json" else path

abbrev pub yggdrasil_config_path : Bytes
yggdrasil_config_path = codes "C:\\ProgramData\\Yggdrasil\\yggdrasil.conf"

unfoldable pub priv_key_hex : Bytes → Bytes
priv_key_hex priv_key = hex_encode priv_key

-- `os.WriteFile`, where it succeeds.
unfoldable pub write_file : Disk → Bytes → Bytes → Disk
write_file disk path text = record disk {
  read = λ p. if bytes_eq path p then content text else disk.read p;
}

pub read-write_file :
    (disk : Disk) (path text : Bytes) → (write_file disk path text).read path ≡ content text
unfolding write_file
read-write_file disk path text = rw (bytes_eq_refl path) refl

abbrev glue : ℕ → List Bytes → List Bytes
glue x [] = (x ∷ []) ∷ []
glue x (line ∷ lines) = (x ∷ line) ∷ lines

-- `bytes.Split(data, "\n")`
unfoldable pub split_lines : Bytes → List Bytes
split_lines [] = [] ∷ []
split_lines (x ∷ b) = let lines = split_lines b in if x == b'\n' then [] ∷ lines else glue x lines

-- `bytes.HasPrefix`
unfoldable pub has_prefix : Bytes → Bytes → Bool
has_prefix b prefix = bytes_eq (take (length prefix) b) prefix

-- `parts[1]` of `bytes.SplitN(b, ":", 2)`, if there are two parts.
unfoldable pub after_colon : Bytes → Option Bytes
after_colon [] = none
after_colon (x ∷ b) = let rest = after_colon b in if x == b':' then some b else rest

abbrev pub is_comment : Bytes → Bool
is_comment [] = true
is_comment (x ∷ b) = x == b'#'

module _ (trim : Bytes → Bytes) where
  -- The text of the key in a line, up to the last `continue` of the loop's body.
  unfoldable pub key_hex : Bytes → Option Bytes
  key_hex line =
      if is_comment (trim line) || not (has_prefix (trim line) (codes "PrivateKey:"))
      then none
      else elim (after_colon (trim line)) [
        | none ↦ none
        | some part ↦ if bytes_eq (trim part) [] then none else some (trim part)
      ]

  -- The end of the loop's body.
  unfoldable pub decode_key : Bytes → Outcome (Option Keys)
  decode_key text = elim (hex_decode text) [
    | none ↦ err invalid_yggdrasil_key
    | some key ↦ (do pub_key ← public key; ok (some (record { pub_key = pub_key; priv_key = key })))
  ]

  -- The loop over the lines, and what is behind it.
  unfoldable pub scan_lines : List Bytes → Outcome (Option Keys)
  scan_lines [] = err private_key_not_found
  scan_lines (line ∷ lines) =
      let rest = scan_lines lines in
      elim (key_hex line) [ none ↦ rest | some text ↦ decode_key text ]

  -- `ok none` is `nil, nil, nil`.
  unfoldable pub try_read_yggdrasil_identity : Disk → Outcome (Option Keys)
  try_read_yggdrasil_identity disk = elim (disk.read yggdrasil_config_path) [
    | content text ↦ scan_lines (split_lines text)
    | missing ↦ ok none
    | unreadable ↦ ok none
  ]

module _ (crypto : Crypto) (json : Codec Identity) where
  unfoldable pub create_and_save_identity : Bytes → Option Bytes → Disk → Outcome Keys × Disk
  create_and_save_identity path none disk = (err key_not_generated, disk)
  create_and_save_identity path (some seed) disk =
      let keys : Keys = record {
        pub_key = copy_32 (drop 32 (crypto.new_key seed));
        priv_key = crypto.new_key seed;
      } in
      if disk.writable path
      then (
        ok keys,
        write_file disk path (
            json.marshal (record {
              private_key = hex_encode keys.priv_key;
              public_key = hex_encode keys.pub_key;
            })),
      )
      else (err identity_not_saved, disk)

  -- What is made of the content of the identity file.
  unfoldable pub decode_identity : Bytes → Outcome Keys
  decode_identity text = elim (json.unmarshal text) [
    | none ↦ err identity_not_parsed
    | some identity ↦ elim (hex_decode identity.private_key) [
      | none ↦ err invalid_private_key
      | some priv_key ↦ elim (hex_decode identity.public_key) [
        | none ↦ err invalid_public_key
        | some pub_key ↦ ok (record { pub_key = pub_key; priv_key = priv_key })
      ]
    ]
  ]

  -- The part of `loadOrCreateIdentity` behind the Yggdrasil identity.
  unfoldable pub load_own_identity : Bytes → Option Bytes → Disk → Outcome Keys × Disk
  load_own_identity path random disk = elim (disk.read path) [
    | content text ↦ (decode_identity text, disk)
    | missing ↦ create_and_save_identity path random disk
    | unreadable ↦ (err identity_not_read, disk)
  ]

  -- `env_path` is the value of the variable `IDENTITY`.
  unfoldable pub load_or_create_identity :
      (Bytes → Bytes) → Bytes → Option Bytes → Disk → Outcome Keys × Disk
  load_or_create_identity trim env_path random disk = elim (try_read_yggdrasil_identity trim disk) [
    | err e ↦ (err e, disk)
    | panics ↦ (panics, disk)
    | ok (some keys) ↦ (ok keys, disk)
    | ok none ↦ load_own_identity (identity_file_path env_path) random disk
  ]
