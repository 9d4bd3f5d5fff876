-- ===== src/Core/Identity/Saved.antt =====
-- The identity file of core/identity.go.
use mesh_net.Base.{
  ◌≡◌, ◌≢◌, ap, ◌∙◌, true, Option, none, some, length, length-drop, drop, Bytes, bytes_eq_iff, All,
  IsByte, arith,
}
use mesh_net.Outcome.{ok, content, missing}
use mesh_net.Crypto.{Crypto, IsCrypto}
use mesh_net.Dht.NodeId.{hex_encode, copy_32}
use mesh_net.Dht.NodeId.Hex.{hex_decode-hex_encode, copy_32_id}
use mesh_net.Dht.Register.Signed.{drop-All}
use mesh_net.Dht.Env.{Codec}
use mesh_net.Core.Identity.{
  Identity, Keys, Disk, yggdrasil_config_path, identity_file_path, write_file, read-write_file,
  try_read_yggdrasil_identity, create_and_save_identity, decode_identity, load_own_identity,
  load_or_create_identity,
}

-- What is written of the keys made of 32 random bytes.
abbrev pub saved : Crypto → Bytes → Identity
saved crypto seed = record {
  private_key = hex_encode (crypto.new_key seed);
  public_key = hex_encode (drop 32 (crypto.new_key seed));
}

abbrev pub keys_of : Crypto → Bytes → Keys
keys_of crypto seed = record {
  pub_key = drop 32 (crypto.new_key seed);
  priv_key = crypto.new_key seed;
}

try_read-none :
    (trim : Bytes → Bytes) (disk : Disk)
    → disk.read yggdrasil_config_path ≡ missing
    → try_read_yggdrasil_identity trim disk ≡ ok none
unfolding try_read_yggdrasil_identity
try_read-none trim disk h = ground (arith, h)

module _ (crypto : Crypto) (json : Codec Identity) where
  own_identity :
      (trim : Bytes → Bytes) (env_path : Bytes) (random : Option Bytes) (disk : Disk)
      → disk.read yggdrasil_config_path ≡ missing
      → load_or_create_identity crypto json trim env_path random disk
        ≡ load_own_identity crypto json (identity_file_path env_path) random disk
  unfolding load_or_create_identity
  own_identity trim env_path random disk h = ground (arith, try_read-none trim disk h)

  decode-saved :
      (seed text : Bytes)
      → json.unmarshal text ≡ some (saved crypto seed)
      → All IsByte (crypto.new_key seed)
      → decode_identity crypto json text ≡ ok (keys_of crypto seed)
  unfolding decode_identity
  decode-saved seed text h bytes = ground (
    arith,
    h,
    hex_decode-hex_encode (crypto.new_key seed) bytes,
    hex_decode-hex_encode (drop 32 (crypto.new_key seed)) (drop-All 32 (crypto.new_key seed) bytes),
  )

  abbrev written : Bytes → Bytes → Disk → Disk
  written path seed disk = write_file disk path (json.marshal (saved crypto seed))

  created :
      (path seed : Bytes) (disk : Disk)
      → length (crypto.new_key seed) ≡ 64
      → disk.read path ≡ missing
      → disk.writable path ≡ true
      → load_own_identity crypto json path (some seed) disk
        ≡ (ok (keys_of crypto seed), written path seed disk)
  unfolding load_own_identity create_and_save_identity
  created path seed disk size h w =
      let whole : copy_32 (drop 32 (crypto.new_key seed)) ≡ drop 32 (crypto.new_key seed) =
        copy_32_id _ (omega (arith, size, length-drop 32 (crypto.new_key seed))) in
      ground (arith, h, w, whole)

  reads-other :
      (disk : Disk) (path other text : Bytes)
      → path ≢ other
      → (write_file disk path text).read other ≡ disk.read other
  unfolding write_file
  reads-other disk path other text h = ground (arith, h, bytes_eq_iff path other)

  loaded :
      (path text : Bytes) (random : Option Bytes) (disk : Disk)
      → disk.read path ≡ content text
      → load_own_identity crypto json path random disk ≡ (decode_identity crypto json text, disk)
  unfolding load_own_identity
  loaded path text random disk h = ground (arith, h)

  -- Without an installed Yggdrasil and without an identity file, the first start makes new keys of
  -- 32 random bytes and writes them, and every later start reads back the same keys and writes
  -- nothing, where the file can be written, is not the configuration of Yggdrasil itself, and
  -- `encoding/json` reads back what it wrote.
  pub load_or_create_identity-again :
      (trim : Bytes → Bytes) (env_path seed : Bytes) (random : Option Bytes) (disk : Disk)
      → IsCrypto crypto
      → (length seed ≡ 32) × All IsByte seed
      → json.unmarshal (json.marshal (saved crypto seed)) ≡ some (saved crypto seed)
      → disk.read yggdrasil_config_path ≡ missing
      → disk.read (identity_file_path env_path) ≡ missing
      → disk.writable (identity_file_path env_path) ≡ true
      → identity_file_path env_path ≢ yggdrasil_config_path
      → (disk' : Disk) × (load_or_create_identity crypto json trim env_path (some seed) disk
          ≡ (ok (keys_of crypto seed), disk'))
        × (load_or_create_identity crypto json trim env_path random disk'
            ≡ (ok (keys_of crypto seed), disk'))
  load_or_create_identity-again trim env_path seed random disk laws (size, bytes) same bare fresh
        writable apart =
      let path = identity_file_path env_path in
      let text = json.marshal (saved crypto seed) in
      let disk' = written path seed disk in
      (
        disk',
        own_identity trim env_path (some seed) disk bare
            ∙ created path seed disk (laws.key_length seed size) fresh writable,
        own_identity trim env_path random disk' (reads-other disk path _ text apart ∙ bare)
            ∙ loaded path text random disk' (read-write_file disk path text)
            ∙ ap (λ o. (o, disk')) (decode-saved seed text same (laws.key_bytes seed bytes)),
      )
