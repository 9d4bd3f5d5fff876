-- ===== src/Core/Identity/Config.antt =====
-- The key in the configuration of an installed Yggdrasil, for core/identity.go.
use mesh_net.Base.{
  ◌<◌, ◌≤◌, ◌≡◌, ◌≢◌, refl, ap, ◌∙◌, ltb, Option, none, some, List, [], ◌∷◌, ◌++◌, length, drop,
  Bytes, bytes_eq, bytes_eq_iff, codes, All, IsByte, arith, inl, inr, ◌⊎◌, Option-cases, Bool-cases,
}
use mesh_net.Outcome.{
  Outcome, ok, err, panics, content, invalid_yggdrasil_key, private_key_not_found,
}
use mesh_net.Crypto.{Crypto, public}
use mesh_net.Dht.NodeId.{hex_encode, hex_decode, copy_32}
use mesh_net.Dht.NodeId.Hex.{hex_decode-hex_encode}
use mesh_net.Dht.Register.Signed.{public-ok}
use mesh_net.Dht.Env.{Codec}
use mesh_net.Core.Identity.{
  Identity, Keys, Disk, yggdrasil_config_path, priv_key_hex, split_lines, has_prefix, after_colon,
  key_hex, decode_key, scan_lines, try_read_yggdrasil_identity, load_or_create_identity,
}

-- What becomes of the text of a key: an error if it is not hexadecimal, a panic if it has less than
-- 32 bytes, and else the keys, where any longer text is taken for a private key.
abbrev pub IsDecoded : Bytes → Outcome (Option Keys) → Type 0
IsDecoded text o =
    ((hex_decode text ≡ none) × (o ≡ err invalid_yggdrasil_key))
    ⊎ ((key : Bytes) × (hex_decode text ≡ some key)
        × (((length key < 32) × (o ≡ panics))
            ⊎ ((32 ≤ length key)
                × (o ≡ ok (some (record { pub_key = copy_32 (drop 32 key); priv_key = key }))))))

module _ (trim : Bytes → Bytes) where
  decode_key-IsDecoded : (text : Bytes) → IsDecoded text (decode_key trim text)
  unfolding decode_key public
  decode_key-IsDecoded text = elim (Option-cases (hex_decode text)) [
    | inl e ↦ inl (e, ground (arith, e))
    | inr (key, e) ↦ elim (Bool-cases (ltb (length key) 32)) [
      | inl short ↦ inr (key, e, inl (ground arith, ground (arith, e)))
      | inr long ↦ inr (key, e, inr (ground arith, ground (arith, e)))
    ]
  ]

  scan_lines-skip :
      (before lines : List Bytes)
      → All (λ l. key_hex trim l ≡ none) before
      → scan_lines trim (before ++ lines) ≡ scan_lines trim lines
  unfolding scan_lines
  scan_lines-skip [] lines h = refl
  scan_lines-skip (l ∷ before) lines h = ground (arith, h.0, scan_lines-skip before lines h.1)

  scan_lines-key :
      (line text : Bytes) (lines : List Bytes)
      → key_hex trim line ≡ some text
      → scan_lines trim (line ∷ lines) ≡ decode_key trim text
  unfolding scan_lines
  scan_lines-key line text lines h = ground (arith, h)

  try_read-content :
      (disk : Disk) (text : Bytes)
      → disk.read yggdrasil_config_path ≡ content text
      → try_read_yggdrasil_identity trim disk ≡ scan_lines trim (split_lines text)
  unfolding try_read_yggdrasil_identity
  try_read-content disk text h = ground (arith, h)

  -- The first line of Yggdrasil's configuration that holds a key decides, whatever follows: its
  -- text is an error if it is not hexadecimal, a panic if it has less than 32 bytes, and else taken
  -- for the private key, of which the public key is the rest behind 32 bytes, filled up with zeros
  -- or cut off to 32 bytes.
  pub try_read_yggdrasil_identity-first :
      (disk : Disk) (text line key_text : Bytes) (before after : List Bytes)
      → disk.read yggdrasil_config_path ≡ content text
      → split_lines text ≡ before ++ line ∷ after
      → All (λ l. key_hex trim l ≡ none) before
      → key_hex trim line ≡ some key_text
      → IsDecoded key_text (try_read_yggdrasil_identity trim disk)
  try_read_yggdrasil_identity-first disk text line key_text before after h lines skipped key =
      let read : try_read_yggdrasil_identity trim disk ≡ decode_key trim key_text =
        try_read-content disk text h
        ∙ ap (scan_lines trim) lines
        ∙ scan_lines-skip before (line ∷ after) skipped
        ∙ scan_lines-key line key_text after key in
      rw read (decode_key-IsDecoded key_text)

  scan_lines-none :
      (lines : List Bytes)
      → All (λ l. key_hex trim l ≡ none) lines
      → scan_lines trim lines ≡ err private_key_not_found
  unfolding scan_lines
  scan_lines-none [] h = refl
  scan_lines-none (l ∷ lines) h = ground (arith, h.0, scan_lines-none lines h.1)

  -- Where Yggdrasil's configuration can be read and no line of it holds a key, the node has no
  -- identity: there is no fallback to its own identity file, nor is one written.
  pub load_or_create_identity-no_fallback :
      (crypto : Crypto) (json : Codec Identity) (env_path : Bytes) (random : Option Bytes)
      (disk : Disk) (text : Bytes)
      → disk.read yggdrasil_config_path ≡ content text
      → All (λ l. key_hex trim l ≡ none) (split_lines text)
      → load_or_create_identity crypto json trim env_path random disk
        ≡ (err private_key_not_found, disk)
  unfolding load_or_create_identity
  load_or_create_identity-no_fallback crypto json env_path random disk text h none_there =
      let read : try_read_yggdrasil_identity trim disk ≡ err private_key_not_found =
        try_read-content disk text h ∙ scan_lines-none (split_lines text) none_there in
      ground (arith, read)

  key_hex-line :
      (line part text : Bytes)
      → trim line ≡ codes "PrivateKey:" ++ part
      → trim part ≡ text
      → text ≢ []
      → key_hex trim line ≡ some text
  unfolding key_hex has_prefix after_colon bytes_eq
  key_hex-line line part text h k n = rw h (ground (arith, k, n, bytes_eq_iff text []))

  decode_key-hex :
      (key : Bytes)
      → length key ≡ 64
      → All IsByte key
      → decode_key trim (hex_encode key)
        ≡ ok (some (record { pub_key = drop 32 key; priv_key = key }))
  unfolding decode_key
  decode_key-hex key size bytes =
      ground (arith, hex_decode-hex_encode key bytes, public-ok key size)

  hex_encode-nonempty : (key : Bytes) → length key ≡ 64 → hex_encode key ≢ []
  unfolding hex_encode
  hex_encode-nonempty [] size = absurd (omega (arith, size))
  hex_encode-nonempty (x ∷ key) size = λ e. cc

  -- A line "PrivateKey: " with the text that `PrivKeyHex` gives of a key of 64 bytes is read as
  -- that key, whatever the other lines, if no line before it holds a key, and if `bytes.TrimSpace`
  -- leaves the line as it is and takes the space off the text.
  pub try_read_yggdrasil_identity-priv_key_hex :
      (disk : Disk) (text key : Bytes) (before after : List Bytes)
      → disk.read yggdrasil_config_path ≡ content text
      → split_lines text ≡ before ++ (codes "PrivateKey: " ++ priv_key_hex key) ∷ after
      → All (λ l. key_hex trim l ≡ none) before
      → trim (codes "PrivateKey: " ++ priv_key_hex key) ≡ codes "PrivateKey: " ++ priv_key_hex key
      → trim (codes " " ++ priv_key_hex key) ≡ priv_key_hex key
      → (length key ≡ 64) × All IsByte key
      → try_read_yggdrasil_identity trim disk
        ≡ ok (some (record { pub_key = drop 32 key; priv_key = key }))
  unfolding priv_key_hex
  try_read_yggdrasil_identity-priv_key_hex disk text key before after h lines skipped whole inner
        (size, bytes) =
      try_read-content disk text h
      ∙ ap (scan_lines trim) lines
      ∙ scan_lines-skip before ((codes "PrivateKey: " ++ priv_key_hex key) ∷ after) skipped
      ∙ scan_lines-key _ (hex_encode key) after (
          key_hex-line _ (codes " " ++ hex_encode key) (hex_encode key) whole inner
            (hex_encode-nonempty key size))
      ∙ decode_key-hex key size bytes
