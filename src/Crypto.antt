-- ===== src/Crypto.antt =====
-- The parts of Go's `crypto/ed25519`, `crypto/sha256` and `encoding/json` that the package `dht`
-- calls, as parameters: their code is not in the repository. The laws are their documented
-- behaviour: sizes, and that a signature made with a private key verifies with its public key.
use mesh_net.Base.{
  ◌≡◌, Bool, true, if◌then◌else◌, Option, List, length, drop, All, Bytes, IsByte, ltb, ◌==◌,
}
use mesh_net.Outcome.{Outcome, ok, panics}
use mesh_net.Dht.NodeId.{ℤ, IsNodeId, copy_32}

-- What `SigningPayload` of dht/store.go encodes. `none` is the nil slice.
pub record Payload : Type 0 where
  pub name : Bytes
  pub address : Bytes
  pub public_key : Bytes
  pub services : Option (List Bytes)
  pub group_key : Bytes
  pub expires : ℤ

pub record Crypto : Type 0 where
  pub marshal_payload : Payload → Bytes
  pub sum_256 : Bytes → Bytes
  -- the private key that `ed25519.GenerateKey` makes of 32 random bytes
  pub new_key : Bytes → Bytes
  -- on public keys of 32 bytes and private keys of 64 bytes
  pub verifies : Bytes → Bytes → Bytes → Bool
  pub signature : Bytes → Bytes → Bytes

-- `ed25519.PrivateKey.Public`: a copy of the second half of the key. `priv[32:]` panics on less.
unfoldable pub public : Bytes → Outcome Bytes
public key = if ltb (length key) 32 then panics else ok (copy_32 (drop 32 key))

module _ (crypto : Crypto) where
  -- `ed25519.Verify` panics if the public key has not 32 bytes.
  unfoldable pub ed25519_verify : Bytes → Bytes → Bytes → Outcome Bool
  ed25519_verify key message sig =
      if length key == 32 then ok (crypto.verifies key message sig) else panics

  -- `ed25519.Sign` panics if the private key has not 64 bytes.
  unfoldable pub ed25519_sign : Bytes → Bytes → Outcome Bytes
  ed25519_sign key message = if length key == 64 then ok (crypto.signature key message) else panics

  -- What is relied on: sizes, and that a generated key's signatures verify.
  pub record IsCrypto : Type 0 where
    pub sum_IsNodeId : (b : Bytes) → IsNodeId (crypto.sum_256 b)
    pub key_length : (seed : Bytes) → length seed ≡ 32 → length (crypto.new_key seed) ≡ 64
    pub key_bytes : (seed : Bytes) → All IsByte seed → All IsByte (crypto.new_key seed)
    pub signature_bytes :
        (key message : Bytes) → All IsByte key → All IsByte (crypto.signature key message)
    pub correct :
        (seed message : Bytes)
        → length seed ≡ 32
        → crypto.verifies
            (drop 32 (crypto.new_key seed))
            message
            (crypto.signature (crypto.new_key seed) message)
          ≡ true
