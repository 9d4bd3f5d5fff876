-- ===== src/Dht/Store/Faults.antt =====
-- When `Verify` and `Put` of dht/store.go panic.
use mesh_net.Base.{ℕ, ◌≡◌, ◌≢◌, ◌↔◌, false, some, Bytes, arith, Option-cases, inl, inr, length}
use mesh_net.Outcome.{panics}
use mesh_net.Crypto.{Crypto, ed25519_verify}
use mesh_net.Dht.NodeId.{hex_decode}
use mesh_net.Dht.Store.{Record, Store, is_expired, verify, verify_decoded, put, put_locked}

module _ (crypto : Crypto) where
  -- A key of another length, with a signature that can be decoded.
  pub record HasBadKey (r : Record) : Type 0 where
    pub key : Bytes
    pub sig : Bytes
    pub key_decoded : hex_decode r.public_key ≡ some key
    pub sig_decoded : hex_decode r.signature ≡ some sig
    pub bad_length : length key ≢ 32

  verify_decoded_panics :
      (r : Record) (key sig : Bytes)
      → (verify_decoded crypto r key sig ≡ panics) ↔ (length key ≢ 32)
  unfolding verify_decoded ed25519_verify
  verify_decoded_panics r key sig = ground arith

  verify_panics : (r : Record) → HasBadKey r → verify crypto r ≡ panics
  unfolding verify
  verify_panics r b = ground (arith, verify_decoded_panics r b.key b.sig)

  bad_key : (r : Record) → verify crypto r ≡ panics → HasBadKey r
  unfolding verify
  bad_key r p = elim (Option-cases (hex_decode r.public_key)) [
    | inl no_key ↦ absurd (ground arith)
    | inr (key, e) ↦ elim (Option-cases (hex_decode r.signature)) [
      | inl no_sig ↦ absurd (ground arith)
      | inr (sig, f) ↦ record {
        key = key;
        sig = sig;
        key_decoded = e;
        sig_decoded = f;
        bad_length = (verify_decoded_panics r key sig).0 (ground arith);
      }
    ]
  ]

  put_locked-ne-panics : (s : Store) (r : Record) → (put_locked s r).1 ≢ panics
  unfolding put_locked
  put_locked-ne-panics s r = ground arith

  -- `Put` panics exactly on a record that has not expired, whose public key and signature are
  -- hexadecimal, and whose public key has not 32 bytes.
  pub put_panics_iff :
      (now : ℕ) (s : Store) (r : Record)
      → ((put crypto now s r).1 ≡ panics) ↔ ((is_expired now r ≡ false) × HasBadKey r)
  unfolding put
  put_panics_iff now s r = (
    λ p. (ground arith, bad_key r (ground (arith, put_locked-ne-panics s r))),
    λ (fresh, bad). ground (arith, verify_panics r bad),
  )
