-- ===== src/Dht/Register/Signed.antt =====
-- `CreateRecord` of dht/register.go against `Verify` of dht/store.go.
use mesh_net.Base.{
  ℕ, zero, suc, ◌≡◌, ◌≢◌, refl, ◌∙◌, true, some, [], ◌∷◌, length, drop, length-drop, Bytes,
  bytes_eq_iff, IsByte, All, arith,
}
use mesh_net.Outcome.{ok, ◌>>=◌, passed}
use mesh_net.Crypto.{Crypto, IsCrypto, public, ed25519_sign, ed25519_verify}
use mesh_net.Dht.NodeId.{hex_encode, hex_decode}
use mesh_net.Dht.NodeId.Hex.{hex_decode-hex_encode, copy_32_id}
use mesh_net.Dht.Store.{Record, verify, verify_decoded, signing_payload}
use mesh_net.Dht.Register.{RegisterOptions, unsigned, sign_record, create_record}

pub drop-All : (n : ℕ) (xs : Bytes) → All IsByte xs → All IsByte (drop n xs)
drop-All zero xs h = h
drop-All (suc n) [] h = tt
drop-All (suc n) (x ∷ xs) h = drop-All n xs h.1

pub public-ok : (key : Bytes) → length key ≡ 64 → public key ≡ ok (drop 32 key)
unfolding public
public-ok key h = ground (arith, copy_32_id (drop 32 key) (omega (arith, length-drop 32 key)))

module _ (crypto : Crypto) where
  verify-encoded :
      (r : Record) (key sig : Bytes)
      → All IsByte key
      → All IsByte sig
      → r.public_key ≡ hex_encode key
      → r.signature ≡ hex_encode sig
      → verify crypto r ≡ verify_decoded crypto r key sig
  unfolding verify
  verify-encoded r key sig hk hs ek es =
      let k : hex_decode r.public_key ≡ some key = rw ek (hex_decode-hex_encode key hk) in
      let s : hex_decode r.signature ≡ some sig = rw es (hex_decode-hex_encode sig hs) in
      ground (arith, k, s)

  sign_record-ok :
      (key : Bytes) (r : Record)
      → length key ≡ 64
      → sign_record crypto key r
        ≡ ok (record r { signature = hex_encode (crypto.signature key (signing_payload crypto r)) })
  unfolding sign_record ed25519_sign
  sign_record-ok key r h = ground arith

  create_record-ok :
      (now : ℕ) (opts : RegisterOptions) (key : Bytes)
      → opts.name ≢ []
      → opts.address ≢ []
      → opts.private_key ≡ some key
      → length key ≡ 64
      → create_record crypto now opts ≡ sign_record crypto key (unsigned now opts (drop 32 key))
  unfolding create_record
  create_record-ok now opts key n a k h =
      ground (arith, bytes_eq_iff opts.name [], bytes_eq_iff opts.address [], public-ok key h)

  sign_record-fields :
      (key : Bytes) (draft r : Record)
      → sign_record crypto key draft ≡ ok r
      → r ≡ record draft { signature = r.signature }
  unfolding sign_record
  sign_record-fields key draft r h =
      let (sig, _, e) = passed (ed25519_sign crypto key (signing_payload crypto draft)) _ h in
      ground arith

  -- The record that `CreateRecord` makes of its options, but for the signature.
  pub create_record-fields :
      (now : ℕ) (opts : RegisterOptions) (key : Bytes) (r : Record)
      → create_record crypto now opts ≡ ok r
      → opts.private_key ≡ some key
      → (pub_key : Bytes) × (public key ≡ ok pub_key)
        × (r ≡ record (unsigned now opts pub_key) { signature = r.signature })
  create_record-fields now opts key r h k =
      let signed : (do pub_key ← public key; sign_record crypto key (unsigned now opts pub_key))
          ≡ ok r =
        unfold create_record in ground arith in
      let (pub_key, e, h') = passed (public key) _ signed in
      (pub_key, e, sign_record-fields key (unsigned now opts pub_key) r h')

  verify_decoded-ok :
      (r : Record) (key sig : Bytes)
      → length key ≡ 32
      → crypto.verifies key (signing_payload crypto r) sig ≡ true
      → verify_decoded crypto r key sig ≡ ok tt
  unfolding verify_decoded ed25519_verify
  verify_decoded-ok r key sig h good = ground arith

  -- `CreateRecord` with the key generated from 32 random bytes, a name and an address, makes a
  -- record of that name, address, group key and services that passes `Verify`.
  pub create_record-verify :
      (now : ℕ) (opts : RegisterOptions) (seed : Bytes)
      → IsCrypto crypto
      → (length seed ≡ 32) × All IsByte seed
      → opts.private_key ≡ some (crypto.new_key seed)
      → opts.name ≢ []
      → opts.address ≢ []
      → (r : Record) × (create_record crypto now opts ≡ ok r)
        × (verify crypto r ≡ ok tt)
        × (r.name ≡ opts.name)
        × (r.address ≡ opts.address)
        × (r.group_key ≡ opts.group_key)
        × (r.services ≡ opts.services)
  unfolding unsigned
  create_record-verify now opts seed laws (size, bytes) k n a =
      let key = crypto.new_key seed in
      let pub_key = drop 32 key in
      let long = laws.key_length seed size in
      let draft = unsigned now opts pub_key in
      let sig = crypto.signature key (signing_payload crypto draft) in
      let r : Record = record draft { signature = hex_encode sig } in
      let good : crypto.verifies pub_key (signing_payload crypto r) sig ≡ true =
        unfold signing_payload in laws.correct seed (signing_payload crypto draft) size in
      let key_bytes = laws.key_bytes seed bytes in
      (
        r,
        create_record-ok now opts key n a k long ∙ sign_record-ok key draft long,
        verify-encoded r pub_key sig (drop-All 32 key key_bytes)
              (laws.signature_bytes key (signing_payload crypto draft) key_bytes) refl refl
            ∙ verify_decoded-ok r pub_key sig (omega (arith, length-drop 32 key)) good,
        refl,
        refl,
        refl,
        refl,
      )
