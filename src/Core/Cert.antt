-- ===== src/Core/Cert.antt =====
-- The certificate of core/cert.go. `crypto/x509`, `crypto/tls` and `encoding/pem` are parameters; times
-- are in nanoseconds.
use mesh_net.Base.{ℕ, ◌-◌, ◌*◌, ◌≡◌, Bytes, codes}
use mesh_net.Outcome.{Outcome, ok, ◌>>=◌, passed}
use mesh_net.Dht.NodeId.{ℤ, pos, negsuc}
use mesh_net.Dht.Register.{time_add}

pub record Template : Type 0 where
  pub serial_number : ℕ
  pub common_name : Bytes
  pub not_before : ℤ
  pub not_after : ℤ

-- What is used of a `tls.Certificate`: the encoded certificate, and its private key.
pub record Certificate : Type 0 where
  pub leaf : Bytes
  pub private_key : Bytes

-- The template, its parent, the public key and the private key of `CreateCertificate`; the type and
-- the bytes of a PEM block; `MarshalPKCS8PrivateKey`; and `X509KeyPair`.
pub record X509 : Type 0 where
  pub create_certificate : Template → Template → Bytes → Bytes → Outcome Bytes
  pub encode_pem : Bytes → Bytes → Bytes
  pub marshal_pkcs8 : Bytes → Outcome Bytes
  pub key_pair : Bytes → Bytes → Outcome Certificate

abbrev pub hour : ℕ
hour = 3_600 * 1_000_000_000

unfoldable pub template : ℕ → Template
template now = record {
  serial_number = 1;
  common_name = codes "Meshnet Node";
  not_before = time_add now (negsuc (hour - 1));
  not_after = time_add now (pos (365 * (24 * hour)));
}

module _ (x509 : X509) where
  unfoldable pub generate_self_signed_cert : ℕ → Bytes → Bytes → Outcome Certificate
  generate_self_signed_cert now pub_key priv_key = do
    cert_der ← x509.create_certificate (template now) (template now) pub_key priv_key
    priv_key_bytes ← x509.marshal_pkcs8 priv_key
    x509.key_pair (x509.encode_pem (codes "CERTIFICATE") cert_der)
        (x509.encode_pem (codes "PRIVATE KEY") priv_key_bytes)

  -- What is relied on: the pair that is read back from its two PEM blocks has the private key that was
  -- encoded in the second.
  pub record IsX509 : Type 0 where
    pub paired :
        (cert_der key priv_key_bytes : Bytes) (cert : Certificate)
        → x509.marshal_pkcs8 key ≡ ok priv_key_bytes
        → x509.key_pair
            (x509.encode_pem (codes "CERTIFICATE") cert_der)
            (x509.encode_pem (codes "PRIVATE KEY") priv_key_bytes)
          ≡ ok cert
        → cert.private_key ≡ key

  -- The certificate that is made has the private key that was given.
  pub generate_self_signed_cert-private_key :
      (now : ℕ) (pub_key priv_key : Bytes) (cert : Certificate)
      → IsX509
      → generate_self_signed_cert now pub_key priv_key ≡ ok cert
      → cert.private_key ≡ priv_key
  unfolding generate_self_signed_cert
  generate_self_signed_cert-private_key now pub_key priv_key cert laws h =
      let (cert_der, made, h') =
        passed (x509.create_certificate (template now) (template now) pub_key priv_key) _ h in
      let (priv_key_bytes, encoded, h'') = passed (x509.marshal_pkcs8 priv_key) _ h' in
      laws.paired cert_der priv_key priv_key_bytes cert encoded h''
