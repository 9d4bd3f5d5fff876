-- ===== src/Core/Node/Started.antt =====
-- `Start` of core/node.go.
use mathlib.Core.Path.{subst}
use mesh_net.Base.{ℕ, ◌≡◌, refl, sym, ap, ◌∙◌, Bool, true, false, Option, none, some, Bytes, arith}
use mesh_net.Outcome.{
  Outcome, ok, err, panics, node_not_created, certificate_not_generated, admin_not_created,
}
use mesh_net.Crypto.{Crypto, public}
use mesh_net.Dht.NodeId.{hex_encode}
use mesh_net.Dht.Env.{Codec}
use mesh_net.Core.Identity.{Identity, Keys, Disk, load_or_create_identity}
use mesh_net.Core.Cert.{
  Certificate, X509, IsX509, generate_self_signed_cert, generate_self_signed_cert-private_key,
}
use mesh_net.Core.Node.{
  Node, YggCore, Yggdrasil, public_key, start_admin, start_core, start_keys, start,
}

-- What is relied on: the library's core has the public key of the certificate's private key.
pub record IsYggdrasil (ygg : Yggdrasil) : Type 0 where
  pub keyed :
      (cert : Certificate) (core : YggCore)
      → ygg.new_core cert ≡ ok core
      → public cert.private_key ≡ ok core.public_key

-- A node that has started: its core is there, its address is that of the core, and it has the
-- keys. Its admin socket may be nil.
pub record IsRunning (n : Node) (keys : Keys) : Type 0 where
  pub logging : n.logger ≡ some true
  pub priv_key : n.priv_key ≡ keys.priv_key
  pub core : (c : YggCore) × (n.core ≡ some c) × (n.address ≡ c.address)
  pub shown : (key : Bytes) × (public keys.priv_key ≡ ok key) × (public_key n ≡ ok (hex_encode key))

module _ (ygg : Yggdrasil) (x509 : X509) (laws : IsYggdrasil ygg) (pairs : IsX509 x509) where
  start_admin-IsRunning :
      (n n' : Node) (c : YggCore) (keys : Keys)
      → start_admin ygg x509 n c ≡ (n', ok tt)
      → n.logger ≡ some true
      → n.priv_key ≡ keys.priv_key
      → public keys.priv_key ≡ ok c.public_key
      → IsRunning n' keys
  unfolding start_admin public_key
  start_admin-IsRunning n n' c keys h l p k = admitted (ygg.new_admin c) h
    where
      admitted :
          (o : Outcome Bool)
          → ◌≡◌ {A = Node × Outcome (Unit {0})}
              (elim o [
                | ok socket ↦
                    (record n { core = some c; has_admin = socket; address = c.address }, ok tt)
                | err e ↦ (record n { core = some c; has_admin = false }, err admin_not_created)
                | panics ↦ (record n { core = some c }, panics)
              ])
              (n', ok tt)
          → IsRunning n' keys
      admitted (ok socket) h' =
          subst (λ m. IsRunning m keys) (ap (λ r. r.0) h')
            (record {
              logging = l;
              priv_key = p;
              core = (c, refl, refl);
              shown = (c.public_key, k, refl);
            })
      admitted (err e) h' = ground arith
      admitted panics h' = ground arith

  start_core-IsRunning :
      (now : ℕ) (n n' : Node) (keys : Keys)
      → start_core ygg x509 now n keys ≡ (n', ok tt)
      → n.logger ≡ some true
      → n.priv_key ≡ keys.priv_key
      → IsRunning n' keys
  unfolding start_core
  start_core-IsRunning now n n' keys h l p =
      made (generate_self_signed_cert x509 now keys.pub_key keys.priv_key) refl h
    where
      cored :
          (cert : Certificate) (o : Outcome YggCore)
          → cert.private_key ≡ keys.priv_key
          → ygg.new_core cert ≡ o
          → ◌≡◌ {A = Node × Outcome (Unit {0})}
              (elim o [
                | err e ↦ (record n { core = none }, err node_not_created)
                | panics ↦ (n, panics)
                | ok core ↦ start_admin ygg x509 n core
              ])
              (n', ok tt)
          → IsRunning n' keys
      cored cert (ok core) k e h' =
          start_admin-IsRunning n n' core keys h' l p (ap public (sym k) ∙ laws.keyed cert core e)
      cored cert (err e) k _ h' = ground arith
      cored cert panics k _ h' = ground arith

      made :
          (o : Outcome Certificate)
          → generate_self_signed_cert x509 now keys.pub_key keys.priv_key ≡ o
          → ◌≡◌ {A = Node × Outcome (Unit {0})}
              (elim o [
                | err e ↦ (n, err certificate_not_generated)
                | panics ↦ (n, panics)
                | ok cert ↦ elim (ygg.new_core cert) [
                  | err e ↦ (record n { core = none }, err node_not_created)
                  | panics ↦ (n, panics)
                  | ok core ↦ start_admin ygg x509 n core
                ]
              ])
              (n', ok tt)
          → IsRunning n' keys
      made (ok cert) e h' =
          cored cert (ygg.new_core cert)
            (generate_self_signed_cert-private_key x509 now _ _ cert pairs e) refl h'
      made (err e) _ h' = ground arith
      made panics _ h' = ground arith

  module _ (crypto : Crypto) (json : Codec Identity) (trim : Bytes → Bytes) (now : ℕ)
      (env_path : Bytes) (random : Option Bytes) (disk : Disk) where
    abbrev identified : Outcome Keys × Disk
    identified = load_or_create_identity crypto json trim env_path random disk

    -- If `Start` succeeds, `loadOrCreateIdentity` gave keys, and the node runs with these: it keeps the
    -- private key, its core is there, its address is that of the core, and
    -- `PublicKey` shows the public key of the private key. The file of the identity is written as
    -- `loadOrCreateIdentity` does. `X509KeyPair` is taken to read back the key that was encoded, and
    -- the Yggdrasil library to use the key of its certificate.
    pub start-IsRunning :
        (n n' : Node) (disk' : Disk)
        → start ygg x509 crypto json trim now env_path random disk n ≡ (n', ok tt, disk')
        → (keys : Keys) × (load_or_create_identity crypto json trim env_path random disk
            ≡ (ok keys, disk'))
          × IsRunning n' keys
    unfolding start start_keys
    start-IsRunning n n' disk' h =
        keyed identified.0 refl (ap (λ r. r.0) h) (ap (λ r. r.1) h) (ap (λ r. r.2) h)
      where
        keyed :
            (o : Outcome Keys)
            → identified.0 ≡ o
            → (start_keys ygg x509 crypto json trim now (record n { logger = some true }) o).0 ≡ n'
            → (start_keys ygg x509 crypto json trim now (record n { logger = some true }) o).1
              ≡ ok tt
            → identified.1 ≡ disk'
            → (keys : Keys) × (identified ≡ (ok keys, disk')) × IsRunning n' keys
        keyed (ok keys) e same fine later = (
          keys,
          cc,
          start_core-IsRunning now (record n { logger = some true; priv_key = keys.priv_key }) n'
              keys (cc) refl refl,
        )
        keyed (err x) e same fine later = ground arith
        keyed panics e same fine later = ground arith
