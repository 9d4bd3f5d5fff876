-- ===== src/Core/Node.antt =====
-- The embedded Yggdrasil node of core/node.go. The Yggdrasil library is a parameter.
pub mod Started
use mesh_net.Base.{
  ℕ, ◌≡◌, Bool, true, false, if◌then◌else◌, Option, none, some, List, [], ◌∷◌, ◌++◌, Bytes, codes,
}
use mesh_net.Outcome.{
  Outcome, ok, err, panics, ◌>>=◌, identity_not_loaded, certificate_not_generated, node_not_created,
  admin_not_created, invalid_peer_url,
}
use mesh_net.Crypto.{Crypto}
use mesh_net.Dht.NodeId.{hex_encode}
use mesh_net.Dht.Env.{Codec}
use mesh_net.Core.Identity.{Identity, Keys, Disk, load_or_create_identity}
use mesh_net.Core.Cert.{Certificate, X509, generate_self_signed_cert}

-- What the methods `Address().String()` and `PublicKey` of the library's core return.
pub record YggCore : Type 0 where
  pub address : Bytes
  pub public_key : Bytes

-- `yggcore.New`, which gives nil with its error; `admin.New`, which gives a socket (`true`), or nil
-- without an error (`false`), or nil with its error; `url.Parse`, where `none` is its error; and
-- `AddPeer` on a core.
pub record Yggdrasil : Type 0 where
  pub new_core : Certificate → Outcome YggCore
  pub new_admin : YggCore → Outcome Bool
  pub parse_url : Bytes → Option Bytes
  pub add_peer : YggCore → Bytes → Outcome (Unit {0})

-- `none` is a nil pointer. Of the logger, whether its levels `warn` and `error` are enabled.
pub record Node : Type 0 where
  pub core : Option YggCore
  pub has_admin : Bool
  pub logger : Option Bool
  pub address : Bytes
  pub priv_key : Bytes

unfoldable pub new_node : Node
new_node = record { core = none; has_admin = false; logger = none; address = []; priv_key = [] }

abbrev pub bootstrap_list : List Bytes
bootstrap_list =
    codes "tls://62.210.85.80:39575"
    ∷ codes "tls://51.15.204.214:54321"
    ∷ codes "tls://n.ygg.yt:443"
    ∷ codes
        "tls://ygg7.mk16.de:1338?key=000000086278b5f3ba1eb63acb5b7f6e406f04ce83990dee9c07f49011e375ae"
    ∷ codes "tls://syd.joel.net.au:8443"
    ∷ codes "tls://95.217.35.92:1337"
    ∷ codes "tls://37.205.14.171:993"
    ∷ []

-- The methods of a nil pointer of the library read its fields.
unfoldable pub public_key : Node → Outcome Bytes
public_key n = elim n.core [ none ↦ panics | some core ↦ ok (hex_encode core.public_key) ]

-- What `Stop` closes.
pub data Closed : Type 0 where
  admin_stopped core_stopped : Closed

abbrev closed_if : Bool → Closed → List Closed
closed_if true c = c ∷ []
closed_if false c = []

abbrev has_core : Option YggCore → Bool
has_core none = false
has_core (some c) = true

-- The node keeps its pointers; `none` is `Stop` on a node that was never started, whose logger is nil.
unfoldable pub stop : Node → Option (Node × List Closed)
stop n = elim n.logger [
  | none ↦ none
  | some _ ↦ some (
    record n { logger = some false },
    closed_if n.has_admin admin_stopped ++ closed_if (has_core n.core) core_stopped,
  )
]

module _ (ygg : Yggdrasil) where
  unfoldable pub add_peer : Node → Bytes → Outcome (Unit {0})
  add_peer n peer_url = elim (ygg.parse_url peer_url) [
    | none ↦ err invalid_peer_url
    | some u ↦ elim n.core [ none ↦ panics | some core ↦ ygg.add_peer core u ]
  ]

  -- The peers of a list that are reported as connected; one goroutine for each of them.
  unfoldable pub connected : YggCore → List Bytes → List Bytes
  connected core [] = []
  connected core (p ∷ ps) =
      let rest = connected core ps in
      elim (ygg.parse_url p) [
        | none ↦ rest
        | some u ↦ elim (ygg.add_peer core u) [ ok _ ↦ p ∷ rest | err e ↦ rest | panics ↦ rest ]
      ]

  unfoldable pub bootstrap_peers : YggCore → List Bytes
  bootstrap_peers core = connected core bootstrap_list

  module _ (x509 : X509) where
    -- `Start` from the call of `admin.New` on.
    unfoldable pub start_admin : Node → YggCore → Node × Outcome (Unit {0})
    start_admin n core = elim (ygg.new_admin core) [
      | ok socket ↦
          (record n { core = some core; has_admin = socket; address = core.address }, ok tt)
      | err e ↦ (record n { core = some core; has_admin = false }, err admin_not_created)
      | panics ↦ (record n { core = some core }, panics)
    ]

    -- `Start` from the certificate on.
    unfoldable pub start_core : ℕ → Node → Keys → Node × Outcome (Unit {0})
    start_core now n keys = elim (generate_self_signed_cert x509 now keys.pub_key keys.priv_key) [
      | err e ↦ (n, err certificate_not_generated)
      | panics ↦ (n, panics)
      | ok cert ↦ elim (ygg.new_core cert) [
        | err e ↦ (record n { core = none }, err node_not_created)
        | panics ↦ (n, panics)
        | ok core ↦ start_admin n core
      ]
    ]

    module _ (crypto : Crypto) (json : Codec Identity) (trim : Bytes → Bytes) where
      -- `Start` behind the identity.
      unfoldable pub start_keys : ℕ → Node → Outcome Keys → Node × Outcome (Unit {0})
      start_keys now n (err e) = (n, err identity_not_loaded)
      start_keys now n panics = (n, panics)
      start_keys now n (ok keys) = start_core now (record n { priv_key = keys.priv_key }) keys

      -- The arguments are the clock, the variable `IDENTITY` and the random bytes for a new key.
      unfoldable pub start :
          ℕ → Bytes → Option Bytes → Disk → Node → Node × Outcome (Unit {0}) × Disk
      start now env_path random disk n =
          let (keys, disk') = load_or_create_identity crypto json trim env_path random disk in
          let (n', result) = start_keys now (record n { logger = some true }) keys in
          (n', result, disk')
