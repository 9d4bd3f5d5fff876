-- ===== src/Outcome.antt =====
-- The results of Go functions: a value, an error, or a run-time panic that ends the process.

use Prim.Native.Nat.{ℕ}
use mathlib.Core.List.{List}
use mathlib.Core.Path.{◌≡◌, refl}

-- One constructor for each error that the code makes or passes on, without its formatted text.
pub data Error : Type 0 where
  invalid_node_id_hex bad_key_length : Error
  already_expired invalid_public_key invalid_signature verification_failed : Error
  owned_by_other_key invalid_record : Error
  empty_name empty_address nil_private_key : Error
  read_type_failed read_length_failed message_too_large read_body_failed : Error
  encode_body_failed write_failed : Error
  connect_failed unexpected_type decode_failed : Error
  invalid_sender_id invalid_addr no_known_nodes : Error
  contacts_not_read contacts_not_parsed contacts_not_written : Error
  code_not_generated invalid_pairing_service pairing_timed_out : Error
  record_not_created record_not_announced pairing_lookup_failed code_not_found : Error
  invalid_pairing_record : Error
  key_not_generated identity_not_read identity_not_parsed identity_not_saved : Error
  invalid_private_key invalid_yggdrasil_key private_key_not_found : Error
  config_not_encoded config_not_written invalid_binary_path binary_not_found : Error
  invalid_config_path yggdrasil_not_started yggdrasil_not_ready : Error
  admin_not_reached admin_not_read admin_not_parsed address_not_found : Error
  certificate_not_generated identity_not_loaded node_not_created admin_not_created : Error
  invalid_peer_url : Error
  peers_not_encoded peers_not_saved : Error
  listen_failed : Error

pub data Outcome {ℓ} (A : Type ℓ) : Type ℓ where
  ok : A → Outcome A
  err : Error → Outcome A
  panics : Outcome A

infixl 5 ◌>>=◌
abbrev pub ◌>>=◌ {ℓ κ} : {A : Type ℓ} {B : Type κ} → Outcome A → (A → Outcome B) → Outcome B
ok a >>= f = f a
err e >>= f = err e
panics >>= f = panics

pub ok_injective : {A : Type 0} {a b : A} → ◌≡◌ {A = Outcome A} (ok a) (ok b) → a ≡ b
ok_injective h = cc

-- A value that a step passes on to the rest of its chain, which ends with `last`.
abbrev pub Passed : {A B : Type 0} → Outcome A → (A → Outcome B) → B → Type 0
Passed {A} step rest last = (value : A) × (step ≡ ok value) × (rest value ≡ ok last)

-- A chain that succeeds has a first step that does.
pub passed :
    {A B : Type 0} (step : Outcome A) (rest : A → Outcome B) {last : B}
    → (step >>= rest) ≡ ok last
    → Passed step rest last
passed panics rest e = cc
passed (err _) rest e = cc
passed (ok value) rest e = (value, refl, e)

-- `if err != nil { return fmt.Errorf("…: %w", err) }`, with the error that wraps the other one.
abbrev pub wrap {ℓ} : {A : Type ℓ} → Error → Outcome A → Outcome A
wrap e (ok a) = ok a
wrap e (err _) = err e
wrap e panics = panics

-- The results of `os.ReadFile`, with the error that `os.IsNotExist` tells apart.
pub data FileRead : Type 0 where
  content : List ℕ → FileRead
  missing : FileRead
  unreadable : FileRead
