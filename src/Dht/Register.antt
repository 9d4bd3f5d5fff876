-- ===== src/Dht/Register.antt =====
-- `CreateRecord` of dht/register.go. Times are in nanoseconds; `now` is the reading of the clock.
pub mod Signed
pub mod Lifetime
use mesh_net.Base.{
  ℕ, zero, suc, ◌+◌, ◌-◌, ◌*◌, ◌/◌, ◌≡◌, ◌==◌, Bool, true, false, ltb, if◌then◌else◌, Option, none,
  some, List, [], ◌∷◌, Bytes, bytes_eq,
}
use mesh_net.Outcome.{Outcome, ok, err, panics, ◌>>=◌, empty_name, empty_address, nil_private_key}
use mesh_net.Crypto.{Crypto, public, ed25519_sign}
use mesh_net.Dht.NodeId.{ℤ, pos, negsuc, hex_encode}
use mesh_net.Dht.Store.{Record, signing_payload}

-- `private_key` is a slice; `none` is its nil. `ttl` is a `time.Duration`.
pub record RegisterOptions : Type 0 where
  pub name : Bytes
  pub address : Bytes
  pub services : Option (List Bytes)
  pub group_key : Bytes
  pub private_key : Option Bytes
  pub ttl : ℤ

-- `const RecordTTL = time.Hour`
abbrev pub record_ttl : ℕ
record_ttl = 3_600 * 1_000_000_000

-- `time.Time.Add`
unfoldable pub time_add : ℕ → ℤ → ℤ
time_add now (pos t) = pos (now + t)
time_add now (negsuc t) = if ltb t now then pos (now - suc t) else negsuc (t - now)

-- `time.Time.Unix`, which rounds down.
unfoldable pub unix : ℤ → ℤ
unix (pos n) = pos (n / 1_000_000_000)
unix (negsuc n) = negsuc (n / 1_000_000_000)

unfoldable pub chosen_ttl : ℤ → ℤ
chosen_ttl (pos t) = if t == 0 then pos record_ttl else pos t
chosen_ttl (negsuc t) = negsuc t

-- The record before it is signed.
unfoldable pub unsigned : ℕ → RegisterOptions → Bytes → Record
unsigned now opts pub_key = record {
  name = opts.name;
  address = opts.address;
  public_key = hex_encode pub_key;
  services = opts.services;
  group_key = opts.group_key;
  signature = [];
  expires = unix (time_add now (chosen_ttl opts.ttl));
}

module _ (crypto : Crypto) where
  unfoldable pub sign_record : Bytes → Record → Outcome Record
  sign_record key r = do
    signature ← ed25519_sign crypto key (signing_payload crypto r)
    ok (record r { signature = hex_encode signature })

  unfoldable pub create_record : ℕ → RegisterOptions → Outcome Record
  create_record now opts =
      if bytes_eq opts.name []
      then err empty_name
      else if bytes_eq opts.address []
      then err empty_address
      else elim opts.private_key [
        | none ↦ err nil_private_key
        | some key ↦ (do pub_key ← public key; sign_record key (unsigned now opts pub_key))
      ]
