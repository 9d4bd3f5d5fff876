-- ===== src/Dht/Store.antt =====
-- The record store of dht/store.go. `now` is a reading of the clock in nanoseconds since 1970.
-- Each operation holds the store's lock for all of its accesses to the map, so it is one step on
-- the state; `Put` checks its argument before it takes the lock.
pub mod Put
pub mod Reads
pub mod Valid
pub mod Cleanup
pub mod Faults
use mesh_net.Base.{
  ℕ, zero, suc, ◌+◌, ◌*◌, ◌^◌, ◌≡◌, Bool, true, false, not, ltb, if◌then◌else◌, Option, none, some,
  List, [], ◌∷◌, Bytes, bytes_eq, lookup, insert, erase, length,
}
use mesh_net.Outcome.{
  Outcome, ok, err, panics, ◌>>=◌, wrap, already_expired, invalid_public_key, invalid_signature,
  verification_failed, owned_by_other_key, invalid_record,
}
use mesh_net.Crypto.{Crypto, Payload, ed25519_verify}
use mesh_net.Dht.NodeId.{NodeId, ℤ, pos, negsuc, hex_decode, copy_32}

-- `services` is a slice; `none` is its nil.
pub record Record : Type 0 where
  pub name : Bytes
  pub address : Bytes
  pub public_key : Bytes
  pub services : Option (List Bytes)
  pub group_key : Bytes
  pub signature : Bytes
  pub expires : ℤ

-- The seconds from the first year, from which a `time.Time` counts, to 1970.
abbrev pub unix_to_internal : ℕ
unix_to_internal = 62_135_596_800

-- `time.Now().After(time.Unix(r.Expires, 0))`. `time.Unix` adds `unix_to_internal` to the seconds as
-- int64: with an expiry near 2 ^ 63 the sum wraps to a time before the first year, and a negative
-- expiry is before 1970.
unfoldable pub is_expired : ℕ → Record → Bool
is_expired now r = elim r.expires [
  | pos seconds ↦
      if ltb (seconds + unix_to_internal) (2 ^ 63) then ltb (seconds * 1_000_000_000) now else true
  | negsuc _ ↦ true
]

unfoldable pub is_public : Record → Bool
is_public r = bytes_eq r.group_key []

abbrev pub payload : Record → Payload
payload r = record {
  name = r.name;
  address = r.address;
  public_key = r.public_key;
  services = r.services;
  group_key = r.group_key;
  expires = r.expires;
}

pub record Store : Type 0 where
  pub records : List (Bytes × Record)

unfoldable pub new_store : Store
new_store = record { records = [] }

-- Go's `(Record, bool)` results, with `none` for `Record{}, false`.
unfoldable pub get : ℕ → Store → Bytes → Option Record
get now s name = elim (lookup name s.records) [
  | none ↦ none
  | some r ↦ if is_expired now r then none else some r
]

unfoldable pub get_public : ℕ → Store → Bytes → Option Record
get_public now s name = elim (get now s name) [
  | none ↦ none
  | some r ↦ if not (is_public r) then none else some r
]

unfoldable pub get_for_group : ℕ → Store → Bytes → Bytes → Option Record
get_for_group now s name group_key = elim (get now s name) [
  | none ↦ none
  | some r ↦ if not (bytes_eq r.group_key group_key) then none else some r
]

unfoldable pub delete : Store → Bytes → Store
delete s name = record s { records = erase name s.records }

-- The loop reads the clock for each record: `clock i` is the reading for record `i`.
unfoldable pub all_from : (ℕ → ℕ) → ℕ → List (Bytes × Record) → List Record
all_from clock i [] = []
all_from clock i ((name, r) ∷ rs) =
    let rest = all_from clock (suc i) rs in if not (is_expired (clock i) r) then r ∷ rest else rest

unfoldable pub all : (ℕ → ℕ) → Store → List Record
all clock s = all_from clock 0 s.records

unfoldable pub size : Store → ℕ
size s = length s.records

-- Deleting the current entry of a Go map while ranging over it is safe.
unfoldable pub cleanup_from : (ℕ → ℕ) → ℕ → List (Bytes × Record) → List (Bytes × Record)
cleanup_from clock i [] = []
cleanup_from clock i ((name, r) ∷ rs) =
    let rest = cleanup_from clock (suc i) rs in
    if is_expired (clock i) r then rest else (name, r) ∷ rest

unfoldable pub cleanup : (ℕ → ℕ) → Store → Store
cleanup clock s = record s { records = cleanup_from clock 0 s.records }

-- The part of `Put` under the lock.
unfoldable pub put_locked : Store → Record → Store × Outcome (Unit {0})
put_locked s r = elim (lookup r.name s.records) [
  | some existing ↦
      if not (bytes_eq existing.public_key r.public_key)
      then (s, err owned_by_other_key)
      else (record s { records = insert r.name r s.records }, ok tt)
  | none ↦ (record s { records = insert r.name r s.records }, ok tt)
]

module _ (crypto : Crypto) where
  unfoldable pub signing_payload : Record → Bytes
  signing_payload r = crypto.sum_256 (crypto.marshal_payload (payload r))

  -- `Verify` with the key and the signature decoded.
  unfoldable pub verify_decoded : Record → Bytes → Bytes → Outcome (Unit {0})
  verify_decoded r key sig = elim (ed25519_verify crypto key (signing_payload r) sig) [
    | ok valid ↦ if not valid then err verification_failed else ok tt
    | err e ↦ err e
    | panics ↦ panics
  ]

  unfoldable pub verify : Record → Outcome (Unit {0})
  verify r = elim (hex_decode r.public_key) [
    | none ↦ err invalid_public_key
    | some key ↦ elim (hex_decode r.signature) [
      | none ↦ err invalid_signature
      | some sig ↦ verify_decoded r key sig
    ]
  ]

  unfoldable pub record_id : Bytes → NodeId
  record_id name = copy_32 (crypto.sum_256 name)

  unfoldable pub put : ℕ → Store → Record → Store × Outcome (Unit {0})
  put now s r = if is_expired now r then (s, err already_expired) else elim (verify r) [
    | ok _ ↦ put_locked s r
    | err e ↦ (s, err invalid_record)
    | panics ↦ (s, panics)
  ]
