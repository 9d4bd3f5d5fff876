-- ===== src/Pairing/Session.antt =====
-- The sessions of pairing/pairing.go. Times are readings of the clock, in nanoseconds.
pub mod Code
pub mod Records
pub mod Polling
pub mod Exchange
pub mod Served
use mesh_net.Base.{
  ℕ, zero, suc, ◌+◌, ◌*◌, ◌%◌, ◌≡◌, Bool, true, false, ltb, if◌then◌else◌, Option, none, some, List,
  [], ◌∷◌, ◌++◌, map, length, drop, get_or, Bytes, codes,
}
use mesh_net.Outcome.{
  Outcome, ok, err, panics, ◌>>=◌, wrap, code_not_generated, invalid_pairing_service,
  pairing_timed_out, record_not_created, record_not_announced, pairing_lookup_failed,
  code_not_found, invalid_pairing_record,
}
use mesh_net.Crypto.{Crypto, public}
use mesh_net.Dht.NodeId.{pos, hex_encode}
use mesh_net.Dht.Store.{Record}
use mesh_net.Dht.Register.{create_record}
use mesh_net.Dht.Env.{Codec}
use mesh_net.Pairing.Contacts.{Contact}

-- `PairingTTL`, `PairingTimeout` and `PollInterval`
abbrev pub pairing_ttl : ℕ
pairing_ttl = 600 * 1_000_000_000

abbrev pub pairing_timeout : ℕ
pairing_timeout = 300 * 1_000_000_000

abbrev pub poll_interval : ℕ
poll_interval = 2 * 1_000_000_000

pub record PairingRecord : Type 0 where
  pub name : Bytes
  pub address : Bytes
  pub public_key : Bytes
  pub code : Bytes
  pub is_response : Bool

abbrev pub charset : Bytes
charset = codes "ABCDEFGHJKLMNPQRSTUVWXYZ23456789"

abbrev pub code_char : ℕ → ℕ
code_char v = get_or charset (v % length charset) 0

-- The argument is what `rand.Read` puts into `b`; `none` is its error.
unfoldable pub generate_code : Option Bytes → Outcome Bytes
generate_code none = err code_not_generated
generate_code (some b) = ok (codes "MESH-" ++ map code_char b)

unfoldable pub pairing_key : Bytes → Bytes
pairing_key code = codes "pair:" ++ code

unfoldable pub pairing_response_key : Bytes → Bytes
pairing_response_key code = codes "pair:" ++ (code ++ codes ":response")

-- `record.Services[0]`, if there is one.
abbrev pub first_service : Option (List Bytes) → Option Bytes
first_service none = none
first_service (some []) = none
first_service (some (svc ∷ rest)) = some svc

-- The fallback to the fields of the record.
abbrev pub raw_contact : ℕ → Record → Contact
raw_contact now r = record {
  name = r.name;
  address = r.address;
  public_key = r.public_key;
  paired_at = now;
}

-- What a session calls of the package `dht`: `Announce`, and `LookupValue` at its `i`-th call.
pub record Mesh : Type 0 where
  pub announce : Record → Outcome (Unit {0})
  pub lookup_value : ℕ → Bytes → Bytes → Outcome (Option Record)

-- `json.Marshal` of a `PairingRecord` has no error: its fields are texts and a truth value.
module _ (crypto : Crypto) (json : Codec PairingRecord) where
  unfoldable pub create_pairing_record : ℕ → Bytes → Bytes → Bytes → Bytes → Bool → Outcome Record
  create_pairing_record now name address priv_key record_name is_response = do
    pub_key ← public priv_key
    create_record crypto now (record {
      name = record_name;
      address = address;
      services = some (
          (codes "pairing:"
            ++ json.marshal (record {
              name = name;
              address = address;
              public_key = hex_encode pub_key;
              code = record_name;
              is_response = is_response;
            }))
          ∷ []);
      group_key = [];
      private_key = some priv_key;
      ttl = pos pairing_ttl;
    })

  unfoldable pub parse_pairing_response : ℕ → Record → Outcome Contact
  parse_pairing_response now r = elim (first_service r.services) [
    | none ↦ ok (raw_contact now r)
    | some svc ↦
        if ltb (length svc) (length (codes "pairing:"))
        then err invalid_pairing_service
        else elim (json.unmarshal (drop (length (codes "pairing:")) svc)) [
          | none ↦ ok (raw_contact now r)
          | some pr ↦ ok (record {
            name = pr.name;
            address = pr.address;
            public_key = pr.public_key;
            paired_at = now;
          })
        ]
  ]

  -- What a poll makes of a result of `LookupValue`: a contact, or nothing at a `continue`.
  unfoldable pub polled : ℕ → Outcome (Option Record) → Outcome (Option Contact)
  polled now (err e) = ok none
  polled now (ok none) = ok none
  polled now panics = panics
  polled now (ok (some r)) = elim (parse_pairing_response now r) [
    | ok c ↦ ok (some c)
    | err e ↦ ok none
    | panics ↦ panics
  ]

  -- The part of `Initiate` before the loop: the code, once the record is announced.
  unfoldable pub begin_session : Mesh → Option Bytes → ℕ → Bytes → Bytes → Bytes → Outcome Bytes
  begin_session mesh random created name address priv_key = do
    code ← generate_code random
    r ← wrap record_not_created (create_pairing_record created name address priv_key code false)
    _ ← wrap record_not_announced (mesh.announce r)
    ok code

  -- The clock is read at the test of the `i`-th poll, `clock i`, and when that poll has an answer,
  -- `parsed_at i`.
  module _ (mesh : Mesh) (clock parsed_at : ℕ → ℕ) where
    -- The loop of `Initiate`; `none` means that the fuel ran out.
    unfoldable pub poll_loop : ℕ → ℕ → ℕ → Bytes → Option (Outcome Contact)
    poll_loop zero i deadline response_key = none
    poll_loop (suc fuel) i deadline response_key =
        let rest = poll_loop fuel (suc i) deadline response_key in
        if ltb (clock i) deadline
        then elim (polled (parsed_at i) (mesh.lookup_value i response_key [])) [
          | ok none ↦ rest
          | ok (some c) ↦ some (ok c)
          | err e ↦ some (err e)
          | panics ↦ some panics
        ]
        else some (err pairing_timed_out)

    -- `created` is the time at which the record is made, `began` that of the deadline.
    unfoldable pub initiate :
        ℕ → Option Bytes → ℕ → ℕ → Bytes → Bytes → Bytes → Option (Outcome Contact)
    initiate fuel random created began name address priv_key =
        elim (begin_session mesh random created name address priv_key) [
          | ok code ↦ poll_loop fuel 0 (began + pairing_timeout) (pairing_response_key code)
          | err e ↦ some (err e)
          | panics ↦ some panics
        ]

  unfoldable pub join : Mesh → ℕ → ℕ → Bytes → Bytes → Bytes → Bytes → Outcome Contact
  join mesh parsed_at created name address priv_key code = do
    found ← wrap pairing_lookup_failed (mesh.lookup_value 0 code [])
    initiator_record ← elim found [ none ↦ err code_not_found | some r ↦ ok r ]
    initiator ← wrap invalid_pairing_record (parse_pairing_response parsed_at initiator_record)
    r ←
        wrap record_not_created
          (create_pairing_record created name address priv_key (pairing_response_key code) true)
    _ ← wrap record_not_announced (mesh.announce r)
    ok initiator
