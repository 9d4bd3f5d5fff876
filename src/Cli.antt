-- ===== src/Cli.antt =====
-- The command line of cli/cli.go, without its texts and the flags that Go's library reads.
pub mod Services
pub mod Lookup
pub mod Start
pub mod Commands
mod Tests
use mesh_net.Base.{
  ℕ, zero, suc, ◌+◌, ◌-◌, ◌≡◌, Bool, true, false, not, ◌||◌, ◌==◌, ltb, if◌then◌else◌, Option, none,
  some, List, [], ◌∷◌, ◌++◌, length, take, drop, get_or, Bytes, bytes_eq, codes,
}
use mesh_net.Outcome.{Outcome, ok, err, panics, ◌>>=◌}
use mesh_net.Dht.NodeId.{NodeId, ℤ, pos, node_id_from_hex}
use mesh_net.Dht.Store.{Record}
use mesh_net.Dht.Register.{RegisterOptions}
use mesh_net.Dht.Node.{Dht, new}
use mesh_net.Dht.Api.{Response, Body, record_of, message, failure, status_of, peers_of}

-- Go's `s[start:i]`
abbrev pub slice : Bytes → ℕ → ℕ → Bytes
slice s start i = drop start (take i s)

-- `if s != "" { serviceList = append(serviceList, s) }`
abbrev pub append_service : List Bytes → Bytes → List Bytes
append_service acc [] = acc
append_service acc (x ∷ s) = acc ++ (x ∷ s) ∷ []

-- The loop of `cmdStart` over the text of the services, with `n` indices left from `i` on.
unfoldable pub services_loop : ℕ → Bytes → ℕ → ℕ → List Bytes → List Bytes
services_loop zero s i start acc = acc
services_loop (suc n) s i start acc =
    let cut = i == length s || get_or s i 0 == b',' in
    services_loop n s (suc i) (if cut then suc i else start)
      (if cut then append_service acc (slice s start i) else acc)

abbrev pub listed : List Bytes → Option (List Bytes)
listed [] = none
listed (s ∷ ss) = some (s ∷ ss)

-- `serviceList`, which is nil without a service.
unfoldable pub service_list : Bytes → Option (List Bytes)
service_list services =
    if bytes_eq services []
    then none
    else listed (services_loop (suc (length services)) services 0 0 [])

-- `s[:n]` panics on a shorter text.
unfoldable pub prefix_of : ℕ → Bytes → Outcome Bytes
prefix_of n s = if ltb (length s) n then panics else ok (take n s)

unfoldable pub node_name : Bytes → Bytes → Outcome Bytes
node_name name public_key =
    if bytes_eq name []
    then (do start ← prefix_of 8 public_key; ok (codes "node-" ++ start))
    else ok name

-- The options of the record that `cmdStart` announces.
unfoldable pub start_options : Bytes → Bytes → Bytes → Bytes → Bytes → Outcome RegisterOptions
start_options name services address public_key priv_key = do
  own_name ← node_name name public_key
  ok (record {
    name = own_name;
    address = address;
    services = service_list services;
    group_key = [];
    private_key = some priv_key;
    ttl = pos 0;
  })

unfoldable pub str_16 : Bytes → Bytes
str_16 s = if ltb 16 (length s) then take 16 s else s

-- What `cmdLookup` prints: its errors, or the address, the start of the key, the services and the
-- time of expiry.
pub data LookupReport : Type 0 where
  not_found : LookupReport
  lookup_error : ℕ → LookupReport
  not_decoded : LookupReport
  shown : Bytes → Bytes → Option (List Bytes) → ℤ → LookupReport

-- `decode` is `encoding/json` on the body of a response.
unfoldable pub report_lookup : (Body → Option Record) → Response → Outcome LookupReport
report_lookup decode resp =
    if resp.code == 404
    then ok not_found
    else if not (resp.code == 200)
    then ok (lookup_error resp.code)
    else elim (decode resp.body) [
      | none ↦ ok not_decoded
      | some r ↦ (do key ← prefix_of 16 r.public_key; ok (shown r.address key r.services r.expires))
    ]
