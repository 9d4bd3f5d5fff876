-- ===== src/Cli/Tests.antt =====
-- The theorems on the command line, at concrete texts.
mod Worlds
mod Starts
mod Tunnels
mod Peers
use mesh_net.Base.{◌≡◌, ◌∷◌, none, some, true, Option, [], take, drop, Bytes, codes, refl}
use mesh_net.Outcome.{Outcome, ok}
use mesh_net.Dht.Store.{Record}
use mesh_net.Dht.Api.{Body, Response, record_of}
use mesh_net.Dht.Tests.Samples.{sample_record}
use mesh_net.Cli.{listed, service_list}
use mesh_net.Cli.Services.{pieces, nonempty, service_list-pieces}
use mesh_net.Cli.Commands.{lookup_url, cmd_lookup}
use mesh_net.Cli.Lookup.{IsReported, get, cmd_lookup-IsReported}
use mesh_net.Dht.Env.{decimal, digits_from}

service_list-pieces_example :
    service_list (codes "ssh:22,http:80,") ≡ listed (nonempty (pieces (codes "ssh:22,http:80,")))
service_list-pieces_example = service_list-pieces (codes "ssh:22,http:80,")

-- The value of a body that holds a record.
abbrev decode : Body → Option Record
decode (record_of r) = some r
decode b = none

-- A record with a key of two characters.
abbrev short_key : Record
short_key = record sample_record { public_key = codes "ab" }

abbrev look : Bytes → Bytes → Outcome (Option Record)
look name group = ok (some short_key)

abbrev first : Response
first = record { code = 200; body = record_of short_key }

-- The values in the address that `meshnet lookup web` asks.
abbrev query_name : Bytes → Bytes
query_name url = take 3 (drop 34 url)

abbrev query_group : Bytes → Bytes
query_group url = drop 44 url

name_read : query_name (lookup_url (codes "web") []) ≡ codes "web"
unfolding lookup_url decimal digits_from
name_read = refl

group_read : query_group (lookup_url (codes "web") []) ≡ []
unfolding lookup_url decimal digits_from
group_read = refl

cmd_lookup-IsReported_example : IsReported (some first) true (ok (some short_key)) (
    cmd_lookup
      (some first)
      (get decode look query_name query_group true)
      decode
      (codes "web" ∷ [])
      [])
cmd_lookup-IsReported_example =
    cmd_lookup-IsReported decode look query_name query_group true (some first) (codes "web") [] []
      (λ e. cc) (λ r. refl) name_read group_read
