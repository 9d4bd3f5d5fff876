-- ===== src/Cli/Lookup.antt =====
-- `meshnet lookup` of cli/cli.go against the handler of dht/api.go that serves it.
use mesh_net.Base.{
  ◌<◌, ◌≤◌, ◌≡◌, ◌≢◌, refl, Bool, true, false, ltb, Option, none, some, List, [], ◌∷◌, length, take,
  Bytes, codes, bytes_eq_iff, arith, Bool-cases, inl, inr, ◌⊎◌,
}
use mesh_net.Outcome.{Outcome, ok, err, panics, ◌>>=◌}
use mesh_net.Dht.Store.{Record}
use mesh_net.Dht.Api.{Body, Response, record_of, handle_lookup}
use mesh_net.Cli.{not_found, lookup_error, shown, prefix_of, report_lookup}
use mesh_net.Cli.Commands.{
  LookupEnd, no_running, lookup_failed, reported, is_node_running, lookup_url, cmd_lookup,
}

-- The response that arrives at a client: `net/http` ends the connection of a handler that panics, and
-- the client gives up after 15 seconds.
abbrev pub arrives : Bool → Outcome Response → Option Response
arrives in_time (err e) = none
arrives in_time panics = none
arrives true (ok resp) = some resp
arrives false (ok resp) = none

-- How the command ends on a record: the slice of its key panics where the key is shorter.
abbrev pub IsShown : Record → Outcome LookupEnd → Type 0
IsShown r o =
    ((length r.public_key < 16) × (o ≡ panics))
    ⊎ ((16 ≤ length r.public_key)
        × (o ≡ ok (reported (shown r.address (take 16 r.public_key) r.services r.expires))))

-- How the command ends, for an answer to `IsNodeRunning`, whether the response arrives in time, and the
-- result of the node's `LookupValue`.
abbrev pub IsReported :
    Option Response → Bool → Outcome (Option Record) → Outcome LookupEnd → Type 0
IsReported none in_time found o = o ≡ ok no_running
IsReported (some resp) false found o = o ≡ ok lookup_failed
IsReported (some resp) true (err e) o = o ≡ ok (reported (lookup_error 500))
IsReported (some resp) true panics o = o ≡ ok lookup_failed
IsReported (some resp) true (ok none) o = o ≡ ok (reported not_found)
IsReported (some resp) true (ok (some r)) o = IsShown r o

module _ (decode : Body → Option Record) where
  report-record :
      (r : Record)
      → decode (record_of r) ≡ some r
      → IsShown r (do
        report ← report_lookup decode (record { code = 200; body = record_of r })
        ok (reported report))
  unfolding report_lookup prefix_of
  report-record r h = elim (Bool-cases (ltb (length r.public_key) 16)) [
    | inl short ↦ inl (ground arith, ground (arith, h, short))
    | inr long ↦ inr (ground arith, ground (arith, h, long))
  ]

  module _ (look : Bytes → Bytes → Outcome (Option Record)) (query_name query_group : Bytes → Bytes)
      (in_time : Bool) where
    -- The node behind the local interface: `query_name` and `query_group` give the values of `name`
    -- and `group` in the address of a request.
    abbrev pub get : Bytes → Option Response
    get url = arrives in_time (handle_lookup look (query_name url) (query_group url))

    -- What the command makes of the node's response.
    abbrev ended : Option Response → Outcome LookupEnd
    ended none = ok lookup_failed
    ended (some resp) = do report ← report_lookup decode resp; ok (reported report)

    -- The handler's response to a result of `LookupValue`.
    abbrev response_of : Outcome (Option Record) → Outcome Response
    response_of (err e) = ok (record { code = 500; body = Body.failure })
    response_of panics = panics
    response_of (ok none) = ok (record { code = 404; body = Body.message (codes "not found") })
    response_of (ok (some r)) = ok (record { code = 200; body = record_of r })

    handle_lookup-response :
        (name group : Bytes) (o : Outcome (Option Record))
        → name ≢ []
        → look name group ≡ o
        → handle_lookup look name group ≡ response_of o
    unfolding handle_lookup
    handle_lookup-response name group (err e) named h =
        ground (arith, h, named, bytes_eq_iff name [])
    handle_lookup-response name group panics named h =
        ground (arith, h, named, bytes_eq_iff name [])
    handle_lookup-response name group (ok none) named h =
        ground (arith, h, named, bytes_eq_iff name [])
    handle_lookup-response name group (ok (some r)) named h =
        ground (arith, h, named, bytes_eq_iff name [])

    ended-IsReported :
        (first : Response) (b : Bool) (o : Outcome (Option Record))
        → ((r : Record) → decode (record_of r) ≡ some r)
        → IsReported (some first) b o (ended (arrives b (response_of o)))
    ended-IsReported first false (err e) reads = refl
    ended-IsReported first false panics reads = refl
    ended-IsReported first false (ok none) reads = refl
    ended-IsReported first false (ok (some r)) reads = refl
    ended-IsReported first true (err e) reads = unfold report_lookup in refl
    ended-IsReported first true panics reads = refl
    ended-IsReported first true (ok none) reads = unfold report_lookup in refl
    ended-IsReported first true (ok (some r)) reads = report-record r (reads r)

    -- `meshnet lookup` with a name: where no node runs, it says so. Else it reports what
    -- `LookupValue` of the node returned: an error as such, no record as not found, and a record by
    -- its address, the first 16 characters of its key, its services and its expiry; but it panics
    -- on a record whose key has less than 16 characters. Where the handler of the node panics, or
    -- its response does not come within the time of the client, the lookup has failed. The name and
    -- the group key are taken to be ones that the query of a URL gives back as they stand, and a
    -- response that comes to come as it was sent.
    pub cmd_lookup-IsReported :
        (first : Option Response) (name group : Bytes) (rest : List Bytes)
        → name ≢ []
        → ((r : Record) → decode (record_of r) ≡ some r)
        → query_name (lookup_url name group) ≡ name
        → query_group (lookup_url name group) ≡ group
        → IsReported first in_time
            (look name group)
            (cmd_lookup first get decode (name ∷ rest) group)
    unfolding cmd_lookup is_node_running
    cmd_lookup-IsReported none name group rest named reads is_name is_group = refl
    cmd_lookup-IsReported (some first) name group rest named reads is_name is_group =
        let served = handle_lookup-response name group (look name group) named refl in
        rw (is_name, is_group, served) (ended-IsReported first in_time (look name group) reads)
