-- ===== src/Cli/Commands.antt =====
-- The commands `status`, `peers` and `peer` of cli/cli.go, and the choice of a command in `Run`. An
-- answer of the local interface is a parameter, `none` where it cannot be reached; a body is the value
-- that is encoded, and `decode` is `encoding/json` on it. What is printed is a value, without its text.
pub mod Peers
pub mod Adding
use mesh_net.Base.{
  ℕ, ◌+◌, ◌/◌, ◌≡◌, Bool, true, false, not, ◌||◌, ◌==◌, if◌then◌else◌, Option, none, some, List, [],
  ◌∷◌, ◌++◌, length, Bytes, bytes_eq, codes,
}
use mesh_net.Outcome.{Outcome, ok, err, panics, ◌>>=◌, FileRead, content, missing, unreadable}
use mesh_net.Dht.NodeId.{ℤ, pos}
use mesh_net.Dht.Env.{decimal}
use mesh_net.Dht.Api.{api_port, Body, Response, Status, PeerInfo}
use mesh_net.Dht.Peers.{peers_file}
use mesh_net.Core.Identity.{Disk}
use mesh_net.Dht.Store.{Record}
use mesh_net.Cli.{prefix_of, str_16, LookupReport, report_lookup}

-- The command that `Run` calls, with its arguments.
pub data Command : Type 0 where
  start lookup status peers peer : List Bytes → Command
  help unknown : Command

unfoldable pub chosen : Bytes → List Bytes → Command
chosen name args =
    if bytes_eq name (codes "start")
    then start args
    else if bytes_eq name (codes "lookup")
    then lookup args
    else if bytes_eq name (codes "status")
    then status args
    else if bytes_eq name (codes "peers")
    then peers args
    else if bytes_eq name (codes "peer")
    then peer args
    else if bytes_eq name (codes "help")
        || bytes_eq name (codes "--help")
        || bytes_eq name (codes "-h")
    then help
    else unknown

-- `os.Args`, the name of the program first.
unfoldable pub run : List Bytes → Command
run [] = help
run (program ∷ []) = help
run (program ∷ name ∷ args) = chosen name args

-- `IsNodeRunning` of dht/api.go: any answer will do.
unfoldable pub is_node_running : Option Response → Bool
is_node_running none = false
is_node_running (some resp) = true

-- What a command prints, or that it ends the process with 1.
pub data Report (A : Type 0) : Type 0 where
  no_node unreachable not_decoded : Report A
  shown : A → Report A

-- The request of a command behind `IsNodeRunning`, and the decoding of its answer.
unfoldable pub answered :
    {A : Type 0} → Option Response → Option Response → (Body → Option A) → Report A
answered first second decode = if not (is_node_running first) then no_node else elim second [
  | none ↦ unreachable
  | some resp ↦ elim (decode resp.body) [ none ↦ not_decoded | some a ↦ shown a ]
]

-- How `cmdLookup` ends: without a name, without a node, without an answer, or with a report.
pub data LookupEnd : Type 0 where
  no_name no_running lookup_failed : LookupEnd
  reported : LookupReport → LookupEnd

-- The address that `meshnet lookup` asks; the name and the group key stand in it as they are.
unfoldable pub lookup_url : Bytes → Bytes → Bytes
lookup_url name group =
    codes "http://127.0.0.1:"
    ++ (decimal (pos api_port) ++ (codes "/lookup?name=" ++ (name ++ (codes "&group=" ++ group))))

-- The arguments are those that are no flags; `get` is the answer to a request at an address.
unfoldable pub cmd_lookup :
    Option Response
    → (Bytes → Option Response)
    → (Body → Option Record)
    → List Bytes
    → Bytes
    → Outcome LookupEnd
cmd_lookup first get decode [] group = ok no_name
cmd_lookup first get decode (name ∷ rest) group =
    if not (is_node_running first) then ok no_running else elim (get (lookup_url name group)) [
      | none ↦ ok lookup_failed
      | some resp ↦ (do report ← report_lookup decode resp; ok (reported report))
    ]

-- The five lines of `cmdStatus`; of the key 16 characters are shown.
unfoldable pub status_lines : Status → Status
status_lines s = record s { public_key = str_16 s.public_key }

unfoldable pub cmd_status :
    Option Response → Option Response → (Body → Option Status) → Report Status
cmd_status first second decode = elim (answered first second decode) [
  | no_node ↦ no_node
  | unreachable ↦ unreachable
  | not_decoded ↦ not_decoded
  | shown s ↦ shown (status_lines s)
]

-- `Round(time.Millisecond)` of nanoseconds, in milliseconds.
unfoldable pub round_ms : ℕ → ℕ
round_ms ns = (ns + 500_000) / 1_000_000

-- A line of `cmdPeers`; `latency` is `none` for `unreachable`.
pub record PeerLine : Type 0 where
  pub alive : Bool
  pub id : Bytes
  pub addr : Bytes
  pub port : ℤ
  pub latency : Option ℕ

-- `p.ID[:12]` panics on a shorter text.
unfoldable pub peer_line : PeerInfo → Outcome PeerLine
peer_line p = do
  id ← prefix_of 12 p.id
  ok (record {
    alive = p.alive;
    id = id;
    addr = p.addr;
    port = p.port;
    latency = if p.alive then some (round_ms p.latency) else none;
  })

unfoldable pub peer_lines : List PeerInfo → Outcome (List PeerLine)
peer_lines [] = ok []
peer_lines (p ∷ ps) = do line ← peer_line p; lines ← peer_lines ps; ok (line ∷ lines)

-- With no peer, a hint is printed.
unfoldable pub cmd_peers :
    Option Response
    → Option Response
    → (Body → Option (List PeerInfo))
    → Outcome (Report (List PeerLine))
cmd_peers first second decode = elim (answered first second decode) [
  | no_node ↦ ok no_node
  | unreachable ↦ ok unreachable
  | not_decoded ↦ ok not_decoded
  | shown ps ↦ (do lines ← peer_lines ps; ok (shown lines))
]

-- What `cmdPeer` prints. `refused` has the status of the answer.
pub data PeerReport : Type 0 where
  usage add_usage no_node_running not_reached : PeerReport
  refused : ℕ → PeerReport
  added : PeerReport
  saved : Bytes → PeerReport
  no_saved no_file cleared unknown_subcommand : PeerReport

-- The exit status.
unfoldable pub exit_code : PeerReport → ℕ
exit_code usage = 0
exit_code add_usage = 1
exit_code no_node_running = 1
exit_code not_reached = 1
exit_code (refused code) = 1
exit_code added = 0
exit_code (saved text) = 0
exit_code no_saved = 0
exit_code no_file = 0
exit_code cleared = 0
exit_code unknown_subcommand = 1

-- The address that `meshnet peer add` posts to; the address of the peer stands in it as it is.
unfoldable pub peer_url : Bytes → Bytes
peer_url address =
    codes "http://127.0.0.1:" ++ (decimal (pos api_port) ++ (codes "/peer?addr=" ++ address))

-- `post` is the answer to a request at an address.
unfoldable pub add_peer : Option Response → (Bytes → Option Response) → Bytes → PeerReport
add_peer first post address =
    if not (is_node_running first) then no_node_running else elim (post (peer_url address)) [
      | none ↦ not_reached
      | some resp ↦ if not (resp.code == 200) then refused resp.code else added
    ]

unfoldable pub list_peers : Disk → PeerReport
list_peers disk = elim (disk.read peers_file) [
  | content text ↦ saved text
  | missing ↦ no_saved
  | unreadable ↦ no_saved
]

-- `os.Remove`, where it succeeds.
unfoldable pub remove_file : Disk → Bytes → Disk
remove_file disk path = record disk { read = λ p. if bytes_eq path p then missing else disk.read p }

-- `removes` says whether `os.Remove` succeeds.
unfoldable pub clear_peers : Bool → Disk → Disk × PeerReport
clear_peers removes disk =
    if removes then (remove_file disk peers_file, cleared) else (disk, no_file)

abbrev add_first : Option Response → (Bytes → Option Response) → List Bytes → PeerReport
add_first first post [] = add_usage
add_first first post (address ∷ rest) = add_peer first post address

unfoldable pub cmd_peer :
    Option Response → (Bytes → Option Response) → Bool → Disk → List Bytes → Disk × PeerReport
cmd_peer first post removes disk [] = (disk, usage)
cmd_peer first post removes disk (sub ∷ args) =
    if bytes_eq sub (codes "add")
    then (disk, add_first first post args)
    else if bytes_eq sub (codes "list")
    then (disk, list_peers disk)
    else if bytes_eq sub (codes "clear")
    then clear_peers removes disk
    else (disk, unknown_subcommand)
