-- ===== src/Dht/Walk.antt =====
-- `LookupNode` of dht/lookup.go. `net n` is the network in round `n`, and `arrive n` the order in
-- which the answers of round `n` arrive on the channel: the goroutines of a round run side by side.
-- All of a round's contacts are marked before its answers are added: the marks are of candidates,
-- which an answer does not add again, marked or not.
pub mod Open
pub mod Extended
pub mod Seeds
pub mod Round
pub mod Ends
use mesh_net.Base.{ℕ, zero, suc, ◌≡◌, Bool, if◌then◌else◌, Option, none, some, List, [], ◌∷◌, Bytes}
use mesh_net.Outcome.{Outcome, ok, err, panics}
use mesh_net.Dht.NodeId.{NodeId, node_id_from_hex}
use mesh_net.Dht.Contact.{Contact}
use mesh_net.Dht.Table.{RoutingTable, bucket_size, add, closest}
use mesh_net.Dht.Lookup.{
  LookupState, new_lookup_state, next_batch, mark_contacted, add_candidates, nearest,
}
use mesh_net.Dht.Rpc.{ContactInfo}
use mesh_net.Dht.Env.{Env, Network, addr}
use mesh_net.Dht.Client.{send_find_node}

abbrev pub infos_of : Option (List ContactInfo) → List ContactInfo
infos_of none = []
infos_of (some infos) = infos

abbrev pub contact_of : Outcome NodeId → Option Bytes → ContactInfo → List Contact → List Contact
contact_of (ok id) (some ip) ci rest = record { id = id; address = some ip; port = ci.port } ∷ rest
contact_of (ok id) none ci rest = rest
contact_of (err e) ip ci rest = rest
contact_of panics ip ci rest = rest

-- The loop that turns an answer into contacts: what has no identifier or no address is skipped.
unfoldable pub decode_infos : Env → List ContactInfo → List Contact
decode_infos env [] = []
decode_infos env (ci ∷ cis) =
    contact_of (node_id_from_hex ci.id) (env.parse_ip ci.addr) ci (decode_infos env cis)

unfoldable pub mark_all : LookupState → List Contact → LookupState
mark_all ls [] = ls
mark_all ls (c ∷ cs) = mark_all (mark_contacted ls c.id) cs

unfoldable pub add_all : RoutingTable → List Contact → RoutingTable
add_all table [] = table
add_all table (c ∷ cs) = add_all (add table c) cs

-- `for contacts := range results`
unfoldable pub deliver_all :
    LookupState → RoutingTable → List (List Contact) → LookupState × RoutingTable
deliver_all ls table [] = (ls, table)
deliver_all ls table (contacts ∷ results) =
    deliver_all (add_candidates ls contacts) (add_all table contacts) results

-- `results <- found`, or nothing after an error.
abbrev pub sent : Option (List Contact) → List (List Contact) → List (List Contact)
sent none rest = rest
sent (some contacts) rest = contacts ∷ rest

module _ (env : Env) (net : ℕ → Network) where
  -- What the goroutine of a contact sends on the channel; nothing after an error.
  unfoldable pub ask : ℕ → NodeId → NodeId → Contact → Option (List Contact)
  ask n self target c = elim (send_find_node env (net n) (addr env c) self target) [
    | ok infos ↦ some (decode_infos env (infos_of infos))
    | err e ↦ none
    | panics ↦ none
  ]

  unfoldable pub ask_all : ℕ → NodeId → NodeId → List Contact → List (List Contact)
  ask_all n self target [] = []
  ask_all n self target (c ∷ cs) = sent (ask n self target c) (ask_all n self target cs)

module _ (env : Env) (net : ℕ → Network)
    (arrive : ℕ → List (List Contact) → List (List Contact)) where
  unfoldable pub lookup_round :
      ℕ → NodeId → LookupState → RoutingTable → List Contact → LookupState × RoutingTable
  lookup_round n self ls table batch =
      deliver_all (mark_all ls batch) table (arrive n (ask_all env net n self ls.target batch))

  -- The loop; `none` means that the fuel ran out.
  unfoldable pub lookup_loop :
      ℕ → ℕ → NodeId → LookupState → RoutingTable → Option (RoutingTable × List Contact)
  lookup_loop zero n self ls table = none
  lookup_loop (suc fuel) n self ls table = elim (next_batch ls) [
    | [] ↦ some (table, nearest ls bucket_size)
    | c ∷ cs ↦
        lookup_loop fuel (suc n) self (lookup_round n self ls table (c ∷ cs)).0
          (lookup_round n self ls table (c ∷ cs)).1
  ]

  -- The table after the lookup, and its result.
  unfoldable pub lookup_node : ℕ → RoutingTable → NodeId → Option (RoutingTable × List Contact)
  lookup_node fuel table target = elim (closest table target bucket_size) [
    | [] ↦ some (table, [])
    | c ∷ cs ↦ lookup_loop fuel 0 table.self (new_lookup_state table.self target (c ∷ cs)) table
  ]
