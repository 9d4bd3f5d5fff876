-- ===== src/Dht/Table.antt =====
-- The routing table of dht/routing.go and `All` of dht/peers.go. Each operation holds the table's
-- lock for all of its accesses, so it is one step on the state.
pub mod Buckets
pub mod Valid
pub mod View
pub mod Contents
pub mod Closest
use mesh_net.Base.{
  ℕ, zero, suc, ◌+◌, ◌<◌, ◌≡◌, Bool, true, false, ltb, if◌then◌else◌, Option, none, some, List, [],
  ◌∷◌, ◌++◌, length, get_or, set, take, drop, replicate, concat, Bytes, bytes_eq,
}
use mesh_net.Sort.{sort_slice}
use mesh_net.Dht.NodeId.{NodeId, ℤ, pos, negsuc, bucket_index}
use mesh_net.Dht.Contact.{Contact, closer}

-- `const K = 20`
abbrev pub bucket_size : ℕ
bucket_size = 20

pub record RoutingTable : Type 0 where
  pub self : NodeId
  pub buckets : List (List Contact)

unfoldable pub new_routing_table : NodeId → RoutingTable
new_routing_table self = record { self = self; buckets = replicate 256 [] }

abbrev pub bucket : RoutingTable → ℕ → List Contact
bucket rt i = get_or rt.buckets i []

abbrev pub set_bucket : RoutingTable → ℕ → List Contact → RoutingTable
set_bucket rt i b = record rt { buckets = set rt.buckets i b }

-- The loop that looks for an identifier: the index at which it stops.
unfoldable pub index_of : NodeId → List Contact → Option ℕ
index_of id [] = none
index_of id (c ∷ cs) =
    if bytes_eq c.id id
    then some 0
    else elim (index_of id cs) [ none ↦ none | some i ↦ some (suc i) ]

-- `append(bucket[:i], bucket[i+1:]...)`
abbrev pub splice : List Contact → ℕ → List Contact
splice b i = take i b ++ drop (suc i) b

-- The part of `Add` under the lock.
unfoldable pub add_to_bucket : RoutingTable → ℕ → Contact → RoutingTable
add_to_bucket rt idx c = elim (index_of c.id (bucket rt idx)) [
  | some i ↦ set_bucket rt idx (splice (bucket rt idx) i ++ c ∷ [])
  | none ↦
      if ltb (length (bucket rt idx)) bucket_size
      then set_bucket rt idx (bucket rt idx ++ c ∷ [])
      else rt
]

unfoldable pub add : RoutingTable → Contact → RoutingTable
add rt c =
    if bytes_eq c.id rt.self
    then rt
    else elim (bucket_index rt.self c.id) [ negsuc _ ↦ rt | pos idx ↦ add_to_bucket rt idx c ]

-- The part of `Remove` under the lock.
unfoldable pub remove_from_bucket : RoutingTable → ℕ → NodeId → RoutingTable
remove_from_bucket rt idx id = elim (index_of id (bucket rt idx)) [
  | some i ↦ set_bucket rt idx (splice (bucket rt idx) i)
  | none ↦ rt
]

unfoldable pub remove : RoutingTable → NodeId → RoutingTable
remove rt id = elim (bucket_index rt.self id) [
  | negsuc _ ↦ rt
  | pos idx ↦ remove_from_bucket rt idx id
]

-- The loop that `Closest` and `All` share.
unfoldable pub all_contacts : RoutingTable → List Contact
all_contacts rt = concat rt.buckets

unfoldable pub closest : RoutingTable → NodeId → ℕ → List Contact
closest rt target count =
    let all = sort_slice (closer target) (all_contacts rt) in
    take (if ltb (length all) count then length all else count) all

unfoldable pub total_from : ℕ → List (List Contact) → ℕ
total_from total [] = total
total_from total (b ∷ bs) = total_from (total + length b) bs

unfoldable pub size : RoutingTable → ℕ
size rt = total_from 0 rt.buckets
