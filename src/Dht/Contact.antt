-- ===== src/Dht/Contact.antt =====
-- `Contact` of dht/routing.go, and the lists of contacts that buckets and lookups keep.
pub mod Rearranged
use mesh_net.Base.{
  ℕ, ◌≡◌, Bool, true, false, ◌||◌, if◌then◌else◌, Option, none, some, List, [], ◌∷◌, Bytes,
  bytes_eq,
}
use mesh_net.Dht.NodeId.{NodeId, IsNodeId, less, ℤ}
use mesh_net.Dht.NodeId.Distance.{distance}

-- `address` is a `net.IP`; `none` is its nil.
pub record Contact : Type 0 where
  pub id : NodeId
  pub address : Option Bytes
  pub port : ℤ

abbrev pub HasNodeId : Contact → Type 0
HasNodeId c = IsNodeId c.id

-- `all[i].ID.Less(all[j].ID, target)`
abbrev pub closer : NodeId → Contact → Contact → Bool
closer target a b = less a.id b.id target

abbrev pub distance_to : NodeId → Contact → ℕ
distance_to target c = distance c.id target

-- Whether a loop over the contacts meets the identifier.
unfoldable pub has_id : NodeId → List Contact → Bool
has_id id [] = false
has_id id (c ∷ cs) = bytes_eq c.id id || has_id id cs

-- No identifier stands twice.
abbrev pub HasDistinctIds : List Contact → Type 0
HasDistinctIds [] = Unit
HasDistinctIds (c ∷ cs) = (has_id c.id cs ≡ false) × HasDistinctIds cs

-- The first contact of the identifier.
unfoldable pub find_id : NodeId → List Contact → Option Contact
find_id id [] = none
find_id id (c ∷ cs) = if bytes_eq c.id id then some c else find_id id cs
