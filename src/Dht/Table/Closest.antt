-- ===== src/Dht/Table/Closest.antt =====
-- `Closest` of dht/routing.go against the distances of the contacts in the table.
use mathlib.Core.List.{Perm}
use mesh_net.Base.{
  ℕ, ◌≤◌, ◌≡◌, sym, ◌∙◌, ltb, if◌then◌else◌, List, ◌++◌, length, min, take, drop, take-append-drop,
  take_of_length-le, length-take, All, arith, Bool-cases, inl, inr,
}
use mesh_net.Sort.{
  sort_slice, sort_slice-perm, sort_slice-IsSorted, length-sort_slice, IsSorted, IsSorted-take,
  take-le-drop, Compares,
}
use mesh_net.Dht.NodeId.{NodeId, IsNodeId}
use mesh_net.Dht.NodeId.Distance.{less-distance}
use mesh_net.Dht.Contact.{Contact, HasNodeId, closer, distance_to}
use mesh_net.Dht.Table.{RoutingTable, all_contacts, closest}
use mesh_net.Dht.Table.Valid.{IsTable}
use mesh_net.Dht.Table.Contents.{all_contacts-HasNodeId}

-- On contacts with identifiers of 32 bytes the test compares distances.
pub closer-Compares :
    (target : NodeId) → IsNodeId target → Compares HasNodeId (distance_to target) (closer target)
closer-Compares target h a b ha hb = less-distance a.id b.id target ha hb h

pub take_capped {ℓ} :
    {A : Type ℓ} (n : ℕ) (xs : List A)
    → take (if ltb (length xs) n then length xs else n) xs ≡ take n xs
take_capped n xs = elim (Bool-cases (ltb (length xs) n)) [
  | inl fewer ↦
      rw fewer (
        take_of_length-le (length xs) xs (omega arith)
        ∙ sym (take_of_length-le n xs (ground arith)))
  | inr enough ↦ rw enough
]

-- `near` are `count` contacts of `all`, or all of them: the nearest to the target, in order.
pub record AreClosest (target : NodeId) (count : ℕ) (all near far : List Contact) : Type 0 where
  pub split : Perm (near ++ far) all
  pub number : length near ≡ min count (length all)
  pub sorted : IsSorted (distance_to target) near
  pub nearest : All (λ x. All (λ y. distance_to target x ≤ distance_to target y) far) near

-- `Closest` on a valid table, for a target of 32 bytes, returns the `count` contacts of the table
-- that are nearest to the target, or all where there are fewer, sorted by distance: each contact
-- left out is at least as far from the target as each one returned.
pub closest_nearest :
    (rt : RoutingTable) (target : NodeId) (count : ℕ)
    → IsTable rt
    → IsNodeId target
    → (far : List Contact) × AreClosest target count (all_contacts rt) (closest rt target count) far
unfolding closest
closest_nearest rt target count v h =
    let all = sort_slice (closer target) (all_contacts rt) in
    let ids = all_contacts-HasNodeId rt v in
    let sorted =
      sort_slice-IsSorted HasNodeId (distance_to target) (closer target) (closer-Compares target h)
        (all_contacts rt) ids in
    (
      drop count all,
      rw (take_capped count all) (record {
        split = rw (take-append-drop count all) (sort_slice-perm (closer target) (all_contacts rt));
        number =
            omega
              (arith, length-take count all, length-sort_slice (closer target) (all_contacts rt));
        sorted = IsSorted-take (distance_to target) count all sorted;
        nearest = take-le-drop (distance_to target) count all sorted;
      }),
    )
