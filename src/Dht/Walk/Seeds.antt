-- ===== src/Dht/Walk/Seeds.antt =====
-- The contacts with which a lookup of dht/lookup.go starts.
use mathlib.Core.List.Perm
use mesh_net.Base.{List, [], ◌∷◌, ◌++◌, All-append_left, arith}
use mesh_net.Dht.NodeId.{NodeId, IsNodeId}
use mesh_net.Dht.Contact.{Contact, HasNodeId, HasDistinctIds}
use mesh_net.Dht.Contact.Rearranged.{has_id-perm, HasDistinctIds-perm, All-perm}
use mesh_net.Dht.Table.{RoutingTable, all_contacts, closest, bucket_size}
use mesh_net.Dht.Table.Buckets.{has_id-append}
use mesh_net.Dht.Table.Valid.{IsTable}
use mesh_net.Dht.Table.Contents.{
  all_contacts-HasNodeId, all_contacts-HasDistinctIds, all_contacts-foreign,
}
use mesh_net.Dht.Table.Closest.{closest_nearest}
use mesh_net.Dht.Lookup.{new_lookup_state}
use mesh_net.Dht.Lookup.Adding.{IsLookup, IsNodeId-prop}
use mesh_net.Dht.Walk.Round.{AreAmong}

append-HasDistinctIds_left : (xs ys : List Contact) → HasDistinctIds (xs ++ ys) → HasDistinctIds xs
append-HasDistinctIds_left [] ys h = tt
append-HasDistinctIds_left (x ∷ xs) ys h =
    (ground (arith, h.0, has_id-append x.id xs ys), append-HasDistinctIds_left xs ys h.1)

-- The seeds of a lookup are candidates in order.
pub closest-IsLookup :
    (rt : RoutingTable) (target : NodeId)
    → IsTable rt
    → IsNodeId target
    → IsLookup (new_lookup_state rt.self target (closest rt target bucket_size))
unfolding new_lookup_state
closest-IsLookup rt target v h =
    let (far, near) = closest_nearest rt target bucket_size v h in
    let found = closest rt target bucket_size in
    let back = Perm.symm near.split in
    record {
      target_id = h;
      ids = All-append_left HasNodeId found far (
          All-perm HasNodeId (all_contacts rt) (found ++ far) IsNodeId-prop back
            (all_contacts-HasNodeId rt v));
      distinct = append-HasDistinctIds_left found far (
          HasDistinctIds-perm (all_contacts rt) (found ++ far) back
            (all_contacts-HasDistinctIds rt v));
      foreign = ground (
        arith,
        has_id-append rt.self found far,
        all_contacts-foreign rt v,
        has_id-perm rt.self (found ++ far) (all_contacts rt) near.split,
      );
      sorted = near.sorted;
    }

pub closest-AreAmong :
    (universe : List NodeId) (rt : RoutingTable) (target : NodeId)
    → IsTable rt
    → IsNodeId target
    → AreAmong universe (all_contacts rt)
    → AreAmong universe (closest rt target bucket_size)
closest-AreAmong universe rt target v h among q here =
    let (far, near) = closest_nearest rt target bucket_size v h in
    let found = closest rt target bucket_size in
    among q (
      ground (
        arith,
        has_id-append q found far,
        has_id-perm q (found ++ far) (all_contacts rt) near.split,
      ))
