-- ===== src/Dht/Tests/Tables.antt =====
-- The routing table and the sorting of candidates, at concrete values.
use mesh_net.Base.{List, [], ◌∷◌, arith}
use mesh_net.Dht.Contact.{Contact}
use mesh_net.Dht.Table.{add, closest, all_contacts}
use mesh_net.Dht.Table.Valid.{IsTable, add-IsTable}
use mesh_net.Dht.Table.Closest.{AreClosest, closest_nearest}
use mesh_net.Dht.Tests.Samples.{
  sample_id, sample_id-IsNodeId, sample_contact, sample_table, sample_table-IsTable,
}

add-IsTable_example : IsTable (add sample_table (sample_contact 6))
add-IsTable_example =
    add-IsTable sample_table (sample_contact 6) sample_table-IsTable
      (sample_id-IsNodeId 6 (omega arith))

closest_nearest_example :
    (far : List Contact) × AreClosest
      (sample_id 8)
      1
      (all_contacts sample_table)
      (closest sample_table (sample_id 8) 1)
      far
closest_nearest_example =
    closest_nearest sample_table (sample_id 8) 1 sample_table-IsTable
      (sample_id-IsNodeId 8 (omega arith))

abbrev samples : List Contact
samples = sample_contact 5 ∷ sample_contact 9 ∷ sample_contact 6 ∷ []
