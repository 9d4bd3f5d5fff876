-- ===== src/Dht/Tests/Ids.antt =====
-- Identifiers, at concrete values.
use mesh_net.Base.{◌≤◌, ◌<◌, ◌-◌, ◌^◌, ◌≡◌, [], ◌∷◌, refl, arith}
use mesh_net.Outcome.{ok, err, bad_key_length}
use mesh_net.Dht.NodeId.{
  node_id_from_hex, node_id_from_bytes, copy_32, hex_encode, bucket_index, pos,
}
use mesh_net.Dht.NodeId.Hex.{node_id_from_hex_any_length}
use mesh_net.Dht.NodeId.Distance.{distance}
use mesh_net.Dht.NodeId.Buckets.{bucket_index-distance}
use mesh_net.Dht.Tests.Samples.{sample_id, sample_id-IsNodeId}

index_of_five : bucket_index (sample_id 0) (sample_id 5) ≡ pos 253
unfolding bucket_index
index_of_five = refl

node_id_from_hex_any_length_example :
    (node_id_from_hex (hex_encode (7 ∷ [])) ≡ ok (copy_32 (7 ∷ [])))
    × (node_id_from_bytes (7 ∷ []) ≡ err bad_key_length)
node_id_from_hex_any_length_example =
    node_id_from_hex_any_length (7 ∷ []) (omega arith, tt) (λ e. omega (arith, e))

bucket_index-distance_example :
    (253 ≤ 255)
    × (2 ^ (255 - 253) ≤ distance (sample_id 0) (sample_id 5))
    × (distance (sample_id 0) (sample_id 5) < 2 ^ (256 - 253))
bucket_index-distance_example =
    bucket_index-distance (sample_id 0) (sample_id 5) 253 (sample_id-IsNodeId 0 (omega arith))
      (sample_id-IsNodeId 5 (omega arith)) index_of_five
