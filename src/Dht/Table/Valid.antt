-- ===== src/Dht/Table/Valid.antt =====
-- The invariant of the routing table of dht/routing.go.
use mathlib.Core.Path.{subst}
use native.Mathlib.Decide.{ℕ_discrete}
use mesh_net.Base.{
  ℕ, zero, suc, ◌≤◌, ◌<◌, ◌≡◌, refl, sym, true, false, List, [], ◌∷◌, ◌++◌, length, get_or, set,
  get_or-set_self, get_or-set_ne, length-set, length-append, length-replicate, replicate, All,
  All-append, bytes_eq_iff, arith, inl, inr,
}
use mesh_net.Dht.NodeId.{NodeId, IsNodeId, pos, bucket_index}
use mesh_net.Dht.NodeId.Buckets.{bucket_index-distance}
use mesh_net.Dht.Contact.{Contact, HasNodeId, has_id, HasDistinctIds}
use mesh_net.Dht.Table.{
  RoutingTable, new_routing_table, bucket, set_bucket, bucket_size, add_to_bucket, add, remove,
}
use mesh_net.Dht.Table.Buckets.{
  add_to_bucket-cases, remove_from_bucket-cases, add-cases, remove-cases, erase_id, has_id-erase_id,
  erase_id-HasDistinctIds, erase_id-All, length-erase_id, append_one-HasDistinctIds,
}

-- A contact of bucket `i`.
pub record IsPlaced (self : NodeId) (i : ℕ) (c : Contact) : Type 0 where
  pub well_formed : IsNodeId c.id
  pub index : bucket_index self c.id ≡ pos i

pub record IsBucket (self : NodeId) (i : ℕ) (b : List Contact) : Type 0 where
  pub placed : All (IsPlaced self i) b
  pub bounded : length b ≤ bucket_size
  pub distinct : HasDistinctIds b

pub record IsTable (rt : RoutingTable) : Type 0 where
  pub self_id : IsNodeId rt.self
  pub count : length rt.buckets ≡ 256
  pub each : (i : ℕ) → IsBucket rt.self i (bucket rt i)

get_or-replicate : (n i : ℕ) → get_or {A = List Contact} (replicate n []) i [] ≡ []
get_or-replicate zero i = refl
get_or-replicate (suc n) zero = refl
get_or-replicate (suc n) (suc i) = get_or-replicate n i

nil-IsBucket : (self : NodeId) (i : ℕ) → IsBucket self i []
nil-IsBucket self i = record { placed = tt; bounded = omega arith; distinct = tt }

-- A new routing table is valid.
pub new_routing_table-IsTable : (self : NodeId) → IsNodeId self → IsTable (new_routing_table self)
unfolding new_routing_table
new_routing_table-IsTable self h = record {
  self_id = h;
  count = length-replicate {A = List Contact} 256 [];
  each = λ i. subst (IsBucket self i) (sym (get_or-replicate 256 i)) (nil-IsBucket self i);
}

-- A valid bucket may take the place of another one.
pub set_bucket-IsTable :
    (rt : RoutingTable) (i : ℕ) (b : List Contact)
    → IsTable rt
    → i < 256
    → IsBucket rt.self i b
    → IsTable (set_bucket rt i b)
set_bucket-IsTable rt i b v h vb = record {
  self_id = v.self_id;
  count = omega (arith, length-set rt.buckets i b, v.count);
  each = λ j. elim (ℕ_discrete i j) [
    | yes e ↦
        subst (λ k. IsBucket rt.self k (get_or (set rt.buckets i b) k [])) e
          (rw (get_or-set_self rt.buckets i b [] (omega (arith, v.count))) vb)
    | no n ↦ rw (get_or-set_ne rt.buckets i j b [] n) (v.each j)
  ];
}

pub index-lt :
    (self other : NodeId) (i : ℕ)
    → IsNodeId self
    → IsNodeId other
    → bucket_index self other ≡ pos i
    → i < 256
index-lt self other i hs ho e = omega (arith, (bucket_index-distance self other i hs ho e).0)

append_one-IsBucket :
    (self : NodeId) (i : ℕ) (b : List Contact) (c : Contact)
    → IsBucket self i b
    → IsPlaced self i c
    → has_id c.id b ≡ false
    → length b < bucket_size
    → IsBucket self i (b ++ c ∷ [])
append_one-IsBucket self i b c v p fresh room = record {
  placed = All-append (IsPlaced self i) b (c ∷ []) v.placed (p, tt);
  bounded = omega (arith, length-append b (c ∷ []));
  distinct = append_one-HasDistinctIds b c fresh v.distinct;
}

erase_id-IsBucket :
    (self : NodeId) (i : ℕ) (b : List Contact) (id : NodeId)
    → IsBucket self i b
    → has_id id b ≡ true
    → IsBucket self i (erase_id id b)
erase_id-IsBucket self i b id v known = record {
  placed = erase_id-All (IsPlaced self i) id b v.placed;
  bounded = omega (arith, length-erase_id id b known, v.bounded);
  distinct = erase_id-HasDistinctIds id b v.distinct;
}

add_to_bucket-IsTable :
    (rt : RoutingTable) (i : ℕ) (c : Contact)
    → IsTable rt
    → IsPlaced rt.self i c
    → IsTable (add_to_bucket rt i c)
add_to_bucket-IsTable rt i c v p =
    let b = bucket rt i in
    let lt = index-lt rt.self c.id i v.self_id p.well_formed p.index in
    let vb = v.each i in
    elim (add_to_bucket-cases rt i c) [
      | inl (known, e) ↦
          let size = length-erase_id c.id b known in
          let fresh : has_id c.id (erase_id c.id b) ≡ false =
            ground (arith, has_id-erase_id c.id c.id b vb.distinct, bytes_eq_iff c.id c.id) in
          rw e (
            set_bucket-IsTable rt i _ v lt (
              append_one-IsBucket rt.self i (erase_id c.id b) c
                (erase_id-IsBucket rt.self i b c.id vb known) p fresh (omega (arith, vb.bounded))))
      | inr (inl (fresh, room, e)) ↦
          rw e (set_bucket-IsTable rt i _ v lt (append_one-IsBucket rt.self i b c vb p fresh room))
      | inr (inr (fresh, full, e)) ↦ rw e v
    ]

-- `Add` of a contact with an identifier of 32 bytes keeps a valid table valid: 256 buckets,
-- contacts in the bucket of their distance, at most `K` in one, and no identifier twice.
pub add-IsTable : (rt : RoutingTable) (c : Contact) → IsTable rt → HasNodeId c → IsTable (add rt c)
add-IsTable rt c v h = elim (add-cases rt c) [
  | inl (own, e) ↦ rw e v
  | inr (inl (none_there, e)) ↦ rw e v
  | inr (inr (i, other, index, e)) ↦
      rw e (add_to_bucket-IsTable rt i c v (record { well_formed = h; index = index }))
]

-- `Remove` of an identifier of 32 bytes keeps a valid table valid.
pub remove-IsTable :
    (rt : RoutingTable) (id : NodeId) → IsTable rt → IsNodeId id → IsTable (remove rt id)
remove-IsTable rt id v h = elim (remove-cases rt id) [
  | inl (none_there, e) ↦ rw e v
  | inr (i, index, e) ↦ rw e (elim (remove_from_bucket-cases rt i id) [
    | inl (known, f) ↦ rw f (
        set_bucket-IsTable rt i _ v (index-lt rt.self id i v.self_id h index)
          (erase_id-IsBucket rt.self i (bucket rt i) id (v.each i) known))
    | inr (fresh, f) ↦ rw f v
  ])
]
