-- ===== src/Dht/Table/View.antt =====
-- The routing table of dht/routing.go as a partial map from identifiers to contacts.
use native.Mathlib.Decide.{ℕ_discrete}
use mesh_net.Base.{
  ℕ, ◌<◌, ◌≡◌, ap, sym, ◌∙◌, Bool, false, ◌&&◌, ◌||◌, if◌then◌else◌, ltb, Option, none, some, List,
  [], ◌∷◌, ◌++◌, length, get_or-set_self, get_or-set_ne, bytes_eq, bytes_eq_iff, arith, Bool-cases,
  inl, inr,
}
use mesh_net.Dht.NodeId.{NodeId, IsNodeId, ℤ, pos, negsuc, bucket_index}
use mesh_net.Dht.NodeId.Buckets.{bucket_index-cases, bucket_index-negsuc_iff}
use mesh_net.Dht.Contact.{Contact, has_id, find_id}
use mesh_net.Dht.Table.{
  RoutingTable, bucket, set_bucket, bucket_size, add_to_bucket, add, remove_from_bucket, remove,
}
use mesh_net.Dht.Table.Buckets.{
  add_to_bucket-cases, remove_from_bucket-cases, add-cases, remove-cases, erase_id, has_id-erase_id,
  find_id-erase_id, find_id-append_one, find_id-none_iff,
}
use mesh_net.Dht.Table.Valid.{IsTable, index-lt}

unfoldable pub find_at : RoutingTable → NodeId → ℤ → Option Contact
find_at rt q (negsuc _) = none
find_at rt q (pos i) = find_id q (bucket rt i)

-- The contact that the table holds for an identifier.
unfoldable pub find : RoutingTable → NodeId → Option Contact
find rt q = find_at rt q (bucket_index rt.self q)

unfoldable pub admits_at : RoutingTable → Contact → ℤ → Bool
admits_at rt c (negsuc _) = false
admits_at rt c (pos i) = has_id c.id (bucket rt i) || ltb (length (bucket rt i)) bucket_size

-- Whether `Add` takes the contact: it is known already, or its bucket has room.
unfoldable pub admits : RoutingTable → Contact → Bool
admits rt c = admits_at rt c (bucket_index rt.self c.id)

-- One bucket is replaced, and one that finds `q` differently only if `q` is the identifier.
find_at-set_bucket :
    (rt : RoutingTable) (q id : NodeId) (i : ℕ) (b : List Contact) (r : Option Contact)
    → i < length rt.buckets
    → bucket_index rt.self id ≡ pos i
    → find_id q b ≡ (if bytes_eq id q then r else find_id q (bucket rt i))
    → find_at (set_bucket rt i b) q (bucket_index rt.self q)
      ≡ (if bytes_eq id q then r else find_at rt q (bucket_index rt.self q))
unfolding find_at
find_at-set_bucket rt q id i b r lt index h = elim (Bool-cases (bytes_eq id q)) [
  | inl same ↦
      let at : bucket_index rt.self q ≡ pos i =
        ap (bucket_index rt.self) (sym ((bytes_eq_iff id q).0 same)) ∙ index in
      rw (at, find_at, get_or-set_self rt.buckets i b [] lt, h)
  | inr other ↦ elim (bucket_index-cases rt.self q) [
    | inl e ↦ rw (e, find_at, other)
    | inr (j, e) ↦ elim (ℕ_discrete i j) [
      | yes p ↦ rw (e, ← p, find_at, get_or-set_self rt.buckets i b [] lt) h
      | no n ↦ rw (e, find_at, get_or-set_ne rt.buckets i j b [] n, other)
    ]
  ]
]

find-add_to_bucket :
    (rt : RoutingTable) (c : Contact) (q : NodeId) (i : ℕ)
    → IsTable rt
    → IsNodeId c.id
    → bucket_index rt.self c.id ≡ pos i
    → find_at (add_to_bucket rt i c) q (bucket_index (add_to_bucket rt i c).self q) ≡ (
        if bytes_eq c.id q && (has_id c.id (bucket rt i) || ltb (length (bucket rt i)) bucket_size)
        then some c
        else find_at rt q (bucket_index rt.self q))
find-add_to_bucket rt c q i v h index =
    let b = bucket rt i in
    let lt : i < length rt.buckets =
      omega (arith, index-lt rt.self c.id i v.self_id h index, v.count) in
    let d = (v.each i).distinct in
    elim (add_to_bucket-cases rt i c) [
      | inl (known, e) ↦
          let fresh : has_id c.id (erase_id c.id b) ≡ false =
            ground (arith, has_id-erase_id c.id c.id b d, bytes_eq_iff c.id c.id) in
          rw (e, known)
            (find_at-set_bucket rt q c.id i (erase_id c.id b ++ c ∷ []) (some c) lt index (
                ground (
                  arith,
                  find_id-append_one q (erase_id c.id b) c fresh,
                  find_id-erase_id q c.id b d,
                ))
              ∙ ground arith)
      | inr (inl (fresh, room, e)) ↦
          rw (e, fresh)
            (find_at-set_bucket rt q c.id i (b ++ c ∷ []) (some c) lt index
                (find_id-append_one q b c fresh)
              ∙ ground arith)
      | inr (inr (fresh, full, e)) ↦ rw (e, fresh) (ground arith)
    ]

-- After `Add` to a valid table of a contact with an identifier of 32 bytes: if the table admits it,
-- because the identifier is known or its bucket has room, the identifier gives the new contact; a
-- contact that is not admitted changes nothing; every other identifier gives what it gave before.
pub find-add :
    (rt : RoutingTable) (c : Contact) (q : NodeId)
    → IsTable rt
    → IsNodeId c.id
    → find (add rt c) q ≡ (if bytes_eq c.id q && admits rt c then some c else find rt q)
unfolding find admits admits_at
find-add rt c q v h = elim (add-cases rt c) [
  | inl (own, e) ↦
      let no_bucket = (bucket_index-negsuc_iff rt.self c.id v.self_id h).1 (sym own) in
      rw (e, no_bucket, admits_at) (ground arith)
  | inr (inl (no_bucket, e)) ↦ rw (e, no_bucket, admits_at) (ground arith)
  | inr (inr (i, other, index, e)) ↦
      rw (e, index, admits_at) (find-add_to_bucket rt c q i v h index)
]

-- An identifier that its bucket does not hold is not found.
absent_view :
    (rt : RoutingTable) (id q : NodeId) (i : ℕ)
    → bucket_index rt.self id ≡ pos i
    → has_id id (bucket rt i) ≡ false
    → find_at rt q (bucket_index rt.self q)
      ≡ (if bytes_eq id q then none else find_at rt q (bucket_index rt.self q))
unfolding find_at
absent_view rt id q i index fresh = elim (Bool-cases (bytes_eq id q)) [
  | inl hit ↦
      let here = ap (bucket_index rt.self) (sym ((bytes_eq_iff id q).0 hit)) ∙ index in
      let gone = find_id-none_iff id (bucket rt i) fresh in
      rw (hit, here) (ap (λ k. find_id k (bucket rt i)) (sym ((bytes_eq_iff id q).0 hit)) ∙ gone)
  | inr other ↦ rw other
]

find-remove_from_bucket :
    (rt : RoutingTable) (id q : NodeId) (i : ℕ)
    → IsTable rt
    → IsNodeId id
    → bucket_index rt.self id ≡ pos i
    → find_at (remove_from_bucket rt i id) q (bucket_index (remove_from_bucket rt i id).self q)
      ≡ (if bytes_eq id q then none else find_at rt q (bucket_index rt.self q))
find-remove_from_bucket rt id q i v h index =
    let lt : i < length rt.buckets =
      omega (arith, index-lt rt.self id i v.self_id h index, v.count) in
    elim (remove_from_bucket-cases rt i id) [
      | inl (known, e) ↦ rw e (
          find_at-set_bucket rt q id i (erase_id id (bucket rt i)) none lt index
            (find_id-erase_id q id (bucket rt i) (v.each i).distinct))
      | inr (fresh, e) ↦ rw e (absent_view rt id q i index fresh)
    ]

-- After `Remove` of an identifier of 32 bytes from a valid table the identifier gives nothing, and
-- every other one what it gave before.
pub find-remove :
    (rt : RoutingTable) (id q : NodeId)
    → IsTable rt
    → IsNodeId id
    → find (remove rt id) q ≡ (if bytes_eq id q then none else find rt q)
unfolding find find_at
find-remove rt id q v h = elim (remove-cases rt id) [
  | inl (no_bucket, e) ↦
      let same = (bucket_index-negsuc_iff rt.self id v.self_id h).0 no_bucket in
      rw e (elim (Bool-cases (bytes_eq id q)) [
        | inl hit ↦
            rw (
              hit,
              ap (bucket_index rt.self) (sym ((bytes_eq_iff id q).0 hit)) ∙ no_bucket,
              find_at,
            )
        | inr other ↦ rw other
      ])
  | inr (i, index, e) ↦ rw e (find-remove_from_bucket rt id q i v h index)
]
