-- ===== src/Dht/Table/Buckets.antt =====
-- What the loops of `Add` and `Remove` in dht/routing.go do to one bucket.
use mesh_net.Base.{
  ℕ, suc, ◌+◌, ◌≡◌, refl, ap, ◌≤◌, ◌<◌, ◌≢◌, ltb, true, false, not, ◌&&◌, ◌||◌, if◌then◌else◌, none,
  some, List, [], ◌∷◌, ◌++◌, length, All, bytes_eq, bytes_eq_iff, arith, Bool-cases, inl, inr, ◌⊎◌,
}
use mesh_net.Dht.NodeId.{NodeId, pos, negsuc, bucket_index}
use mesh_net.Dht.NodeId.Buckets.{bucket_index-cases}
use mesh_net.Dht.Contact.{Contact, has_id, find_id, HasDistinctIds}
use mesh_net.Dht.Table.{
  RoutingTable, index_of, splice, bucket, set_bucket, bucket_size, add_to_bucket, add,
  remove_from_bucket, remove,
}

-- The bucket without the first contact of the identifier.
pub erase_id : NodeId → List Contact → List Contact
erase_id id [] = []
erase_id id (c ∷ cs) = if bytes_eq c.id id then cs else c ∷ erase_id id cs

-- The loop stops exactly if the identifier is there, and then the splice takes its contact out.
pub index_of-cases :
    (id : NodeId) (b : List Contact)
    → ((index_of id b ≡ none) × (has_id id b ≡ false))
      ⊎ ((i : ℕ) × (index_of id b ≡ some i) × (has_id id b ≡ true) × (splice b i ≡ erase_id id b))
unfolding index_of has_id erase_id
index_of-cases id [] = inl (refl, refl)
index_of-cases id (c ∷ cs) = elim (Bool-cases (bytes_eq c.id id)) [
  | inl found ↦ rw found (inr (0, refl, refl, refl))
  | inr other ↦ elim (index_of-cases id cs) [
    | inl (e, h) ↦ rw (other, e, h) (inl (refl, refl))
    | inr (i, e, h, s) ↦ rw (other, e, h) (inr (suc i, refl, refl, ap (◌∷◌ c) s))
  ]
]

pub find_id-none_iff : (id : NodeId) (b : List Contact) → has_id id b ≡ false → find_id id b ≡ none
unfolding has_id find_id
find_id-none_iff id [] h = refl
find_id-none_iff id (c ∷ cs) h = ground (arith, find_id-none_iff id cs)

pub has_id-erase_id :
    (q id : NodeId) (b : List Contact)
    → HasDistinctIds b
    → has_id q (erase_id id b) ≡ (not (bytes_eq id q) && has_id q b)
unfolding has_id erase_id
has_id-erase_id q id [] h = ground arith
has_id-erase_id q id (c ∷ cs) h = ground (
  arith,
  has_id-erase_id q id cs h.1,
  bytes_eq_iff c.id id,
  bytes_eq_iff c.id q,
  bytes_eq_iff id q,
  h.0,
)

pub find_id-erase_id :
    (q id : NodeId) (b : List Contact)
    → HasDistinctIds b
    → find_id q (erase_id id b) ≡ (if bytes_eq id q then none else find_id q b)
unfolding find_id erase_id
find_id-erase_id q id [] h = ground arith
find_id-erase_id q id (c ∷ cs) h = ground (
  arith,
  find_id-erase_id q id cs h.1,
  bytes_eq_iff c.id id,
  bytes_eq_iff c.id q,
  bytes_eq_iff id q,
  h.0,
  find_id-none_iff q cs,
)

pub erase_id-HasDistinctIds :
    (id : NodeId) (b : List Contact) → HasDistinctIds b → HasDistinctIds (erase_id id b)
unfolding erase_id
erase_id-HasDistinctIds id [] h = tt
erase_id-HasDistinctIds id (c ∷ cs) h = elim (Bool-cases (bytes_eq c.id id)) [
  | inl found ↦ rw found h.1
  | inr other ↦
      rw other
        (ground (arith, has_id-erase_id c.id id cs h.1, h.0), erase_id-HasDistinctIds id cs h.1)
]

pub erase_id-All {κ} :
    (P : Contact → Type κ) (id : NodeId) (b : List Contact) → All P b → All P (erase_id id b)
unfolding erase_id
erase_id-All P id [] h = tt
erase_id-All P id (c ∷ cs) h = elim (Bool-cases (bytes_eq c.id id)) [
  | inl found ↦ rw found h.1
  | inr other ↦ rw other (h.0, erase_id-All P id cs h.1)
]

pub length-erase_id :
    (id : NodeId) (b : List Contact) → has_id id b ≡ true → length (erase_id id b) + 1 ≡ length b
unfolding has_id erase_id
length-erase_id id [] h = cc
length-erase_id id (c ∷ cs) h = ground (arith, length-erase_id id cs)

pub has_id-append :
    (q : NodeId) (b d : List Contact) → has_id q (b ++ d) ≡ (has_id q b || has_id q d)
unfolding has_id
has_id-append q [] d = refl
has_id-append q (c ∷ cs) d = ground (arith, has_id-append q cs d)

pub find_id-append_one :
    (q : NodeId) (b : List Contact) (c : Contact)
    → has_id c.id b ≡ false
    → find_id q (b ++ c ∷ []) ≡ (if bytes_eq c.id q then some c else find_id q b)
unfolding find_id has_id
find_id-append_one q [] c h = refl
find_id-append_one q (d ∷ b) c h = ground (
  arith,
  find_id-append_one q b c,
  bytes_eq_iff d.id c.id,
  bytes_eq_iff d.id q,
  bytes_eq_iff c.id q,
)

pub append_one-HasDistinctIds :
    (b : List Contact) (c : Contact)
    → has_id c.id b ≡ false
    → HasDistinctIds b
    → HasDistinctIds (b ++ c ∷ [])
unfolding has_id
append_one-HasDistinctIds [] c h d = ground arith
append_one-HasDistinctIds (x ∷ b) c h d = (
  ground (arith, has_id-append x.id b (c ∷ []), bytes_eq_iff x.id c.id, bytes_eq_iff c.id x.id),
  append_one-HasDistinctIds b c (ground arith) d.1,
)

-- The three ways of `Add` under the lock: the contact moves to the back, it is appended to a bucket
-- with room, or a full bucket stays as it is.
pub add_to_bucket-cases :
    (rt : RoutingTable) (i : ℕ) (c : Contact)
    → ((has_id c.id (bucket rt i) ≡ true)
        × (add_to_bucket rt i c ≡ set_bucket rt i (erase_id c.id (bucket rt i) ++ c ∷ [])))
      ⊎ ((has_id c.id (bucket rt i) ≡ false)
          × (length (bucket rt i) < bucket_size)
          × (add_to_bucket rt i c ≡ set_bucket rt i (bucket rt i ++ c ∷ [])))
      ⊎ ((has_id c.id (bucket rt i) ≡ false)
          × (bucket_size ≤ length (bucket rt i))
          × (add_to_bucket rt i c ≡ rt))
unfolding add_to_bucket
add_to_bucket-cases rt i c = elim (index_of-cases c.id (bucket rt i)) [
  | inl (absent, fresh) ↦ elim (Bool-cases (ltb (length (bucket rt i)) bucket_size)) [
    | inl room ↦ inr (inl (fresh, ground arith, rw (absent, add_to_bucket, room)))
    | inr full ↦ inr (inr (fresh, ground arith, rw (absent, add_to_bucket, full)))
  ]
  | inr (k, found, known, spliced) ↦
      inl (known, rw (found, add_to_bucket) (ap (λ b. set_bucket rt i (b ++ c ∷ [])) spliced))
]

-- The two ways of `Remove` under the lock.
pub remove_from_bucket-cases :
    (rt : RoutingTable) (i : ℕ) (id : NodeId)
    → ((has_id id (bucket rt i) ≡ true)
        × (remove_from_bucket rt i id ≡ set_bucket rt i (erase_id id (bucket rt i))))
      ⊎ ((has_id id (bucket rt i) ≡ false) × (remove_from_bucket rt i id ≡ rt))
unfolding remove_from_bucket
remove_from_bucket-cases rt i id = elim (index_of-cases id (bucket rt i)) [
  | inl (absent, fresh) ↦ inr (fresh, rw (absent, remove_from_bucket))
  | inr (k, found, known, spliced) ↦
      inl (known, rw (found, remove_from_bucket) (ap (set_bucket rt i) spliced))
]

-- `Add` goes to the bucket of the identifier, if it has one.
pub add-cases :
    (rt : RoutingTable) (c : Contact)
    → ((c.id ≡ rt.self) × (add rt c ≡ rt))
      ⊎ ((bucket_index rt.self c.id ≡ negsuc 0) × (add rt c ≡ rt))
      ⊎ ((i : ℕ) × (c.id ≢ rt.self)
          × (bucket_index rt.self c.id ≡ pos i)
          × (add rt c ≡ add_to_bucket rt i c))
unfolding add
add-cases rt c = elim (Bool-cases (bytes_eq c.id rt.self)) [
  | inl own ↦ inl ((bytes_eq_iff c.id rt.self).0 own, rw own)
  | inr other ↦ elim (bucket_index-cases rt.self c.id) [
    | inl e ↦ inr (inl (e, rw (other, e, add)))
    | inr (i, e) ↦
        inr (inr (i, λ s. cc (other, (bytes_eq_iff c.id rt.self).1 s), e, rw (other, e, add)))
  ]
]

pub remove-cases :
    (rt : RoutingTable) (id : NodeId)
    → ((bucket_index rt.self id ≡ negsuc 0) × (remove rt id ≡ rt))
      ⊎ ((i : ℕ) × (bucket_index rt.self id ≡ pos i) × (remove rt id ≡ remove_from_bucket rt i id))
unfolding remove
remove-cases rt id = elim (bucket_index-cases rt.self id) [
  | inl e ↦ inl (e, rw (e, remove))
  | inr (i, e) ↦ inr (i, e, rw (e, remove))
]
