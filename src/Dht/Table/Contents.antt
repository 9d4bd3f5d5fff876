-- ===== src/Dht/Table/Contents.antt =====
-- All contacts of a routing table (`All` of dht/peers.go), and their number (`Size` of
-- dht/routing.go).
use mathlib.Core.Path.{subst}
use mesh_net.Base.{
  ℕ, zero, suc, ◌+◌, ◌*◌, ◌≤◌, ◌≡◌, refl, ap, sym, ◌∙◌, true, false, List, [], ◌∷◌, ◌++◌, length,
  get_or, concat, All, All-append, All-imp, bytes_eq, bytes_eq_iff, bytes_eq_refl, arith,
  Bool-cases, inl, inr, length-append,
}
use mesh_net.Dht.NodeId.{NodeId, pos, bucket_index}
use mesh_net.Dht.NodeId.Buckets.{bucket_index-negsuc_iff}
use mesh_net.Dht.Contact.{Contact, HasNodeId, has_id, HasDistinctIds}
use mesh_net.Dht.Table.{RoutingTable, bucket, bucket_size, all_contacts, size, total_from}
use mesh_net.Dht.Table.Buckets.{has_id-append}
use mesh_net.Dht.Table.Valid.{IsTable, IsPlaced}

concat-All {κ} :
    (P : Contact → Type κ) (bs : List (List Contact))
    → ((i : ℕ) → All P (get_or bs i []))
    → All P (concat bs)
concat-All P [] h = tt
concat-All P (b ∷ bs) h = All-append P b (concat bs) (h zero) (concat-All P bs (λ i. h (suc i)))

pub all_contacts-HasNodeId : (rt : RoutingTable) → IsTable rt → All HasNodeId (all_contacts rt)
unfolding all_contacts
all_contacts-HasNodeId rt v =
    concat-All HasNodeId rt.buckets
      (λ i. All-imp (λ c (p : IsPlaced rt.self i c). p.well_formed) (bucket rt i) (v.each i).placed)

-- An identifier of a bucket has the index of that bucket.
has_id-index :
    (self id : NodeId) (i : ℕ) (b : List Contact)
    → All (IsPlaced self i) b
    → has_id id b ≡ true
    → bucket_index self id ≡ pos i
unfolding has_id
has_id-index self id i [] p h = cc
has_id-index self id i (c ∷ b) p h = elim (Bool-cases (bytes_eq c.id id)) [
  | inl hit ↦ ap (bucket_index self) (sym ((bytes_eq_iff c.id id).0 hit)) ∙ p.0.index
  | inr other ↦ has_id-index self id i b p.1 (ground arith)
]

shifted :
    {self : NodeId} (k : ℕ) (b : List Contact) (bs : List (List Contact))
    → ((i : ℕ) → All (IsPlaced self (k + i)) (get_or (b ∷ bs) i []))
    → (i : ℕ) → All (IsPlaced self (k + 1 + i)) (get_or bs i [])
shifted {self} k b bs p i =
    subst (λ n. All (IsPlaced self n) (get_or bs i [])) {x = k + suc i} (omega arith) (p (suc i))

concat-index :
    (self id : NodeId) (k : ℕ) (bs : List (List Contact))
    → ((i : ℕ) → All (IsPlaced self (k + i)) (get_or bs i []))
    → has_id id (concat bs) ≡ true
    → (i : ℕ) × (bucket_index self id ≡ pos (k + i))
concat-index self id k [] p h = absurd (unfold has_id in cc)
concat-index self id k (b ∷ bs) p h = elim (Bool-cases (has_id id b)) [
  | inl here ↦ (0, has_id-index self id (k + 0) b (p 0) here)
  | inr later ↦
      let rest : has_id id (concat bs) ≡ true = ground (arith, has_id-append id b (concat bs)) in
      let (i, e) = concat-index self id (k + 1) bs (shifted k b bs p) rest in
      (i + 1, e ∙ ap pos (omega arith))
]

append-HasDistinctIds :
    (b d : List Contact)
    → HasDistinctIds b
    → HasDistinctIds d
    → ((id : NodeId) → has_id id b ≡ true → has_id id d ≡ false)
    → HasDistinctIds (b ++ d)
append-HasDistinctIds [] d hb hd apart = hd
append-HasDistinctIds (c ∷ b) d hb hd apart = (
  ground (arith, has_id-append c.id b d, hb.0, apart c.id (unfold has_id in rw bytes_eq_refl)),
  append-HasDistinctIds b d hb.1 hd (λ id h. apart id (unfold has_id in ground arith)),
)

concat-HasDistinctIds :
    (self : NodeId) (k : ℕ) (bs : List (List Contact))
    → ((i : ℕ) → All (IsPlaced self (k + i)) (get_or bs i []))
    → ((i : ℕ) → HasDistinctIds (get_or bs i []))
    → HasDistinctIds (concat bs)
concat-HasDistinctIds self k [] p d = tt
concat-HasDistinctIds self k (b ∷ bs) p d =
    append-HasDistinctIds b (concat bs) (d 0)
      (concat-HasDistinctIds self (k + 1) bs (shifted k b bs p) (λ i. d (suc i)))
      (λ id here. elim (Bool-cases (has_id id (concat bs))) [
        | inl there ↦
            let first = has_id-index self id (k + 0) b (p 0) here in
            let (i, later) = concat-index self id (k + 1) bs (shifted k b bs p) there in
            absurd (ground arith)
        | inr apart ↦ apart
      ])

-- `All` on a valid table returns no identifier twice.
pub all_contacts-HasDistinctIds :
    (rt : RoutingTable) → IsTable rt → HasDistinctIds (all_contacts rt)
unfolding all_contacts
all_contacts-HasDistinctIds rt v =
    concat-HasDistinctIds rt.self 0 rt.buckets
      (λ i.
        subst (λ n. All (IsPlaced rt.self n) (bucket rt i)) {x = i} (omega arith) (v.each i).placed)
      (λ i. (v.each i).distinct)

-- No contact of the table has the identifier of the node itself.
pub all_contacts-foreign :
    (rt : RoutingTable) → IsTable rt → has_id rt.self (all_contacts rt) ≡ false
unfolding all_contacts
all_contacts-foreign rt v = elim (Bool-cases (has_id rt.self (concat rt.buckets))) [
  | inl here ↦
      let placed = λ (i : ℕ).
        subst (λ n. All (IsPlaced rt.self n) (bucket rt i)) {x = i} {y = 0 + i} (omega arith)
          (v.each i).placed in
      let (i, e) = concat-index rt.self rt.self 0 rt.buckets placed here in
      let own = (bucket_index-negsuc_iff rt.self rt.self v.self_id v.self_id).1 refl in
      absurd (cc (e, own))
  | inr apart ↦ apart
]

total_from_lem : (t : ℕ) (bs : List (List Contact)) → total_from t bs ≡ t + length (concat bs)
unfolding total_from
total_from_lem t [] = omega arith
total_from_lem t (b ∷ bs) =
    omega (arith, total_from_lem (t + length b) bs, length-append b (concat bs))

concat-bounded :
    (k : ℕ) (bs : List (List Contact))
    → ((i : ℕ) → length (get_or bs i []) ≤ k)
    → length (concat bs) ≤ length bs * k
concat-bounded k [] h = omega arith
concat-bounded k (b ∷ bs) h =
    omega (arith, h 0, concat-bounded k bs (λ i. h (suc i)), length-append b (concat bs))

-- On a valid table `Size` is the number of contacts that `All` returns, and at most 256 times `K`.
pub size-all_contacts :
    (rt : RoutingTable)
    → IsTable rt
    → (size rt ≡ length (all_contacts rt)) × (size rt ≤ 256 * bucket_size)
unfolding size all_contacts
size-all_contacts rt v =
    let count = total_from_lem 0 rt.buckets in
    let bound = concat-bounded bucket_size rt.buckets (λ i. (v.each i).bounded) in
    (omega arith, omega (arith, v.count))
