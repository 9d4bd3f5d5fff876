-- ===== src/Dht/Lookup/Batch.antt =====
-- `nextBatch`, `markContacted` and `closest` of dht/lookup.go.
use mesh_net.Base.{
  ℕ, suc, ◌+◌, ◌-◌, ◌≡◌, refl, ap, sym, ◌∙◌, true, false, ◌||◌, if◌then◌else◌, leb, List, [], ◌∷◌,
  ◌++◌, length, take, length-take, All-take, ◌≤◌, length-append, append-nil, append_assoc, bytes_eq,
  bytes_eq_iff, lookup-insert, arith, All, Bool-cases, inl, inr,
}
use mesh_net.Dht.NodeId.{NodeId}
use mesh_net.Dht.Contact.{Contact, has_id}
use mesh_net.Dht.Lookup.{
  LookupState, alpha, is_contacted, next_batch, next_batch_from, mark_contacted,
}

-- The candidates that were not contacted.
pub open_candidates : LookupState → List Contact → List Contact
open_candidates ls [] = []
open_candidates ls (c ∷ cs) =
    let rest = open_candidates ls cs in if is_contacted ls c.id then rest else c ∷ rest

next_batch_from-take :
    (ls : LookupState) (cs batch : List Contact) (n : ℕ)
    → length batch + suc n ≡ alpha
    → next_batch_from ls cs batch ≡ batch ++ take (suc n) (open_candidates ls cs)
unfolding next_batch_from open_candidates
next_batch_from-take ls [] batch n h = sym (append-nil batch)
next_batch_from-take ls (c ∷ cs) batch n h = elim (Bool-cases (is_contacted ls c.id)) [
  | inl asked ↦ rw asked (next_batch_from-take ls cs batch n h)
  | inr new ↦ elim (Bool-cases (leb alpha (length (batch ++ c ∷ [])))) [
    | inl full ↦
        let last : n ≡ 0 = ground (arith, length-append batch (c ∷ [])) in
        rw (new, full) (ap (λ k. batch ++ c ∷ take k (open_candidates ls cs)) (sym last))
    | inr room ↦
        let more : n ≡ suc (n - 1) = ground (arith, length-append batch (c ∷ [])) in
        rw (new, room)
          (next_batch_from-take ls cs (batch ++ c ∷ []) (n - 1)
              (omega (arith, length-append batch (c ∷ [])))
            ∙ append_assoc batch (c ∷ []) (take (suc (n - 1)) (open_candidates ls cs))
            ∙ ap (λ k. batch ++ c ∷ take k (open_candidates ls cs)) (sym more))
  ]
]

-- `nextBatch` returns the first candidates, `alpha` at most, that were not contacted, in order.
pub next_batch-take :
    (ls : LookupState) → next_batch ls ≡ take alpha (open_candidates ls ls.candidates)
unfolding next_batch
next_batch-take ls = next_batch_from-take ls ls.candidates [] 2 refl

open_candidates-All {κ} :
    (P : Contact → Type κ) (ls : LookupState) (cs : List Contact)
    → All P cs
    → All P (open_candidates ls cs)
unfolding open_candidates
open_candidates-All P ls [] h = h
open_candidates-All P ls (c ∷ cs) h = elim (Bool-cases (is_contacted ls c.id)) [
  | inl asked ↦ rw asked (open_candidates-All P ls cs h.1)
  | inr new ↦ rw new (h.0, open_candidates-All P ls cs h.1)
]

-- A batch consists of candidates, and of `alpha` at most.
pub next_batch-All {κ} :
    (P : Contact → Type κ) (ls : LookupState) → All P ls.candidates → All P (next_batch ls)
next_batch-All P ls h =
    rw (next_batch-take ls) (
      All-take P alpha (open_candidates ls ls.candidates)
        (open_candidates-All P ls ls.candidates h))

pub length-next_batch-le : (ls : LookupState) → length (next_batch ls) ≤ alpha
length-next_batch-le ls =
    omega
      (arith, ap length (next_batch-take ls), length-take alpha (open_candidates ls ls.candidates))

take-nil : (n : ℕ) (cs : List Contact) → take (suc n) cs ≡ [] → cs ≡ []
take-nil n [] h = refl
take-nil n (c ∷ cs) h = cc

take-head :
    (n : ℕ) (cs : List Contact) (c : Contact) (rest : List Contact)
    → take (suc n) cs ≡ c ∷ rest
    → (tail : List Contact) × (cs ≡ c ∷ tail)
take-head n [] c rest h = cc
take-head n (d ∷ cs) c rest h = (cs, cc)

open_candidates-nil :
    (ls : LookupState) (cs : List Contact)
    → open_candidates ls cs ≡ []
    → All (λ c. is_contacted ls c.id ≡ true) cs
unfolding open_candidates
open_candidates-nil ls [] h = tt
open_candidates-nil ls (c ∷ cs) h = elim (Bool-cases (is_contacted ls c.id)) [
  | inl asked ↦ (asked, open_candidates-nil ls cs (ground arith))
  | inr new ↦ absurd (ground arith)
]

-- A lookup runs out of batches only once every candidate was contacted.
pub next_batch-nil :
    (ls : LookupState) → next_batch ls ≡ [] → All (λ c. is_contacted ls c.id ≡ true) ls.candidates
next_batch-nil ls h =
    open_candidates-nil ls ls.candidates
      (take-nil 2 (open_candidates ls ls.candidates) (sym (next_batch-take ls) ∙ h))

open_candidates-head :
    (ls : LookupState) (cs : List Contact) (c : Contact) (rest : List Contact)
    → open_candidates ls cs ≡ c ∷ rest
    → (is_contacted ls c.id ≡ false) × (has_id c.id cs ≡ true)
unfolding open_candidates has_id
open_candidates-head ls [] c rest h = cc
open_candidates-head ls (d ∷ cs) c rest h =
    ground (arith, open_candidates-head ls cs c rest, bytes_eq_iff d.id c.id)

-- The first contact of a batch is a candidate that was not contacted.
pub next_batch-head :
    (ls : LookupState) (c : Contact) (rest : List Contact)
    → next_batch ls ≡ c ∷ rest
    → (is_contacted ls c.id ≡ false) × (has_id c.id ls.candidates ≡ true)
next_batch-head ls c rest h =
    let (tail, e) =
      take-head 2 (open_candidates ls ls.candidates) c rest (sym (next_batch-take ls) ∙ h) in
    open_candidates-head ls ls.candidates c tail e

pub is_contacted-mark_contacted :
    (ls : LookupState) (id q : NodeId)
    → is_contacted (mark_contacted ls id) q ≡ (bytes_eq id q || is_contacted ls q)
unfolding is_contacted mark_contacted
is_contacted-mark_contacted ls id q = ground (arith, lookup-insert id q true ls.contacted)
