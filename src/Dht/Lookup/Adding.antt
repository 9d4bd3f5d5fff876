-- ===== src/Dht/Lookup/Adding.antt =====
-- `addCandidates` of dht/lookup.go: what it adds, and the invariant of the lookup's state.
use mathlib.Core.List.Perm
use mesh_net.Base.{
  ◌≡◌, ◌≢◌, refl, ◌∙◌, true, false, not, ◌&&◌, ◌||◌, List, [], ◌∷◌, ◌++◌, Bytes, bytes_eq,
  bytes_eq_iff, arith, All, IsByte, All-append, Bool-cases, inl, inr, ◌⊎◌,
}
use mathlib.Core.HLevel.{×_prop}
use native.Mathlib.Nat.{ℕ_set}
use native.Mathlib.Bridge.{le_prop}
use mesh_net.Sort.{IsSorted}
use mesh_net.Sort.Bubble.{sort_in_place_sorts}
use mesh_net.Dht.NodeId.{NodeId, IsNodeId}
use mesh_net.Dht.Contact.{Contact, HasNodeId, HasDistinctIds, distance_to, closer, has_id}
use mesh_net.Dht.Contact.Rearranged.{has_id-perm, HasDistinctIds-perm, All-perm}
use mesh_net.Dht.Table.Buckets.{has_id-append, append_one-HasDistinctIds}
use mesh_net.Dht.Table.Closest.{closer-Compares}
use mesh_net.Dht.Lookup.{
  LookupState, is_contacted, offer, offer_all, sort_candidates, add_candidates,
}

-- The candidates are sorted by distance, with distinct identifiers, none of them the node's own.
pub record IsLookup (ls : LookupState) : Type 0 where
  pub target_id : IsNodeId ls.target
  pub ids : All HasNodeId ls.candidates
  pub distinct : HasDistinctIds ls.candidates
  pub foreign : has_id ls.self ls.candidates ≡ false
  pub sorted : IsSorted (distance_to ls.target) ls.candidates

-- The same without the order, which the first loop of `addCandidates` breaks for a while.
record IsUnsorted (ls : LookupState) : Type 0 where
  target_id : IsNodeId ls.target
  ids : All HasNodeId ls.candidates
  distinct : HasDistinctIds ls.candidates
  foreign : has_id ls.self ls.candidates ≡ false

offer-cases :
    (ls : LookupState) (c : Contact)
    → (((c.id ≢ ls.self) × (is_contacted ls c.id ≡ false) × (has_id c.id ls.candidates ≡ false))
        × (offer ls c ≡ record ls { candidates = ls.candidates ++ c ∷ [] }))
      ⊎ ((bytes_eq c.id ls.self || is_contacted ls c.id || has_id c.id ls.candidates ≡ true)
          × (offer ls c ≡ ls))
unfolding offer
offer-cases ls c = elim (Bool-cases (bytes_eq c.id ls.self)) [
  | inl own ↦ inr (rw own, rw own)
  | inr other ↦ elim (Bool-cases (is_contacted ls c.id)) [
    | inl asked ↦ inr (rw (other, asked), rw (other, asked))
    | inr new ↦ elim (Bool-cases (has_id c.id ls.candidates)) [
      | inl known ↦ inr (rw (other, new, known), rw (other, new, known))
      | inr fresh ↦
          inl
            ((λ e. cc (other, (bytes_eq_iff c.id ls.self).1 e), new, fresh), rw (other, new, fresh))
    ]
  ]
]

offer-IsUnsorted :
    (ls : LookupState) (c : Contact) → IsUnsorted ls → HasNodeId c → IsUnsorted (offer ls c)
offer-IsUnsorted ls c v h = elim (offer-cases ls c) [
  | inl ((other, new, fresh), e) ↦ rw e (record {
    target_id = v.target_id;
    ids = All-append HasNodeId ls.candidates (c ∷ []) v.ids (h, tt);
    distinct = append_one-HasDistinctIds ls.candidates c fresh v.distinct;
    foreign =
        unfold has_id in
        ground (
          arith,
          has_id-append ls.self ls.candidates (c ∷ []),
          bytes_eq_iff c.id ls.self,
          v.foreign,
        );
  })
  | inr (_, e) ↦ rw e v
]

-- What an offer leaves alone.
offer-frame :
    (ls : LookupState) (c : Contact)
    → ((offer ls c).target ≡ ls.target)
      × ((offer ls c).self ≡ ls.self)
      × ((offer ls c).contacted ≡ ls.contacted)
unfolding offer
offer-frame ls c = ground arith

offer_all-IsUnsorted :
    (ls : LookupState) (cs : List Contact)
    → IsUnsorted ls
    → All HasNodeId cs
    → IsUnsorted (offer_all ls cs)
unfolding offer_all
offer_all-IsUnsorted ls [] v h = v
offer_all-IsUnsorted ls (c ∷ cs) v h =
    offer_all-IsUnsorted (offer ls c) cs (offer-IsUnsorted ls c v h.0) h.1

offer_all-frame :
    (ls : LookupState) (cs : List Contact)
    → ((offer_all ls cs).target ≡ ls.target)
      × ((offer_all ls cs).self ≡ ls.self)
      × ((offer_all ls cs).contacted ≡ ls.contacted)
unfolding offer_all
offer_all-frame ls [] = (refl, refl, refl)
offer_all-frame ls (c ∷ cs) =
    let (t, s, k) = offer_all-frame (offer ls c) cs in
    let (t', s', k') = offer-frame ls c in (t ∙ t', s ∙ s', k ∙ k')

pub is_contacted-eq :
    (ls ms : LookupState) (q : NodeId)
    → ls.contacted ≡ ms.contacted
    → is_contacted ls q ≡ is_contacted ms q
unfolding is_contacted
is_contacted-eq ls ms q e = rw e

has_id-offer :
    (ls : LookupState) (c : Contact) (q : NodeId)
    → has_id q (offer ls c).candidates
      ≡ (has_id q ls.candidates || bytes_eq c.id q && not (bytes_eq q ls.self || is_contacted ls q))
unfolding has_id
has_id-offer ls c q = elim (offer-cases ls c) [
  | inl ((other, new, fresh), e) ↦ rw e (
      ground (
        arith,
        has_id-append q ls.candidates (c ∷ []),
        bytes_eq_iff c.id q,
        bytes_eq_iff q ls.self,
      ))
  | inr (kept, e) ↦ rw e (ground (arith, bytes_eq_iff c.id q))
]

has_id-offer_all :
    (ls : LookupState) (cs : List Contact) (q : NodeId)
    → has_id q (offer_all ls cs).candidates
      ≡ (has_id q ls.candidates || has_id q cs && not (bytes_eq q ls.self || is_contacted ls q))
unfolding offer_all has_id
has_id-offer_all ls [] q = ground arith
has_id-offer_all ls (c ∷ cs) q = ground (
  arith,
  has_id-offer_all (offer ls c) cs q,
  has_id-offer ls c q,
  offer-frame ls c,
  is_contacted-eq (offer ls c) ls q,
)

bytes_prop : (b : Bytes) → IsProp (All IsByte b)
bytes_prop [] = hlevel
bytes_prop (x ∷ b) = hlevel (bytes_prop b, le_prop)

pub IsNodeId-prop : (c : Contact) → IsProp (HasNodeId c)
IsNodeId-prop c = ×_prop (ℕ_set _ _) (bytes_prop c.id)

unsorted : (ls : LookupState) → IsLookup ls → IsUnsorted ls
unsorted ls v = record {
  target_id = v.target_id;
  ids = v.ids;
  distinct = v.distinct;
  foreign = v.foreign;
}

-- Sorting the candidates keeps them, and puts them in order.
sort_candidates-IsLookup : (ls : LookupState) → IsUnsorted ls → IsLookup (sort_candidates ls)
unfolding sort_candidates
sort_candidates-IsLookup ls v =
    let (sorted, perm) =
      sort_in_place_sorts HasNodeId (distance_to ls.target) (closer ls.target)
        (closer-Compares ls.target v.target_id) ls.candidates v.ids in
    let back = Perm.symm perm in
    record {
      target_id = v.target_id;
      ids = All-perm HasNodeId ls.candidates _ IsNodeId-prop back v.ids;
      distinct = HasDistinctIds-perm ls.candidates _ back v.distinct;
      foreign = has_id-perm ls.self _ _ perm ∙ v.foreign;
      sorted = sorted;
    }

-- `addCandidates` keeps the invariant of a lookup, for contacts with identifiers of 32 bytes:
-- whatever order the contacts arrive in, the candidates end up sorted by their distance to the
-- target, with distinct identifiers of 32 bytes, none of them the node's own.
pub add_candidates-IsLookup :
    (ls : LookupState) (contacts : List Contact)
    → IsLookup ls
    → All HasNodeId contacts
    → IsLookup (add_candidates ls contacts)
unfolding add_candidates
add_candidates-IsLookup ls contacts v h =
    sort_candidates-IsLookup (offer_all ls contacts)
      (offer_all-IsUnsorted ls contacts (unsorted ls v) h)

-- For a lookup in its invariant and contacts with identifiers of 32 bytes, the identifiers of the
-- candidates after `addCandidates` are those before and those of the contacts, without the node's
-- own and those that were contacted.
pub has_id-add_candidates :
    (ls : LookupState) (contacts : List Contact) (q : NodeId)
    → IsLookup ls
    → All HasNodeId contacts
    → has_id q (add_candidates ls contacts).candidates ≡ (
        has_id q ls.candidates
        || has_id q contacts && not (bytes_eq q ls.self || is_contacted ls q))
unfolding add_candidates sort_candidates
has_id-add_candidates ls contacts q v h =
    let after = offer_all ls contacts in
    let w = offer_all-IsUnsorted ls contacts (unsorted ls v) h in
    let (_, perm) =
      sort_in_place_sorts HasNodeId (distance_to after.target) (closer after.target)
        (closer-Compares after.target w.target_id) after.candidates w.ids in
    has_id-perm q _ _ perm ∙ has_id-offer_all ls contacts q

pub add_candidates-frame :
    (ls : LookupState) (cs : List Contact)
    → ((add_candidates ls cs).target ≡ ls.target)
      × ((add_candidates ls cs).self ≡ ls.self)
      × ((add_candidates ls cs).contacted ≡ ls.contacted)
unfolding add_candidates sort_candidates
add_candidates-frame ls cs = offer_all-frame ls cs
