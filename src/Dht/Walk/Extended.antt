-- ===== src/Dht/Walk/Extended.antt =====
-- Which states of a lookup of dht/lookup.go extend another one.
use mesh_net.Base.{◌≡◌, refl, ◌∙◌, true, List, [], ◌∷◌, arith, All}
use mesh_net.Dht.NodeId.{NodeId}
use mesh_net.Dht.Contact.{Contact, HasNodeId, has_id}
use mesh_net.Dht.Lookup.{LookupState, mark_contacted, add_candidates}
use mesh_net.Dht.Lookup.Adding.{
  IsLookup, add_candidates-IsLookup, has_id-add_candidates, add_candidates-frame,
}
use mesh_net.Dht.Walk.{mark_all}

pub mark_contacted-IsLookup :
    (ls : LookupState) (id : NodeId) → IsLookup ls → IsLookup (mark_contacted ls id)
unfolding mark_contacted
mark_contacted-IsLookup ls id v = record {
  target_id = v.target_id;
  ids = v.ids;
  distinct = v.distinct;
  foreign = v.foreign;
  sorted = v.sorted;
}

-- What a step of a round keeps: the target, the node, and every candidate.
pub record Extends (ls ms : LookupState) : Type 0 where
  pub valid : IsLookup ms
  pub target : ms.target ≡ ls.target
  pub self : ms.self ≡ ls.self
  pub kept : (q : NodeId) → has_id q ls.candidates ≡ true → has_id q ms.candidates ≡ true

pub Extends-refl : (ls : LookupState) → IsLookup ls → Extends ls ls
Extends-refl ls v = record { valid = v; target = refl; self = refl; kept = λ q h. h }

pub Extends-trans : {ls ms ns : LookupState} → Extends ls ms → Extends ms ns → Extends ls ns
Extends-trans a b = record {
  valid = b.valid;
  target = b.target ∙ a.target;
  self = b.self ∙ a.self;
  kept = λ q h. b.kept q (a.kept q h);
}

mark-Extends : (ls : LookupState) (id : NodeId) → IsLookup ls → Extends ls (mark_contacted ls id)
mark-Extends ls id v = record {
  valid = mark_contacted-IsLookup ls id v;
  target = unfold mark_contacted in refl;
  self = unfold mark_contacted in refl;
  kept = λ q h. unfold mark_contacted in h;
}

pub mark_all-Extends :
    (ls : LookupState) (cs : List Contact) → IsLookup ls → Extends ls (mark_all ls cs)
unfolding mark_all
mark_all-Extends ls [] v = Extends-refl ls v
mark_all-Extends ls (c ∷ cs) v =
    let first = mark-Extends ls c.id v in
    Extends-trans first (mark_all-Extends (mark_contacted ls c.id) cs first.valid)

pub mark_all-candidates :
    (ls : LookupState) (cs : List Contact) → (mark_all ls cs).candidates ≡ ls.candidates
unfolding mark_all mark_contacted
mark_all-candidates ls [] = refl
mark_all-candidates ls (c ∷ cs) = mark_all-candidates (mark_contacted ls c.id) cs

pub add_candidates-Extends :
    (ls : LookupState) (cs : List Contact)
    → IsLookup ls
    → All HasNodeId cs
    → Extends ls (add_candidates ls cs)
add_candidates-Extends ls cs v h =
    let (t, s, k) = add_candidates-frame ls cs in
    record {
      valid = add_candidates-IsLookup ls cs v h;
      target = t;
      self = s;
      kept = λ q old. ground (arith, has_id-add_candidates ls cs q v h);
    }
