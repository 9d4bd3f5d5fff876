-- ===== src/Dht/Lookup.antt =====
-- The iterative lookup of dht/lookup.go: its state, and the operations of `lookupState`. Each of
-- them holds the state's lock throughout, so it is one step.
pub mod Adding
pub mod Batch
use mesh_net.Base.{
  ℕ, zero, suc, ◌+◌, ◌≡◌, Bool, true, false, not, ltb, leb, if◌then◌else◌, Option, none, some, List,
  [], ◌∷◌, ◌++◌, length, take, Bytes, bytes_eq, lookup, insert,
}
use mesh_net.Sort.Bubble.{sort_in_place}
use mesh_net.Dht.NodeId.{NodeId}
use mesh_net.Dht.Contact.{Contact, closer, has_id}

-- `const alpha = 3`
abbrev pub alpha : ℕ
alpha = 3

pub record LookupState : Type 0 where
  pub target : NodeId
  pub self : NodeId
  pub contacted : List (Bytes × Bool)
  pub candidates : List Contact

unfoldable pub new_lookup_state : NodeId → NodeId → List Contact → LookupState
new_lookup_state self target seeds = record {
  target = target;
  self = self;
  contacted = [];
  candidates = [] ++ seeds;
}

-- `ls.contacted[id]`, which is false for a missing key.
unfoldable pub is_contacted : LookupState → NodeId → Bool
is_contacted ls id = elim (lookup id ls.contacted) [ none ↦ false | some b ↦ b ]

-- The body of the first loop of `addCandidates`.
unfoldable pub offer : LookupState → Contact → LookupState
offer ls c =
    if bytes_eq c.id ls.self
    then ls
    else if is_contacted ls c.id
    then ls
    else if not (has_id c.id ls.candidates)
    then record ls { candidates = ls.candidates ++ c ∷ [] }
    else ls

unfoldable pub offer_all : LookupState → List Contact → LookupState
offer_all ls [] = ls
offer_all ls (c ∷ cs) = offer_all (offer ls c) cs

unfoldable pub sort_candidates : LookupState → LookupState
sort_candidates ls = record ls { candidates = sort_in_place (closer ls.target) ls.candidates }

unfoldable pub add_candidates : LookupState → List Contact → LookupState
add_candidates ls contacts = sort_candidates (offer_all ls contacts)

-- The loop of `nextBatch` from a candidate on, with the batch so far.
unfoldable pub next_batch_from : LookupState → List Contact → List Contact → List Contact
next_batch_from ls [] batch = batch
next_batch_from ls (c ∷ cs) batch =
    let taken = next_batch_from ls cs (batch ++ c ∷ []) in
    let skipped = next_batch_from ls cs batch in
    if not (is_contacted ls c.id)
    then if leb alpha (length (batch ++ c ∷ [])) then batch ++ c ∷ [] else taken
    else skipped

unfoldable pub next_batch : LookupState → List Contact
next_batch ls = next_batch_from ls ls.candidates []

unfoldable pub mark_contacted : LookupState → NodeId → LookupState
mark_contacted ls id = record ls { contacted = insert id true ls.contacted }

unfoldable pub nearest : LookupState → ℕ → List Contact
nearest ls k =
    let n = if ltb (length ls.candidates) k then length ls.candidates else k in take n ls.candidates
