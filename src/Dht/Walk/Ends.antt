-- ===== src/Dht/Walk/Ends.antt =====
-- `LookupNode` of dht/lookup.go as a whole, from its seeds to its result.
use mesh_net.Base.{
  ℕ, zero, suc, ◌≤◌, ◌<◌, ◌≡◌, refl, ◌∙◌, true, some, List, [], ◌∷◌, length, take, All, arith, inl,
  inr, ◌⊎◌,
}
use mesh_net.Dht.NodeId.{NodeId, IsNodeId}
use mesh_net.Dht.Contact.{Contact}
use mesh_net.Dht.Table.{RoutingTable, all_contacts, closest, bucket_size}
use mesh_net.Dht.Table.Valid.{IsTable}
use mesh_net.Dht.Table.Closest.{take_capped}
use mesh_net.Dht.Lookup.{LookupState, new_lookup_state, is_contacted, next_batch, nearest}
use mesh_net.Dht.Lookup.Adding.{IsLookup}
use mesh_net.Dht.Lookup.Batch.{next_batch-nil, next_batch-head}
use mesh_net.Dht.Env.{Env, Network}
use mesh_net.Dht.Walk.{lookup_round, lookup_loop, lookup_node}
use mesh_net.Dht.Walk.Extended.{Extends, Extends-refl, Extends-trans}
use mesh_net.Dht.Walk.Seeds.{closest-IsLookup, closest-AreAmong}
use mesh_net.Dht.Walk.Open.{open_count}
use mesh_net.Dht.Walk.Round.{AreAmong, Arrives, Answers, lookup_round-Advances}

-- The state in which a lookup ends, and its result: the first `K` candidates, once each candidate
-- was contacted.
pub record Ends (ls : LookupState) (t : RoutingTable) (found : List Contact) : Type 0 where
  pub final : LookupState
  pub extends : Extends ls final
  pub asked : All (λ c. is_contacted final c.id ≡ true) final.candidates
  pub result : found ≡ take bucket_size final.candidates
  pub table : IsTable t

pub nearest-take : (ls : LookupState) (n : ℕ) → nearest ls n ≡ take n ls.candidates
unfolding nearest
nearest-take ls n = take_capped n ls.candidates

Ends-after :
    {ls ms : LookupState} {t : RoutingTable} {found : List Contact}
    → Extends ls ms
    → Ends ms t found
    → Ends ls t found
Ends-after first e = record {
  final = e.final;
  extends = Extends-trans first e.extends;
  asked = e.asked;
  result = e.result;
  table = e.table;
}

pub list_cases :
    (xs : List Contact) → (xs ≡ []) ⊎ ((c : Contact) × (cs : List Contact) × (xs ≡ c ∷ cs))
list_cases [] = inl refl
list_cases (c ∷ cs) = inr (c, cs, refl)

module _ (env : Env) (net : ℕ → Network) (arrive : ℕ → List (List Contact) → List (List Contact))
    (universe : List NodeId) (self : NodeId) where
  lookup_loop-nil :
      (fuel n : ℕ) (ls : LookupState) (t : RoutingTable)
      → next_batch ls ≡ []
      → lookup_loop env net arrive (suc fuel) n self ls t ≡ some (t, nearest ls bucket_size)
  unfolding lookup_loop
  lookup_loop-nil fuel n ls t e = ground (arith, e)

  lookup_loop-cons :
      (fuel n : ℕ) (ls : LookupState) (t : RoutingTable) (c : Contact) (cs : List Contact)
      → next_batch ls ≡ c ∷ cs
      → lookup_loop env net arrive (suc fuel) n self ls t
        ≡ lookup_loop env net arrive fuel
            (suc n)
            self
            (lookup_round env net arrive n self ls t (c ∷ cs)).0
            (lookup_round env net arrive n self ls t (c ∷ cs)).1
  unfolding lookup_loop
  lookup_loop-cons fuel n ls t c cs e = ground (arith, e)

  -- The loop ends, within as many rounds as there are identifiers that were not contacted.
  pub lookup_loop-Ends :
      (fuel n : ℕ) (ls : LookupState) (t : RoutingTable)
      → Arrives arrive
      → Answers env net universe self ls.target
      → IsLookup ls
      → AreAmong universe ls.candidates
      → IsTable t
      → open_count universe ls < fuel
      → (after : RoutingTable) × (found : List Contact) × (lookup_loop env net arrive fuel n self ls
            t
          ≡ some (after, found))
        × Ends ls after found
  lookup_loop-Ends zero n ls t arrives answers v a vt enough = absurd (omega arith)
  lookup_loop-Ends (suc fuel) n ls t arrives answers v a vt enough =
      elim (list_cases (next_batch ls)) [
        | inl e ↦ (
          t,
          nearest ls bucket_size,
          lookup_loop-nil fuel n ls t e,
          record {
            final = ls;
            extends = Extends-refl ls v;
            asked = next_batch-nil ls e;
            result = nearest-take ls bucket_size;
            table = vt;
          },
        )
        | inr (c, cs, e) ↦
            let adv =
              lookup_round-Advances env net arrive universe n self ls t c cs arrives answers v a vt
                (next_batch-head ls c cs e) in
            let (after, found, run, ends) =
              lookup_loop-Ends fuel (suc n) (lookup_round env net arrive n self ls t (c ∷ cs)).0
                (lookup_round env net arrive n self ls t (c ∷ cs)).1 arrives
                (rw adv.extends.target answers) adv.extends.valid adv.among adv.table
                (omega (arith, adv.fewer)) in
            (after, found, lookup_loop-cons fuel n ls t c cs e ∙ run, Ends-after adv.extends ends)
      ]

pub open_count-le-length : (us : List NodeId) (ls : LookupState) → open_count us ls ≤ length us
unfolding open_count
open_count-le-length [] ls = omega arith
open_count-le-length (u ∷ us) ls = ground (arith, open_count-le-length us ls)

-- What `LookupNode` returns: nothing for an empty table, which it leaves alone, and otherwise the
-- end of the loop that starts with the closest contacts of the table.
abbrev pub IsFound : RoutingTable → NodeId → RoutingTable → List Contact → Type 0
IsFound rt target after found =
    ((closest rt target bucket_size ≡ []) × (found ≡ []) × (after ≡ rt))
    ⊎ Ends (new_lookup_state rt.self target (closest rt target bucket_size)) after found

module _ (env : Env) (net : ℕ → Network)
    (arrive : ℕ → List (List Contact) → List (List Contact)) where
  lookup_node-nil :
      (fuel : ℕ) (rt : RoutingTable) (target : NodeId)
      → closest rt target bucket_size ≡ []
      → lookup_node env net arrive fuel rt target ≡ some (rt, [])
  unfolding lookup_node
  lookup_node-nil fuel rt target e = ground (arith, e)

  lookup_node-cons :
      (fuel : ℕ) (rt : RoutingTable) (target : NodeId) (c : Contact) (cs : List Contact)
      → closest rt target bucket_size ≡ c ∷ cs
      → lookup_node env net arrive fuel rt target
        ≡ lookup_loop env net arrive fuel 0 rt.self
            (new_lookup_state rt.self target (closest rt target bucket_size))
            rt
  unfolding lookup_node
  lookup_node-cons fuel rt target c cs e = ground (arith, e)

  -- `LookupNode` ends and returns a result, for a valid table and a target of 32 bytes, where the
  -- identifiers of the table and of all answers lie in a finite set, the fuel exceeds its size, and
  -- each answer of a round arrives once, in any order. The table stays valid. For a table with no
  -- contact the result is empty and the table unchanged; otherwise the result are the first `K` of
  -- the candidates, which are sorted by their distance to the target, have distinct identifiers of
  -- 32 bytes other than the node's own, hold each closest contact of the table, and were all
  -- contacted.
  pub lookup_node-Ends :
      (universe : List NodeId) (fuel : ℕ) (rt : RoutingTable) (target : NodeId)
      → Arrives arrive
      → Answers env net universe rt.self target
      → IsTable rt
      → IsNodeId target
      → AreAmong universe (all_contacts rt)
      → length universe < fuel
      → (after : RoutingTable) × (found : List Contact) × (lookup_node env net arrive fuel rt target
          ≡ some (after, found))
        × IsFound rt target after found
  unfolding new_lookup_state
  lookup_node-Ends universe fuel rt target arrives answers v h among enough =
      elim (list_cases (closest rt target bucket_size)) [
        | inl e ↦ (rt, [], lookup_node-nil fuel rt target e, inl (e, refl, refl))
        | inr (c, cs, e) ↦
            let seeds = closest rt target bucket_size in
            let start = new_lookup_state rt.self target seeds in
            let (after, found, run, ends) =
              lookup_loop-Ends env net arrive universe rt.self fuel 0 start rt arrives answers
                (closest-IsLookup rt target v h) (closest-AreAmong universe rt target v h among) v
                (omega (arith, open_count-le-length universe start)) in
            (after, found, lookup_node-cons fuel rt target c cs e ∙ run, inr ends)
      ]
