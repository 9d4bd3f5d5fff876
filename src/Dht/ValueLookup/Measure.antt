-- ===== src/Dht/ValueLookup/Measure.antt =====
-- The steps of `LookupValue` of dht/lookup.go come to an end.
use mesh_net.Base.{
  ℕ, ◌+◌, ◌*◌, ◌≤◌, ◌<◌, ◌≡◌, refl, ap, Option, inl, inr, ◌⊎◌, List, [], length, Bytes, arith,
}
use mesh_net.Outcome.{Outcome}
use mesh_net.Crypto.{IsCrypto}
use mesh_net.Dht.Store.{Record}
use mesh_net.Dht.Node.{Dht}
use mesh_net.Dht.Table.{all_contacts}
use mesh_net.Dht.Table.Valid.{IsTable}
use mesh_net.Dht.Walk.Round.{AreAmong}
use mesh_net.Dht.Walk.Ends.{open_count-le-length, list_cases}
use mesh_net.Dht.NodeId.{NodeId}
use mesh_net.Dht.Env.{Env, Network}
use mesh_net.Dht.Lookup.{next_batch}
use mesh_net.Dht.Lookup.Batch.{length-next_batch-le}
use mesh_net.Dht.Walk.{mark_all}
use mesh_net.Dht.ValueLookup.{
  ValueLookup, starting, asking, Phase, choosing, waiting, returned, begin_lookup, settle, Step,
  Run, exhausted, launch, mark, answer, receive, proceed, time_out, here, next,
}
use mesh_net.Dht.ValueLookup.Valid.{
  IsValid, begin_lookup-IsValid, AnswersAmong, settle-frame, Step-IsValid,
}
use mesh_net.Dht.ValueLookup.Pending.{
  pending, work, open_work, work-starting, work-replace, open_work-mark, open_work-answer,
  open_work-launch,
}

unfoldable phase_work : Phase → ℕ
phase_work choosing = 1
phase_work waiting = 2
phase_work (returned o) = 0

-- A number that each step lowers. A launch needs one identifier, and adds three goroutines at most.
unfoldable measure : List NodeId → ValueLookup → ℕ
measure us s = 10 * open_work us s.lookup s.workers + work s.workers + phase_work s.phase

phase_cases :
    (p : Phase)
    → (p ≡ choosing) ⊎ (p ≡ waiting) ⊎ ((o : Outcome (Option Record)) × (p ≡ returned o))
phase_cases choosing = inl refl
phase_cases waiting = inr (inl refl)
phase_cases (returned o) = inr (inr (o, refl))

phase_work-begin :
    (env : Env) (now : ℕ) (d : Dht) (name group_key : Bytes)
    → phase_work (begin_lookup env now d name group_key).phase ≤ 1
unfolding phase_work begin_lookup
phase_work-begin env now d name group_key = ground arith

module _ (env : Env) (Occurs : Network → Type 0) (self : NodeId) (name group_key : Bytes)
    (us : List NodeId) where
  -- Each step of a lookup lowers its measure.
  measure-Step :
      {s t : ValueLookup}
      → Step env Occurs self name group_key s t
      → IsValid us s
      → measure us t < measure us s
  unfolding measure phase_work work
  measure-Step {s} (exhausted p b e) v = rw (e, p) (omega arith)
  measure-Step {s} (launch c cs p b e) v =
      rw (e, p)
        (omega (
          arith,
          open_work-launch us s c cs v p b,
          work-starting cs,
          length-next_batch-le s.lookup,
          ap length b,
        ))
  measure-Step {s} (mark before after c w e) v =
      rw (e, w)
        (omega (
          arith,
          open_work-mark us s.lookup before after c,
          work-replace before after (starting c),
          work-replace before after (asking c),
        ))
  measure-Step {s} (answer before after c result w a e) v =
      let (same_phase, same) = settle-frame env Occurs self name group_key us s c result in
      rw e (
        omega (
          arith,
          ap work w,
          ap (open_work us s.lookup) w,
          ap phase_work same_phase,
          open_work-answer us (settle env s c result).lookup s.lookup before after c same,
          work-replace before after (asking c),
        ))
  measure-Step {s} (receive r p h e) v = rw (e, p) (omega arith)
  measure-Step {s} (proceed p f e) v = rw (e, p) (omega arith)
  measure-Step {s} (time_out p e) v = rw (e, p) (omega arith)

  Run-IsValid :
      {s t : ValueLookup} {n : ℕ}
      → AnswersAmong env Occurs self name group_key us
      → Run env Occurs self name group_key s n t
      → IsValid us s
      → IsValid us t
  Run-IsValid all here v = v
  Run-IsValid all (next r st e) v =
      Step-IsValid env Occurs self name group_key us all st (Run-IsValid all r v)

  Run-measure-le :
      {s t : ValueLookup} {n : ℕ}
      → AnswersAmong env Occurs self name group_key us
      → Run env Occurs self name group_key s n t
      → IsValid us s
      → n + measure us t ≤ measure us s
  Run-measure-le all here v = omega arith
  Run-measure-le all (next r st e) v =
      omega (arith, e, Run-measure-le all r v, measure-Step st (Run-IsValid all r v))

-- The loop has returned, or some step is possible.
abbrev pub Progress : Env → (Network → Type 0) → NodeId → Bytes → Bytes → ValueLookup → Type 0
Progress env Occurs self name group_key s =
    ((o : Outcome (Option Record)) × (s.phase ≡ returned o))
    ⊎ ((t : ValueLookup) × Step env Occurs self name group_key s t)

module _ (env : Env) (Occurs : Network → Type 0) (self : NodeId) (name group_key : Bytes) where
  progress : (s : ValueLookup) → Progress env Occurs self name group_key s
  progress s = elim (phase_cases s.phase) [
    | inl p ↦ elim (list_cases (next_batch s.lookup)) [
      | inl b ↦ inr (_, exhausted p b refl)
      | inr (c, cs, b) ↦ inr (_, launch c cs p b refl)
    ]
    | inr (inl p) ↦ inr (_, time_out p refl)
    | inr (inr done) ↦ inl done
  ]

measure-begin :
    (us : List NodeId) (env : Env) (now : ℕ) (d : Dht) (name group_key : Bytes)
    → measure us (begin_lookup env now d name group_key) ≤ 10 * length us + 1
unfolding measure begin_lookup open_work pending work
measure-begin us env now d name group_key = omega (
  arith,
  open_count-le-length us (mark_all (begin_lookup env now d name group_key).lookup []),
  phase_work-begin env now d name group_key,
)

-- `LookupValue` ends, for a valid table, where the identifiers of the table and of all answers lie
-- in a finite set: however its goroutines interleave and whatever the contacts answer, a run has
-- ten steps for each identifier of the set and one more at most, and as long as the loop has not
-- returned a further step is possible.
pub lookup_value-Ends :
    (us : List NodeId) (env : Env) (Occurs : Network → Type 0) (now : ℕ) (d : Dht)
    (name group_key : Bytes) (n : ℕ) (t : ValueLookup)
    → IsCrypto env.crypto
    → IsTable d.table
    → AreAmong us (all_contacts d.table)
    → AnswersAmong env Occurs d.table.self name group_key us
    → Run env Occurs d.table.self name group_key (begin_lookup env now d name group_key) n t
    → (n ≤ 10 * length us + 1) × Progress env Occurs d.table.self name group_key t
lookup_value-Ends us env Occurs now d name group_key n t laws v among all r = (
  omega (
    arith,
    measure-begin us env now d name group_key,
    Run-measure-le env Occurs d.table.self name group_key us all r
        (begin_lookup-IsValid us env now d name group_key laws v among),
  ),
  progress env Occurs d.table.self name group_key t,
)
