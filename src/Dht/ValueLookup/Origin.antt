-- ===== src/Dht/ValueLookup/Origin.antt =====
-- Where the result of `LookupValue` of dht/lookup.go comes from.
use mesh_net.Base.{
  ℕ, ◌≡◌, refl, ◌∙◌, Option, none, some, List, ◌∷◌, ◌++◌, Bytes, All, arith, inl, inr, ◌⊎◌,
}
use mesh_net.Outcome.{Outcome, ok, err, panics}
use mesh_net.Dht.NodeId.{NodeId}
use mesh_net.Dht.Contact.{Contact}
use mesh_net.Dht.Store.{Record}
use mesh_net.Dht.Env.{Env, Network}
use mesh_net.Dht.Client.{FindValueResult, found, closer, nothing}
use mesh_net.Dht.Node.{Dht, local_value}
use mesh_net.Dht.ValueLookup.{
  ValueLookup, Worker, asking, finished, choosing, waiting, returned, IsFinished, begin_lookup,
  offered, settle, Answered, Step, Run, exhausted, launch, mark, answer, receive, proceed, time_out,
  here, next,
}

offered-cases :
    (held : Option Record) (r q : Record) → offered held r ≡ some q → (held ≡ some q) ⊎ (r ≡ q)
offered-cases none r q e = inr cc
offered-cases (some h) r q e = inl e

module _ (env : Env) (Occurs : Network → Type 0) (self : NodeId) (name group_key : Bytes) where
  -- Some contact answers with the record.
  abbrev pub IsAnswered : Record → Type 0
  IsAnswered r = (c : Contact) × Answered env Occurs self name group_key c (ok (found r))

  -- A record on the channel or in the result was found in the local store or was answered.
  record IsSourced (now : ℕ) (d : Dht) (s : ValueLookup) : Type 0 where
    sent : (r : Record) → s.channel ≡ some r → IsAnswered r
    result :
        (r : Record)
        → s.phase ≡ returned (ok (some r))
        → (local_value now d.store name group_key ≡ some r) ⊎ IsAnswered r

  settle-IsSourced :
      (now : ℕ) (d : Dht) (s : ValueLookup) (c : Contact) (o : Outcome FindValueResult)
      → Answered env Occurs self name group_key c o
      → IsSourced now d s
      → IsSourced now d (settle env s c o)
  unfolding settle
  settle-IsSourced now d s c (err e) a v = record { sent = v.sent; result = v.result }
  settle-IsSourced now d s c (ok (found r)) a v = record {
    sent = λ q e. elim (offered-cases s.channel r q e) [
      | inl old ↦ v.sent q old
      | inr new ↦ (c, rw⁻¹ new a)
    ];
    result = v.result;
  }
  settle-IsSourced now d s c (ok (closer none)) a v = v
  settle-IsSourced now d s c (ok (closer (some infos))) a v = record {
    sent = v.sent;
    result = v.result;
  }
  settle-IsSourced now d s c (ok nothing) a v = v
  settle-IsSourced now d s c panics a v = v

  Step-IsSourced :
      (now : ℕ) (d : Dht) {s t : ValueLookup}
      → Step env Occurs self name group_key s t
      → IsSourced now d s
      → IsSourced now d t
  Step-IsSourced now d (exhausted p b e) v = rw e (record { sent = v.sent; result = λ r f. cc })
  Step-IsSourced now d (launch c cs p b e) v =
      rw e (record { sent = λ r f. cc; result = λ r f. cc })
  Step-IsSourced now d (mark before after c w e) v =
      rw e (record { sent = v.sent; result = v.result })
  Step-IsSourced now d {s} (answer before after c o w a e) v =
      let settled = settle-IsSourced now d s c o a v in
      rw e (record { sent = settled.sent; result = settled.result })
  Step-IsSourced now d (receive r p h e) v =
      rw e (record { sent = λ q f. cc; result = λ q f. inr (v.sent q (h ∙ cc)) })
  Step-IsSourced now d (proceed p f e) v = rw e (record { sent = v.sent; result = λ r g. cc })
  Step-IsSourced now d (time_out p e) v = rw e (record { sent = v.sent; result = λ r f. cc })

  begin_lookup-local :
      (now : ℕ) (d : Dht) (r : Record)
      → (begin_lookup env now d name group_key).phase ≡ returned (ok (some r))
      → local_value now d.store name group_key ≡ some r
  unfolding begin_lookup
  begin_lookup-local now d r e = ground (arith, e)

  Run-IsSourced :
      (now : ℕ) (d : Dht) {s t : ValueLookup} {n : ℕ}
      → Run env Occurs self name group_key s n t
      → IsSourced now d s
      → IsSourced now d t
  Run-IsSourced now d here v = v
  Run-IsSourced now d (next r st e) v = Step-IsSourced now d st (Run-IsSourced now d r v)

  begin_lookup-IsSourced :
      (now : ℕ) (d : Dht) → IsSourced now d (begin_lookup env now d name group_key)
  unfolding begin_lookup
  begin_lookup-IsSourced now d = record {
    sent = λ r e. cc;
    result = λ r e. inl (begin_lookup-local now d r e);
  }

  -- Whatever record `LookupValue` returns, however its goroutines interleave, it comes from the
  -- local store, under the name and for the group key that were asked for, or some contact answered
  -- with it.
  pub lookup_value-sourced :
      (now : ℕ) (d : Dht) (n : ℕ) (t : ValueLookup) (r : Record)
      → Run env Occurs self name group_key (begin_lookup env now d name group_key) n t
      → t.phase ≡ returned (ok (some r))
      → (local_value now d.store name group_key ≡ some r) ⊎ IsAnswered r
  lookup_value-sourced now d n t r run e =
      (Run-IsSourced now d run (begin_lookup-IsSourced now d)).result r e

  -- Any record that a contact answers with can be what `LookupValue` returns, whatever its name,
  -- its group key and its signature, and can as well be dropped: where the goroutine of a contact
  -- has asked, every other one of its round has ended, and nothing is on the channel, two steps
  -- lead from its answer to the return of that record, and two others back to the head of the loop,
  -- with the record left on the channel of the round that is over.
  pub answer_returned_or_dropped :
      (s : ValueLookup) (before after : List Worker) (c : Contact) (r : Record)
      → s.phase ≡ waiting
      → s.channel ≡ none
      → s.workers ≡ before ++ asking c ∷ after
      → All IsFinished (before ++ finished ∷ after)
      → Answered env Occurs self name group_key c (ok (found r))
      → ((t : ValueLookup) × Run env Occurs self name group_key s 2 t
          × (t.phase ≡ returned (ok (some r))))
        × ((t : ValueLookup) × Run env Occurs self name group_key s 2 t
            × (t.phase ≡ choosing)
            × (t.channel ≡ some r))
  unfolding settle
  answer_returned_or_dropped s before after c r p h w done a = (
    (
      _,
      next (next here (answer before after c (ok (found r)) w a refl) refl)
          (receive r p (rw h refl) refl) refl,
      refl,
    ),
    (
      _,
      next (next here (answer before after c (ok (found r)) w a refl) refl) (proceed p done refl)
          refl,
      refl,
      rw h refl,
    ),
  )
