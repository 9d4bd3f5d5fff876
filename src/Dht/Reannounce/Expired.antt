-- ===== src/Dht/Reannounce/Expired.antt =====
-- The re-announcer of dht/announce.go once its record has expired.
use mesh_net.Base.{
  ℕ, ◌+◌, ◌*◌, ◌≤◌, ◌≡◌, ◌≢◌, refl, ◌∙◌, true, none, some, List, arith, inl, inr, ◌⊎◌,
}
use mesh_net.Outcome.{Outcome, ok, err, panics, already_expired, invalid_record}
use mesh_net.Dht.NodeId.{pos}
use mesh_net.Dht.Contact.{Contact}
use mesh_net.Dht.Store.{Record, Store, is_expired, verify, put}
use mesh_net.Dht.Env.{Env, Network}
use mesh_net.Dht.Node.{Dht}
use mesh_net.Dht.Register.{RegisterOptions, create_record}
use mesh_net.Dht.Register.Lifetime.{create_record-ended}
use mesh_net.Dht.Announce.{Announced, announce}
use mesh_net.Dht.Announce.Ends.{outcome_cases, err_apart, panics_apart}
use mesh_net.Dht.Reannounce.{
  Reannouncer, reannounce_interval, start, stop, Step, tick, finish, stops, Steps, here, next,
}

some_eq : {a b : Announced} → some a ≡ some b → a ≡ b
some_eq h = cc

-- The next tick is the first one, or comes after the second interval.
abbrev IsDue : ℕ → Reannouncer → Type 0
IsDue started s =
    ((s.last ≡ none) × (s.due ≡ started + reannounce_interval))
    ⊎ (started + 2 * reannounce_interval ≤ s.due)

due_again :
    (started : ℕ) (s : Reannouncer)
    → IsDue started s
    → started + 2 * reannounce_interval ≤ s.due + reannounce_interval
due_again started s (inl (_, first)) = omega (arith, first)
due_again started s (inr more) = omega (arith, more)

due_second :
    (started : ℕ) (s : Reannouncer)
    → IsDue started s
    → s.last ≢ none
    → started + 2 * reannounce_interval ≤ s.due
due_second started s (inl (unticked, _)) ticked = absurd (ticked unticked)
due_second started s (inr more) ticked = more

result_eq : {o p : Outcome (Unit {0})} → some o ≡ some p → o ≡ p
result_eq h = cc

module _ (env : Env) where
  put_expired :
      (now : ℕ) (s : Store) (r : Record)
      → is_expired now r ≡ true
      → put env.crypto now s r ≡ (s, err already_expired)
  unfolding put
  put_expired now s r old = rw old refl

  announce_expired :
      (net : ℕ → Network) (arrive : ℕ → List (List Contact) → List (List Contact)) (later : Network)
      (fuel now : ℕ) (d : Dht) (r : Record) (a : Announced)
      → is_expired now r ≡ true
      → announce env net arrive later fuel now d r ≡ some a
      → (a.node ≡ d) × (a.result ≢ ok tt)
  unfolding announce
  announce_expired net arrive later fuel now d r a old run =
      elim (outcome_cases (verify env.crypto r)) [
        | inl good ↦
            let same : record { node = d; stored = 0; result = err already_expired } ≡ a =
              some_eq (ground (arith, run, good, put_expired now d.store r old)) in
            (rw⁻¹ same refl, rw⁻¹ same err_apart)
        | inr (inl (e, bad)) ↦
            let same : record { node = d; stored = 0; result = err invalid_record } ≡ a =
              some_eq (ground (arith, run, bad)) in
            (rw⁻¹ same refl, rw⁻¹ same err_apart)
        | inr (inr bad) ↦
            let same : record { node = d; stored = 0; result = panics } ≡ a =
              some_eq (ground (arith, run, bad)) in
            (rw⁻¹ same refl, rw⁻¹ same panics_apart)
      ]

  -- The re-announcer keeps its record, and a first tick moves the next one past the second interval.
  record IsRunning (started : ℕ) (r : Record) (s : Reannouncer) : Type 0 where
    current : s.current ≡ r
    due : IsDue started s

  -- What `Stop` leaves alone.
  stop-frame :
      (s t : Reannouncer)
      → stop s ≡ ok t
      → (t.node ≡ s.node) × (t.current ≡ s.current) × (t.last ≡ s.last) × (t.due ≡ s.due)
  unfolding stop
  stop-frame s t h = ground (arith, h)

  Step-IsRunning :
      (started : ℕ) (r : Record) {s t : Reannouncer}
      → Step env s t
      → IsRunning started r s
      → IsRunning started r t
  Step-IsRunning started r {s} (tick net arrive later fuel now a on forth ready run e) v =
      rw e (record { current = v.current; due = inr (due_again started s v.due) })
  Step-IsRunning started r (finish on off e) v = rw e (record { current = v.current; due = v.due })
  Step-IsRunning started r {s} {t} (stops e) v =
      let (_, current, last, due) = stop-frame s t e in
      record { current = current ∙ v.current; due = rw (last, due) v.due }

  Steps-IsRunning :
      (started : ℕ) (r : Record) {s t : Reannouncer}
      → Steps env s t
      → IsRunning started r s
      → IsRunning started r t
  Steps-IsRunning started r here v = v
  Steps-IsRunning started r (next steps step) v =
      Step-IsRunning started r step (Steps-IsRunning started r steps v)

  -- A re-announcer that was started with a record of `CreateRecord` of the default lifetime
  -- announces it successfully once at most, unless `UpdateRecord` is called: after the first tick
  -- every later one comes after the hour of the record, fails, and leaves the node as it was.
  pub reannounce_fails :
      (made started : ℕ) (opts : RegisterOptions) (r : Record) (d : Dht) (s t : Reannouncer)
      → create_record env.crypto made opts ≡ ok r
      → opts.ttl ≡ pos 0
      → made ≤ started
      → Steps env (start started d r) s
      → s.last ≢ none
      → Step env s t
      → (t.node ≡ s.node) × ((t.last ≡ s.last) ⊎ (t.last ≢ some (ok tt)))
  unfolding start
  reannounce_fails made started opts r d s t created default before steps ticked (stops e) =
      let (node, _, last, _) = stop-frame s t e in (node, inl last)
  reannounce_fails made started opts r d s t created default before steps ticked (finish on off e) =
      rw e (refl, inl refl)
  reannounce_fails made started opts r d s t created default before steps ticked
        (tick net arrive later fuel now a on forth ready run e) =
      let v = Steps-IsRunning started r steps (record { current = refl; due = inl (refl, refl) }) in
      let past : started + 2 * reannounce_interval ≤ now =
        omega (arith, ready, due_second started s v.due ticked) in
      let old : is_expired now r ≡ true =
        create_record-ended env.crypto made 0 now opts r default created
          (omega (arith, past, before)) in
      let (node, failed) =
        announce_expired net arrive later fuel now s.node r a old (rw⁻¹ v.current run) in
      rw e (node, inr (λ h. failed (result_eq h)))
