-- ===== src/Dht/Announce/Ends.antt =====
-- `Announce` of dht/lookup.go as a whole.
use mesh_net.Base.{
  ℕ, ◌<◌, ◌≡◌, ◌≢◌, ◌↔◌, refl, sym, ◌∙◌, true, false, some, List, length, Bytes, arith, Bool-cases,
  inl, inr, ◌⊎◌,
}
use mesh_net.Outcome.{Outcome, Error, ok, err, panics, invalid_record}
use mesh_net.Crypto.{IsCrypto}
use mesh_net.Dht.NodeId.{NodeId, IsNodeId}
use mesh_net.Dht.NodeId.Hex.{copy_32-IsNodeId}
use mesh_net.Dht.Contact.{Contact}
use mesh_net.Dht.Table.{RoutingTable, all_contacts}
use mesh_net.Dht.Table.Valid.{IsTable}
use mesh_net.Dht.Store.{Record, Store, verify, put, record_id}
use mesh_net.Dht.Store.Put.{accepts, put_accepts, accepts-verify, put_rejects}
use mesh_net.Dht.Store.Valid.{put-IsStore}
use mesh_net.Dht.Env.{Env, Network}
use mesh_net.Dht.Node.{Dht}
use mesh_net.Dht.Node.Valid.{IsNode}
use mesh_net.Dht.Walk.{lookup_node}
use mesh_net.Dht.Walk.Round.{AreAmong, Arrives, Answers}
use mesh_net.Dht.Walk.Ends.{IsFound, lookup_node-Ends}
use mesh_net.Dht.Announce.{Announced, count_stored, distribute, announce}

pub record_id-IsNodeId :
    (env : Env) (name : Bytes) → IsCrypto env.crypto → IsNodeId (record_id env.crypto name)
unfolding record_id
record_id-IsNodeId env name laws =
    copy_32-IsNodeId (env.crypto.sum_256 name) (laws.sum_IsNodeId name).1

pub outcome_cases :
    (o : Outcome (Unit {0})) → (o ≡ ok tt) ⊎ (((e : Error) × (o ≡ err e)) ⊎ (o ≡ panics))
outcome_cases (ok tt) = inl refl
outcome_cases (err e) = inr (inl (e, refl))
outcome_cases panics = inr (inr refl)

pub err_apart : {e : Error} → ¬ (◌≡◌ {A = Outcome (Unit {0})} (err e) (ok tt))
err_apart h = cc

pub panics_apart : ¬ (◌≡◌ {A = Outcome (Unit {0})} panics (ok tt))
panics_apart h = cc

found-IsTable :
    (rt : RoutingTable) (target : NodeId) (after : RoutingTable) (found : List Contact)
    → IsTable rt
    → IsFound rt target after found
    → IsTable after
found-IsTable rt target after found v (inl (_, _, e)) = rw e v
found-IsTable rt target after found v (inr ends) = ends.table

-- What `Announce` leaves: a valid node, the store as `Put` leaves it, and success exactly on a
-- record that `Put` accepts.
pub record IsAnnounced (env : Env) (now : ℕ) (d : Dht) (r : Record) (a : Announced) : Type 0 where
  pub node : IsNode env a.node
  pub store : a.node.store ≡ (put env.crypto now d.store r).0
  pub success : (a.result ≡ ok tt) ↔ (accepts env.crypto now d.store r ≡ true)

module _ (env : Env) (net : ℕ → Network) (arrive : ℕ → List (List Contact) → List (List Contact))
    (later : Network) where
  abbrev Runs : ℕ → ℕ → Dht → Record → Type 0
  Runs fuel now d r =
      (a : Announced) × (announce env net arrive later fuel now d r ≡ some a)
      × IsAnnounced env now d r a

  stopped :
      (fuel now : ℕ) (d : Dht) (r : Record) (e : Outcome (Unit {0}))
      → IsNode env d
      → accepts env.crypto now d.store r ≡ false
      → e ≢ ok tt
      → (s : Store) → s ≡ d.store
      → announce env net arrive later fuel now d r
        ≡ some (record { node = record d { store = s }; stored = 0; result = e })
      → Runs fuel now d r
  stopped fuel now d r e v refused bad s same run = (
    record { node = record d { store = s }; stored = 0; result = e },
    run,
    record {
      node = record { table = v.table; store = rw same v.store };
      store = same ∙ sym (put_rejects env.crypto now d.store r refused);
      success = (λ k. absurd (bad k), λ k. absurd (cc (k, refused)));
    },
  )

  announce_refused :
      (fuel now : ℕ) (d : Dht) (r : Record)
      → IsNode env d
      → accepts env.crypto now d.store r ≡ false
      → Runs fuel now d r
  announce_refused fuel now d r v refused =
      let kept = put_rejects env.crypto now d.store r refused in
      elim (outcome_cases (verify env.crypto r)) [
        | inr (inl (e, bad)) ↦
            stopped fuel now d r (err invalid_record) v refused (λ k. absurd (ground arith)) d.store
              refl (unfold announce in ground arith)
        | inr (inr bad) ↦
            stopped fuel now d r panics v refused (λ k. absurd (ground arith)) d.store refl
              (unfold announce in ground arith)
        | inl good ↦ elim (outcome_cases (put env.crypto now d.store r).1) [
          | inl taken ↦ absurd (ground (arith, (put_accepts env.crypto now d.store r).0 taken))
          | inr (inl (e, bad)) ↦
              stopped fuel now d r (err e) v refused (λ k. absurd (ground arith))
                (put env.crypto now d.store r).0 kept (unfold announce in ground arith)
          | inr (inr bad) ↦
              stopped fuel now d r panics v refused (λ k. absurd (ground arith))
                (put env.crypto now d.store r).0 kept (unfold announce in ground arith)
        ]
      ]

  pub announce-distribute :
      (fuel now : ℕ) (d : Dht) (r : Record)
      → verify env.crypto r ≡ ok tt
      → (put env.crypto now d.store r).1 ≡ ok tt
      → announce env net arrive later fuel now d r
        ≡ distribute env net arrive later fuel
            (record d { store = (put env.crypto now d.store r).0 })
            r
  unfolding announce
  announce-distribute fuel now d r good taken = ground arith

  distribute-some :
      (fuel : ℕ) (d : Dht) (r : Record) (after : RoutingTable) (found : List Contact)
      → lookup_node env net arrive fuel d.table (record_id env.crypto r.name) ≡ some (after, found)
      → distribute env net arrive later fuel d r
        ≡ some (record {
          node = record d { table = after };
          stored = count_stored env later r found;
          result = ok tt;
        })
  unfolding distribute
  distribute-some fuel d r after found e = ground arith

  -- `Announce` on a valid node ends, where the identifiers of the table and of all answers to its
  -- lookup lie in a finite set, the fuel exceeds its size, and each answer of a round arrives once.
  -- The node is valid afterwards, its store is that of `Put`, and the result is success exactly if
  -- `Put` accepts the record, however many peers take it.
  pub announce-Ends :
      (universe : List NodeId) (fuel now : ℕ) (d : Dht) (r : Record)
      → IsCrypto env.crypto
      → Arrives arrive
      → Answers env net universe d.table.self (record_id env.crypto r.name)
      → IsNode env d
      → AreAmong universe (all_contacts d.table)
      → length universe < fuel
      → (a : Announced) × (announce env net arrive later fuel now d r ≡ some a)
        × IsAnnounced env now d r a
  announce-Ends universe fuel now d r laws arrives answers v among enough =
      elim (Bool-cases (accepts env.crypto now d.store r)) [
        | inr refused ↦ announce_refused fuel now d r v refused
        | inl taken ↦
            let target = record_id env.crypto r.name in
            let s = (put env.crypto now d.store r).0 in
            let (after, found, run, is_found) =
              lookup_node-Ends env net arrive universe fuel d.table target arrives answers v.table
                (record_id-IsNodeId env r.name laws) among enough in
            (
              record {
                node = record d { store = s; table = after };
                stored = count_stored env later r found;
                result = ok tt;
              },
              announce-distribute fuel now d r (accepts-verify env.crypto now d.store r taken)
                    ((put_accepts env.crypto now d.store r).1 taken)
                  ∙ distribute-some fuel (record d { store = s }) r after found run,
              record {
                node = record {
                  table = found-IsTable d.table target after found v.table is_found;
                  store = put-IsStore env.crypto now d.store r v.store;
                };
                store = refl;
                success = (λ k. taken, λ k. refl);
              },
            )
      ]
