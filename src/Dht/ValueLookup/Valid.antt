-- ===== src/Dht/ValueLookup/Valid.antt =====
-- What the steps of `LookupValue` of dht/lookup.go keep.
use mesh_net.Base.{
  ℕ, ◌≡◌, ◌≢◌, refl, sym, ◌∙◌, none, some, List, [], ◌∷◌, ◌++◌, map, Bytes, All, All-append,
  All-append_left, All-append_right,
}
use mesh_net.Outcome.{Outcome, ok, err, panics}
use mesh_net.Dht.NodeId.{NodeId}
use mesh_net.Dht.Contact.{Contact, HasNodeId}
use mesh_net.Dht.Table.{all_contacts}
use mesh_net.Crypto.{IsCrypto}
use mesh_net.Dht.Table.Valid.{IsTable, remove-IsTable}
use mesh_net.Dht.Store.{record_id}
use mesh_net.Dht.Rpc.{ContactInfo}
use mesh_net.Dht.Env.{Env, Network}
use mesh_net.Dht.Client.{FindValueResult, found, closer, nothing}
use mesh_net.Dht.Lookup.{LookupState, new_lookup_state, mark_contacted}
use mesh_net.Dht.Lookup.Adding.{IsLookup, add_candidates-IsLookup, add_candidates-frame}
use mesh_net.Dht.Lookup.Batch.{next_batch-All}
use mesh_net.Dht.Node.{Dht}
use mesh_net.Dht.Announce.Ends.{record_id-IsNodeId}
use mesh_net.Dht.Walk.{decode_infos}
use mesh_net.Dht.Walk.Extended.{mark_contacted-IsLookup}
use mesh_net.Dht.Walk.Seeds.{closest-IsLookup, closest-AreAmong}
use mesh_net.Dht.Walk.Round.{AreAmong, decode_infos-HasNodeId, add_candidates-AreAmong}
use mesh_net.Dht.ValueLookup.{
  ValueLookup, Worker, starting, asking, finished, IsFinished, choosing, begin_lookup, settle,
  Answered, Step, exhausted, launch, mark, answer, receive, proceed, time_out,
}

abbrev pub HasWorkerId : Worker → Type 0
HasWorkerId (starting c) = HasNodeId c
HasWorkerId (asking c) = HasNodeId c
HasWorkerId finished = Unit

-- The state of the lookup and the table are valid, the goroutines are of contacts with identifiers
-- of 32 bytes, all candidates lie in a set, and no goroutine is left at the head of the loop.
pub record IsValid (universe : List NodeId) (s : ValueLookup) : Type 0 where
  pub lookup : IsLookup s.lookup
  pub table : IsTable s.table
  pub workers : All HasWorkerId s.workers
  pub among : AreAmong universe s.lookup.candidates
  pub idle : s.phase ≡ choosing → All IsFinished s.workers

map-starting : (cs : List Contact) → All HasNodeId cs → All HasWorkerId (map starting cs)
map-starting [] h = tt
map-starting (c ∷ cs) h = (h.0, map-starting cs h.1)

module _ (before after : List Worker) where
  worker_here : (w : Worker) → All HasWorkerId (before ++ w ∷ after) → HasWorkerId w
  worker_here w h = (All-append_right HasWorkerId before (w ∷ after) h).0

  replace_worker :
      (v w : Worker)
      → All HasWorkerId (before ++ v ∷ after)
      → HasWorkerId w
      → All HasWorkerId (before ++ w ∷ after)
  replace_worker v w h k =
      All-append HasWorkerId before (w ∷ after) (All-append_left HasWorkerId before (v ∷ after) h)
        (k, (All-append_right HasWorkerId before (v ∷ after) h).1)

finished_here :
    (before after : List Worker) (w : Worker) → All IsFinished (before ++ w ∷ after) → w ≡ finished
finished_here before after w h = (All-append_right IsFinished before (w ∷ after) h).0

starting_unfinished : (c : Contact) → starting c ≢ finished
starting_unfinished c e = cc

asking_unfinished : (c : Contact) → asking c ≢ finished
asking_unfinished c e = cc

pub mark_contacted-candidates :
    (ls : LookupState) (id : NodeId) → (mark_contacted ls id).candidates ≡ ls.candidates
unfolding mark_contacted
mark_contacted-candidates ls id = refl

module _ (env : Env) (Occurs : Network → Type 0) (self : NodeId) (name group_key : Bytes)
    (universe : List NodeId) where
  -- Every answer stays within the set.
  abbrev pub AnswersAmong : Type 0
  AnswersAmong =
      (c : Contact) (infos : List ContactInfo)
      → Answered env Occurs self name group_key c (ok (closer (some infos)))
      → AreAmong universe (decode_infos env infos)

  settle-IsValid :
      (s : ValueLookup) (c : Contact) (result : Outcome FindValueResult)
      → AnswersAmong
      → Answered env Occurs self name group_key c result
      → IsValid universe s
      → HasNodeId c
      → IsValid universe (settle env s c result)
  unfolding settle
  settle-IsValid s c (err e) all a v h = record {
    lookup = v.lookup;
    table = remove-IsTable s.table c.id v.table h;
    workers = v.workers;
    among = v.among;
    idle = v.idle;
  }
  settle-IsValid s c (ok (found r)) all a v h = record {
    lookup = v.lookup;
    table = v.table;
    workers = v.workers;
    among = v.among;
    idle = v.idle;
  }
  settle-IsValid s c (ok (closer none)) all a v h = v
  settle-IsValid s c (ok (closer (some infos))) all a v h =
      let cs = decode_infos env infos in
      let ids = decode_infos-HasNodeId env infos in
      record {
        lookup = add_candidates-IsLookup s.lookup cs v.lookup ids;
        table = v.table;
        workers = v.workers;
        among = add_candidates-AreAmong universe s.lookup cs v.lookup (ids, all c infos a) v.among;
        idle = v.idle;
      }
  settle-IsValid s c (ok nothing) all a v h = v
  settle-IsValid s c panics all a v h = v

  pub settle-frame :
      (s : ValueLookup) (c : Contact) (result : Outcome FindValueResult)
      → ((settle env s c result).phase ≡ s.phase)
        × ((settle env s c result).lookup.contacted ≡ s.lookup.contacted)
  unfolding settle
  settle-frame s c (err e) = (refl, refl)
  settle-frame s c (ok (found r)) = (refl, refl)
  settle-frame s c (ok (closer none)) = (refl, refl)
  settle-frame s c (ok (closer (some infos))) =
      (refl, (add_candidates-frame s.lookup (decode_infos env infos)).2)
  settle-frame s c (ok nothing) = (refl, refl)
  settle-frame s c panics = (refl, refl)

  pub Step-IsValid :
      {s t : ValueLookup}
      → AnswersAmong
      → Step env Occurs self name group_key s t
      → IsValid universe s
      → IsValid universe t
  Step-IsValid all (exhausted p b e) v = rw e (record {
    lookup = v.lookup;
    table = v.table;
    workers = v.workers;
    among = v.among;
    idle = λ f. cc;
  })
  Step-IsValid {s} all (launch c cs p b e) v = rw e (record {
    lookup = v.lookup;
    table = v.table;
    workers = map-starting (c ∷ cs) (rw b at (next_batch-All HasNodeId s.lookup v.lookup.ids));
    among = v.among;
    idle = λ f. cc;
  })
  Step-IsValid {s} all (mark before after c w e) v =
      let workers = rw w at v.workers in
      rw e (record {
        lookup = mark_contacted-IsLookup s.lookup c.id v.lookup;
        table = v.table;
        workers =
            replace_worker before after (starting c) (asking c) workers
              (worker_here before after (starting c) workers);
        among = rw (mark_contacted-candidates s.lookup c.id) v.among;
        idle =
            λ f. absurd (starting_unfinished c (finished_here before after _ (rw w at (v.idle f))));
      })
  Step-IsValid {s} all (answer before after c result w a e) v =
      let workers = rw w at v.workers in
      let settled =
        settle-IsValid s c result all a v (worker_here before after (asking c) workers) in
      rw e (record {
        lookup = settled.lookup;
        table = settled.table;
        workers = replace_worker before after (asking c) finished workers tt;
        among = settled.among;
        idle = λ f. absurd (
            asking_unfinished c (
              finished_here before after _
                (rw w at (v.idle (sym (settle-frame s c result).0 ∙ f)))));
      })
  Step-IsValid all (receive r p h e) v = rw e (record {
    lookup = v.lookup;
    table = v.table;
    workers = v.workers;
    among = v.among;
    idle = λ f. cc;
  })
  Step-IsValid all (proceed p f e) v = rw e (record {
    lookup = v.lookup;
    table = v.table;
    workers = v.workers;
    among = v.among;
    idle = λ g. f;
  })
  Step-IsValid all (time_out p e) v = rw e (record {
    lookup = v.lookup;
    table = v.table;
    workers = v.workers;
    among = v.among;
    idle = λ f. cc;
  })

-- The code before the loop, on a valid table, makes a valid state.
pub begin_lookup-IsValid :
    (universe : List NodeId) (env : Env) (now : ℕ) (d : Dht) (name group_key : Bytes)
    → IsCrypto env.crypto
    → IsTable d.table
    → AreAmong universe (all_contacts d.table)
    → IsValid universe (begin_lookup env now d name group_key)
unfolding begin_lookup new_lookup_state
begin_lookup-IsValid universe env now d name group_key laws v among =
    let target = record_id-IsNodeId env name laws in
    record {
      lookup = closest-IsLookup d.table (record_id env.crypto name) v target;
      table = v;
      workers = tt;
      among = closest-AreAmong universe d.table (record_id env.crypto name) v target among;
      idle = λ f. tt;
    }
