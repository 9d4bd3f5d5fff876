-- ===== src/Dht/ValueLookup.antt =====
-- `LookupValue` of dht/lookup.go. The goroutines of a round run side by side with the loop that
-- waits for them, so a lookup is a step relation: a step is one access to what they share, the state
-- of the lookup, the routing table or a channel. After a return the goroutines that are left go on.
pub mod Valid
pub mod Requests
pub mod Pending
pub mod Measure
pub mod Origin
use mesh_net.Base.{
  ℕ, ◌≡◌, Option, none, some, List, [], ◌∷◌, ◌++◌, map, Bytes, All, Bool, true, false,
}
use mesh_net.Outcome.{Outcome, ok, err, panics, Error, no_known_nodes}
use mesh_net.Dht.NodeId.{NodeId}
use mesh_net.Dht.Contact.{Contact}
use mesh_net.Dht.Table.{RoutingTable, bucket_size, remove, closest}
use mesh_net.Dht.Store.{Record, record_id}
use mesh_net.Dht.Rpc.{ContactInfo}
use mesh_net.Dht.Env.{Env, Network, addr}
use mesh_net.Dht.Client.{FindValueResult, found, closer, nothing, send_find_value}
use mesh_net.Dht.Lookup.{LookupState, new_lookup_state, next_batch, mark_contacted, add_candidates}
use mesh_net.Dht.Node.{Dht, local_value}
use mesh_net.Dht.Walk.{decode_infos}

-- Where the goroutine of a contact stands: before `markContacted`, before what it does with the
-- answer, at its end.
pub data Worker : Type 0 where
  starting : Contact → Worker
  asking : Contact → Worker
  finished : Worker

-- Where the loop stands: at its head, at the `select`, or behind a `return`.
pub data Phase : Type 0 where
  choosing : Phase
  waiting : Phase
  returned : Outcome (Option Record) → Phase

-- `channel` is the content of `found`, which holds one record at most.
pub record ValueLookup : Type 0 where
  pub phase : Phase
  pub lookup : LookupState
  pub table : RoutingTable
  pub channel : Option Record
  pub workers : List Worker

-- `select { case found <- record: default: }`
abbrev pub offered : Option Record → Record → Option Record
offered none r = some r
offered (some r') r = some r'

abbrev pub IsFinished : Worker → Type 0
IsFinished w = w ≡ finished

-- The code before the loop.
unfoldable pub begin_lookup : Env → ℕ → Dht → Bytes → Bytes → ValueLookup
begin_lookup env now d name group_key =
    let target = record_id env.crypto name in
    let seeds = closest d.table target bucket_size in
    let first : Phase = elim (local_value now d.store name group_key) [
      | some r ↦ returned (ok (some r))
      | none ↦ elim seeds [ [] ↦ returned (err no_known_nodes) | c ∷ cs ↦ choosing ]
    ] in
    record {
      phase = first;
      lookup = new_lookup_state d.table.self target seeds;
      table = d.table;
      channel = none;
      workers = [];
    }

-- What a goroutine does with the answer of its contact, but for its own end. A request does not
-- panic.
unfoldable pub settle : Env → ValueLookup → Contact → Outcome FindValueResult → ValueLookup
settle env s c (err e) = record s { table = remove s.table c.id }
settle env s c (ok (found r)) = record s { channel = offered s.channel r }
settle env s c (ok (closer (some infos))) = record s {
  lookup = add_candidates s.lookup (decode_infos env infos);
}
settle env s c (ok (closer none)) = s
settle env s c (ok nothing) = s
settle env s c panics = s

-- `Occurs` holds of the networks that the requests of a lookup may meet.
module _ (env : Env) (Occurs : Network → Type 0) (self : NodeId) (name group_key : Bytes) where
  -- What a contact answers, over one of these networks.
  abbrev pub Answered : Contact → Outcome FindValueResult → Type 0
  Answered c answer =
      (net : Network) × Occurs net
      × (send_find_value env net (addr env c) self name group_key ≡ answer)

  pub data Step (s t : ValueLookup) : Type 0 where
    -- `nextBatch` gives no contact: `return nil, nil` behind the loop.
    exhausted :
        s.phase ≡ choosing
        → next_batch s.lookup ≡ []
        → t ≡ record s { phase = returned (ok none) }
        → Step s t
    -- A new channel `found`, and a goroutine for each contact of the batch.
    launch :
        (c : Contact) (cs : List Contact)
        → s.phase ≡ choosing
        → next_batch s.lookup ≡ c ∷ cs
        → t ≡ record s { phase = waiting; channel = none; workers = map starting (c ∷ cs) }
        → Step s t
    mark :
        (before after : List Worker) (c : Contact)
        → s.workers ≡ before ++ starting c ∷ after
        → t
          ≡ record s { lookup = mark_contacted s.lookup c.id; workers = before ++ asking c ∷ after }
        → Step s t
    answer :
        (before after : List Worker) (c : Contact) (result : Outcome FindValueResult)
        → s.workers ≡ before ++ asking c ∷ after
        → Answered c result
        → t ≡ record (settle env s c result) { workers = before ++ finished ∷ after }
        → Step s t
    -- The three cases of the `select`: `found`, `done`, and the time.
    receive :
        (r : Record)
        → s.phase ≡ waiting
        → s.channel ≡ some r
        → t ≡ record s { phase = returned (ok (some r)); channel = none }
        → Step s t
    proceed :
        s.phase ≡ waiting → All IsFinished s.workers → t ≡ record s { phase = choosing } → Step s t
    time_out : s.phase ≡ waiting → t ≡ record s { phase = returned (ok none) } → Step s t

  -- `n` steps lead from one state to another.
  pub data Run (s : ValueLookup) : ℕ → ValueLookup → Type 0 where
    here : Run s 0 s
    next : {n m : ℕ} {t u : ValueLookup} → Run s n t → Step t u → m ≡ ℕ.suc n → Run s m u
