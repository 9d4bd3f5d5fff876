-- ===== src/Dht/Server.antt =====
-- The goroutines of a node in dht/dht.go: `Start`, `acceptLoop` and `Stop`, with the loop of the store
-- in dht/store.go. They run side by side, so the node's server is a step relation: a step is one
-- access to what they share, the channel `done`, the listener, the wait group and the channel of the
-- store. What a handler does to the table and the store is in Dht.Node.
pub mod Drained
pub mod Ending
use mesh_net.Base.{
  ℕ, zero, suc, ◌+◌, ◌<◌, ◌≤◌, ◌≡◌, Bool, true, false, if◌then◌else◌, Option, none, some,
}
use mesh_net.Outcome.{Outcome, ok, err, panics, ◌>>=◌, listen_failed}

-- `unset` is the nil of a node that was not started.
pub data Listener : Type 0 where
  unset listening shut : Listener

-- Where the accept loop stands: not started, at `Accept`, behind it with a connection or with an
-- error, and behind its return.
pub data Loop : Type 0 where
  unborn accepting holding failing ended : Loop

-- Where `Stop` stands: not called, before each of its calls behind `close(d.done)`, and at its end.
pub data Stage : Type 0 where
  serving closing stopping waiting stopped : Stage

-- `done` and `store_done` say that the channel is closed, `wg` is the count of the wait group,
-- `handlers` how many connections are being served, `writing` how many of their handlers write a reply,
-- and `cleaning` that the loop of the store runs.
pub record Server : Type 0 where
  pub done : Bool
  pub listener : Listener
  pub wg : ℕ
  pub loop : Loop
  pub handlers : ℕ
  pub writing : ℕ
  pub store_done : Bool
  pub cleaning : Bool
  pub stage : Stage

-- The part of `New` that makes the fields of a server.
unfoldable pub new_server : Server
new_server = record {
  done = false;
  listener = unset;
  wg = 0;
  loop = unborn;
  handlers = 0;
  writing = 0;
  store_done = false;
  cleaning = false;
  stage = serving;
}

-- `Start` of the store, which starts `cleanupLoop`.
unfoldable pub start_store : Server → Server
start_store s = record s { cleaning = true }

-- `Start`; the argument says whether `net.Listen` succeeds.
unfoldable pub start : Bool → Server → Server × Outcome (Unit {0})
unfolding start_store
start listens s =
    if listens
    then (start_store (record s { listener = listening; wg = s.wg + 1; loop = accepting }), ok tt)
    else (s, err listen_failed)

-- `wg.Done()`, which panics below 0.
unfoldable pub wg_done : ℕ → Outcome ℕ
wg_done zero = panics
wg_done (suc n) = ok n

-- `close` of a channel, which panics on a closed one.
unfoldable pub close_channel : Bool → Outcome Bool
close_channel true = panics
close_channel false = ok true

-- `Stop` of the store.
unfoldable pub stop_store : Bool → Outcome Bool
unfolding close_channel
stop_store store_done = close_channel store_done

-- `if d.listener != nil { d.listener.Close() }`
unfoldable pub close_listener : Listener → Listener
close_listener unset = unset
close_listener listening = shut
close_listener shut = shut

pub data Step (s t : Server) : Type 0 where
  -- `Accept` gives a connection, which a closed listener does not, or an error, which it may at any
  -- time.
  accepts : s.loop ≡ accepting → s.listener ≡ listening → t ≡ record s { loop = holding } → Step s t
  fails : s.loop ≡ accepting → t ≡ record s { loop = failing } → Step s t
  -- `d.wg.Add(1)` and `go d.handleConnection(conn)`
  spawns :
      s.loop ≡ holding
      → t ≡ record s { wg = s.wg + 1; handlers = s.handlers + 1; loop = accepting }
      → Step s t
  -- The `select` behind an error: `default`, and `case <-d.done` with the deferred `d.wg.Done()`.
  retries : s.loop ≡ failing → s.done ≡ false → t ≡ record s { loop = accepting } → Step s t
  returns :
      (n : ℕ)
      → s.loop ≡ failing
      → s.done ≡ true
      → wg_done s.wg ≡ ok n
      → t ≡ record s { loop = ended; wg = n }
      → Step s t
  -- The end of a handler that does not write: it has no reply, or it could not read a message, for
  -- which it has a deadline.
  served :
      (k n : ℕ)
      → s.handlers ≡ suc k
      → s.writing ≤ k
      → wg_done s.wg ≡ ok n
      → t ≡ record s { handlers = k; wg = n }
      → Step s t
  -- A handler begins to write its reply.
  replies : s.writing < s.handlers → t ≡ record s { writing = s.writing + 1 } → Step s t
  -- The write has ended, and so has its handler: the peer takes the reply or closes the connection.
  -- A write has no deadline.
  written :
      (j k n : ℕ)
      → s.writing ≡ suc j
      → s.handlers ≡ suc k
      → wg_done s.wg ≡ ok n
      → t ≡ record s { writing = j; handlers = k; wg = n }
      → Step s t
  -- `case <-s.done` of `cleanupLoop`
  cleaned : s.cleaning ≡ true → s.store_done ≡ true → t ≡ record s { cleaning = false } → Step s t
  -- `Stop`, call by call.
  close_done :
      (b : Bool)
      → s.stage ≡ serving
      → close_channel s.done ≡ ok b
      → t ≡ record s { done = b; stage = closing }
      → Step s t
  closes :
      s.stage ≡ closing
      → t ≡ record s { listener = close_listener s.listener; stage = stopping }
      → Step s t
  stops :
      (b : Bool)
      → s.stage ≡ stopping
      → stop_store s.store_done ≡ ok b
      → t ≡ record s { store_done = b; stage = waiting }
      → Step s t
  waits : s.stage ≡ waiting → s.wg ≡ 0 → t ≡ record s { stage = stopped } → Step s t

-- A step that would panic: `wg.Done()` at 0, or a `close` of a closed channel, by a goroutine that
-- stands before it.
pub data Panics (s : Server) : Type 0 where
  loop_done : s.loop ≡ failing → s.done ≡ true → wg_done s.wg ≡ panics → Panics s
  handler_done : (k : ℕ) → s.handlers ≡ suc k → wg_done s.wg ≡ panics → Panics s
  done_closed : s.stage ≡ serving → close_channel s.done ≡ panics → Panics s
  store_closed : s.stage ≡ stopping → stop_store s.store_done ≡ panics → Panics s

-- Whether the `Stop` that stands in a state has returned; it panics if its next call does.
unfoldable pub has_returned : Server → Outcome Bool
has_returned s = elim s.stage [
  | serving ↦ (do _ ← close_channel s.done; ok false)
  | closing ↦ ok false
  | stopping ↦ (do _ ← stop_store s.store_done; ok false)
  | waiting ↦ ok false
  | stopped ↦ ok true
]

pub data Steps (s : Server) : Server → Type 0 where
  here : Steps s s
  next : {t u : Server} → Steps s t → Step t u → Steps s u

-- `n` steps lead from one state to another.
pub data Run (s : Server) : ℕ → Server → Type 0 where
  begin : Run s 0 s
  then : {n m : ℕ} {t u : Server} → Run s n t → Step t u → m ≡ suc n → Run s m u
