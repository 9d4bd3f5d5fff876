-- ===== src/Dht/Server/Drained.antt =====
-- The wait group of dht/dht.go, and what `Stop` leaves behind.
use mesh_net.Base.{ℕ, ◌+◌, ◌≤◌, ◌≡◌, ◌↔◌, Bool, true, false, ◌≢◌, arith}
use mesh_net.Outcome.{ok}
use mesh_net.Dht.Server.{
  unset, listening, Loop, Stage, unborn, accepting, holding, failing, ended, serving, closing,
  stopping, waiting, stopped, Server, new_server, start, wg_done, close_channel, stop_store,
  close_listener, Step, accepts, fails, spawns, retries, returns, served, replies, written, cleaned,
  close_done, closes, stops, waits, has_returned, Panics, loop_done, handler_done, done_closed,
  store_closed, Steps, here, next,
}

-- How many goroutines the accept loop is.
abbrev pub alive : Loop → ℕ
alive unborn = 0
alive accepting = 1
alive holding = 1
alive failing = 1
alive ended = 0

-- What holds between two steps.
pub record IsServer (s : Server) : Type 0 where
  pub counted : s.wg ≡ alive s.loop + s.handlers
  pub writers : s.writing ≤ s.handlers
  pub open_done : s.stage ≡ serving → s.done ≡ false
  pub closed_done : s.stage ≢ serving → s.done ≡ true
  pub open_store : s.stage ≢ waiting → s.stage ≢ stopped → s.store_done ≡ false
  pub born : s.listener ≡ unset → s.loop ≡ unborn
  pub ended_done : s.loop ≡ ended → s.done ≡ true
  pub no_listener : s.stage ≢ serving → s.stage ≢ closing → s.listener ≢ listening
  pub drained : s.stage ≡ stopped → s.wg ≡ 0

pub start-IsServer : (listens : Bool) → IsServer (start listens new_server).0
unfolding start new_server
start-IsServer true = ground arith
start-IsServer false = ground arith

pub Step-IsServer : {s t : Server} → Step s t → IsServer s → IsServer t
unfolding wg_done close_channel stop_store close_listener
Step-IsServer (accepts a b e) v = ground arith
Step-IsServer (fails a e) v = ground arith
Step-IsServer (spawns a e) v = ground arith
Step-IsServer (retries a b e) v = ground arith
Step-IsServer (returns n a b c e) v = ground arith
Step-IsServer (served k n a l b e) v = ground arith
Step-IsServer (replies a e) v = ground arith
Step-IsServer (written j k n a b c e) v = ground arith
Step-IsServer (cleaned a b e) v = ground arith
Step-IsServer (close_done b a c e) v = ground arith
Step-IsServer (closes a e) v = ground arith
Step-IsServer (stops b a c e) v = ground arith
Step-IsServer (waits a b e) v = ground arith

pub Steps-IsServer : {s t : Server} → IsServer s → Steps s t → IsServer t
Steps-IsServer v here = v
Steps-IsServer v (next run st) = Step-IsServer st (Steps-IsServer v run)

IsServer-Panics : {s : Server} → IsServer s → ¬ Panics s
unfolding wg_done close_channel stop_store
IsServer-Panics v (loop_done a b c) = ground arith
IsServer-Panics v (handler_done k a b) = ground arith
IsServer-Panics v (done_closed a b) = ground arith
IsServer-Panics v (store_closed a b) = ground arith

-- Whether `Start` could listen or not, and whatever the goroutines do in any order, with one call
-- of `Stop` at any time: no `Done` of the wait group and no `close` of a channel panics.
pub server_no_panic :
    (listens : Bool) (s : Server) → Steps (start listens new_server).0 s → ¬ Panics s
server_no_panic listens s run = IsServer-Panics (Steps-IsServer (start-IsServer listens) run)

-- What `Stop` knows of its own return.
pub IsServer-has_returned :
    (s : Server)
    → IsServer s
    → (st : Stage) → s.stage ≡ st
    → (b : Bool) × (has_returned s ≡ ok b) × ((b ≡ true) ↔ (s.stage ≡ stopped))
unfolding has_returned close_channel stop_store
IsServer-has_returned s v serving e = (false, ground arith, ground arith)
IsServer-has_returned s v closing e = (false, ground arith, ground arith)
IsServer-has_returned s v stopping e = (false, ground arith, ground arith)
IsServer-has_returned s v waiting e = (false, ground arith, ground arith)
IsServer-has_returned s v stopped e = (true, ground arith, ground arith)

-- `Stop` has returned, and nothing of the server is left: no goroutine of the accept loop or of a
-- handler, and no open listener.
pub record IsDrained (s : Server) : Type 0 where
  pub returned : s.stage ≡ stopped
  pub no_loop : alive s.loop ≡ 0
  pub no_handler : s.handlers ≡ 0
  pub closed : s.listener ≢ listening

Step-stopped : {s t : Server} → Step s t → s.stage ≡ stopped → t.stage ≡ stopped
Step-stopped (accepts a b e) h = ground arith
Step-stopped (fails a e) h = ground arith
Step-stopped (spawns a e) h = ground arith
Step-stopped (retries a b e) h = ground arith
Step-stopped (returns n a b c e) h = ground arith
Step-stopped (served k n a l b e) h = ground arith
Step-stopped (replies a e) h = ground arith
Step-stopped (written j k n a b c e) h = ground arith
Step-stopped (cleaned a b e) h = ground arith
Step-stopped (close_done b a c e) h = ground arith
Step-stopped (closes a e) h = ground arith
Step-stopped (stops b a c e) h = ground arith
Step-stopped (waits a b e) h = ground arith

Steps-stopped : {s t : Server} → s.stage ≡ stopped → Steps s t → t.stage ≡ stopped
Steps-stopped h here = h
Steps-stopped h (next run st) = Step-stopped st (Steps-stopped h run)

pub IsServer-IsDrained : {s : Server} → IsServer s → s.stage ≡ stopped → IsDrained s
IsServer-IsDrained v h = ground arith

-- Once `Stop` has returned, and forever after: the listener is closed, the accept loop has
-- returned, or was never started, and no handler of a connection runs. `Stop` is called once.
pub stop-IsDrained :
    (listens : Bool) (s t : Server)
    → Steps (start listens new_server).0 s
    → s.stage ≡ stopped
    → Steps s t
    → IsDrained t
stop-IsDrained listens s t run h later =
    IsServer-IsDrained (Steps-IsServer (Steps-IsServer (start-IsServer listens) run) later)
      (Steps-stopped h later)
