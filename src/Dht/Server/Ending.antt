-- ===== src/Dht/Server/Ending.antt =====
-- `Stop` of dht/dht.go ends.
use mesh_net.Base.{
  ap, ℕ, zero, suc, ◌+◌, ◌*◌, ◌-◌, ◌<◌, ◌≤◌, ◌≡◌, refl, Bool, true, false, ◌≢◌, arith, ltb,
  Bool-cases, inl, inr, ◌⊎◌,
}
use mesh_net.Dht.Server.{
  Loop, unborn, accepting, holding, failing, ended, Stage, serving, closing, stopping, waiting,
  stopped, Server, new_server, start, wg_done, close_channel, stop_store, close_listener, Step,
  accepts, fails, spawns, retries, returns, served, replies, written, cleaned, close_done, closes,
  stops, waits, Steps, Run, begin, then,
}
use mesh_net.Dht.Server.Drained.{alive, IsServer, Step-IsServer, Steps-IsServer, start-IsServer}

-- How many steps the accept loop, the stage of `Stop` and the loop of the store may still make once
-- the listener is closed; a connection at hand becomes a handler, which makes at most two.
abbrev loop_left : Loop → ℕ
loop_left unborn = 0
loop_left accepting = 2
loop_left holding = 5
loop_left failing = 1
loop_left ended = 0

abbrev stage_left : Stage → ℕ
stage_left serving = 4
stage_left closing = 3
stage_left stopping = 2
stage_left waiting = 1
stage_left stopped = 0

abbrev cleaning_left : Bool → ℕ
cleaning_left true = 1
cleaning_left false = 0

unfoldable pub left : Server → ℕ
left s =
    loop_left s.loop
    + (s.handlers + (s.handlers - s.writing))
    + stage_left s.stage
    + cleaning_left s.cleaning

-- `Stop` has closed the listener.
abbrev pub IsClosing : Server → Type 0
IsClosing s = (s.stage ≢ serving) × (s.stage ≢ closing)

Step-IsClosing : {s t : Server} → Step s t → IsClosing s → IsClosing t
Step-IsClosing (accepts a b e) h = ground arith
Step-IsClosing (fails a e) h = ground arith
Step-IsClosing (spawns a e) h = ground arith
Step-IsClosing (retries a b e) h = ground arith
Step-IsClosing (returns n a b c e) h = ground arith
Step-IsClosing (served k n a l b e) h = ground arith
Step-IsClosing (replies a e) h = ground arith
Step-IsClosing (written j k n a b c e) h = ground arith
Step-IsClosing (cleaned a b e) h = ground arith
Step-IsClosing (close_done b a c e) h = ground arith
Step-IsClosing (closes a e) h = ground arith
Step-IsClosing (stops b a c e) h = ground arith
Step-IsClosing (waits a b e) h = ground arith

Step-left : {s t : Server} → Step s t → IsServer s → IsClosing s → left t < left s
unfolding left wg_done close_channel stop_store close_listener
Step-left (accepts a b e) v h = ground arith
Step-left (fails a e) v h = ground arith
Step-left (spawns a e) v h = ground arith
Step-left (retries a b e) v h = ground arith
Step-left (returns n a b c e) v h = ground arith
Step-left (served k n a l b e) v h = ground arith
Step-left (replies a e) v h = ground arith
Step-left (written j k n a b c e) v h = ground arith
Step-left (cleaned a b e) v h = ground arith
Step-left (close_done b a c e) v h = ground arith
Step-left (closes a e) v h = ground arith
Step-left (stops b a c e) v h = ground arith
Step-left (waits a b e) v h = ground arith

Run-left :
    {s : Server} {n : ℕ} {t : Server}
    → IsServer s
    → IsClosing s
    → Run s n t
    → IsServer t × IsClosing t × (n + left t ≤ left s)
Run-left v h begin = (v, h, omega arith)
Run-left v h (then run st e) =
    let (v', h', bound) = Run-left v h run in
    (Step-IsServer st v', Step-IsClosing st h', omega (arith, Step-left st v' h', e))

-- A step that the goroutines of the node can make whatever the peers do: it does not end a write.
pub record CanStep (s : Server) : Type 0 where
  pub after : Server
  pub step : Step s after
  pub kept : s.writing ≤ after.writing

-- `Stop` waits, and the goroutines that are left are handlers whose peers do not take their reply.
pub record IsHeld (s : Server) : Type 0 where
  pub waits : s.stage ≡ waiting
  pub no_loop : alive s.loop ≡ 0
  pub all_writing : s.handlers ≡ s.writing
  pub some_writing : 0 < s.writing

-- A handler that does not write can go on, whatever the peers do; `Stop` waits for the others.
handler-CanStep :
    (s : Server)
    → IsServer s
    → s.stage ≡ waiting
    → alive s.loop ≡ 0
    → (w : ℕ) → s.wg ≡ suc w
    → CanStep s ⊎ IsHeld s
handler-CanStep s v st e w g = elim (Bool-cases (ltb s.writing s.handlers)) [
  | inl idle ↦
      inl (record { after = _; step = replies (ground (arith, idle)) refl; kept = omega arith })
  | inr full ↦ inr (record {
    waits = st;
    no_loop = e;
    all_writing = ground (arith, full, v.writers);
    some_writing = ground (arith, full, v.counted, e, g);
  })
]

waiting-CanStep :
    (s : Server)
    → IsServer s
    → s.stage ≡ waiting
    → (l : Loop) → s.loop ≡ l
    → (w : ℕ) → s.wg ≡ w
    → CanStep s ⊎ IsHeld s
unfolding wg_done
waiting-CanStep s v st l e zero g =
    inl (record { after = _; step = waits st g refl; kept = omega arith })
waiting-CanStep s v st accepting e (suc w) g =
    inl (record { after = _; step = fails e refl; kept = omega arith })
waiting-CanStep s v st holding e (suc w) g =
    inl (record { after = _; step = spawns e refl; kept = omega arith })
waiting-CanStep s v st failing e (suc w) g = inl (record {
  after = _;
  step = returns w e (v.closed_done cc) (ground (arith, g)) refl;
  kept = omega arith;
})
waiting-CanStep s v st unborn e (suc w) g = handler-CanStep s v st (ap alive e) w g
waiting-CanStep s v st ended e (suc w) g = handler-CanStep s v st (ap alive e) w g

progress :
    (s : Server)
    → IsServer s
    → IsClosing s
    → (st : Stage) → s.stage ≡ st
    → (s.stage ≡ stopped) ⊎ CanStep s ⊎ IsHeld s
unfolding close_channel stop_store
progress s v h serving e = absurd (h.0 e)
progress s v h closing e = absurd (h.1 e)
progress s v h stopping e = inr (
    inl (record {
      after = _;
      step = stops true e (ground (arith, v.open_store)) refl;
      kept = omega arith;
    }))
progress s v h waiting e = inr (waiting-CanStep s v e s.loop refl s.wg refl)
progress s v h stopped e = inl e

-- `Stop` ends, or waits for peers that do not take a reply, whose writes have no deadline: once it
-- has closed the listener, the goroutines make at most eight steps more than twice the handlers, in
-- any order, less the handlers that write already and without the ticks of the store's loop; and
-- after any of these steps `Stop` has returned, or the goroutines can make a step whatever the
-- peers do, or `Stop` waits, the accept loop has ended, and the handlers that are left, at least
-- one, write their replies.
pub stop-Ends :
    (listens : Bool) (s t : Server) (n : ℕ)
    → Steps (start listens new_server).0 s
    → s.stage ≡ stopping
    → Run s n t
    → (n + s.writing ≤ 2 * s.handlers + 8) × ((t.stage ≡ stopped) ⊎ CanStep t ⊎ IsHeld t)
unfolding left
stop-Ends listens s t n reach st run =
    let v = Steps-IsServer (start-IsServer listens) reach in
    let (v', h', bound) = Run-left v (cc, cc) run in
    (ground (arith, bound, v.writers), progress t v' h' t.stage refl)
