-- ===== src/Dht/Reannounce.antt =====
-- The re-announcer of dht/announce.go. Its loop runs beside the node and beside `UpdateRecord` and
-- `Stop`, so it is a step relation; after `Stop`, its `select` may take one more tick. `now` is the
-- last reading of the clock.
pub mod Expired
use mesh_net.Base.{
  ℕ, ◌+◌, ◌*◌, ◌≤◌, ◌≡◌, ◌≢◌, refl, sym, ◌∙◌, Bool, true, false, Option, none, some, List, arith,
  inl, inr, ◌⊎◌,
}
use mesh_net.Outcome.{Outcome, ok, err, panics}
use mesh_net.Dht.Contact.{Contact}
use mesh_net.Dht.Store.{Record, is_expired, verify, put}
use mesh_net.Dht.Store.Reads.{is_expired_mono}
use mesh_net.Dht.Env.{Env, Network}
use mesh_net.Dht.Node.{Dht}
use mesh_net.Dht.Announce.{Announced, announce}
use mesh_net.Dht.Announce.Ends.{outcome_cases}

-- `const reannounceInterval = 45 * time.Minute`
abbrev pub reannounce_interval : ℕ
reannounce_interval = 45 * (60 * 1_000_000_000)

-- `closed` is the state of the channel `done`, `ended` that of the loop, and `due` the time of the
-- next tick.
pub record Reannouncer : Type 0 where
  pub node : Dht
  pub current : Record
  pub closed : Bool
  pub ended : Bool
  pub due : ℕ
  pub now : ℕ
  pub last : Option (Outcome (Unit {0}))

-- `NewReannouncer` and `Start`: the ticker ticks an interval later for the first time.
unfoldable pub start : ℕ → Dht → Record → Reannouncer
start now d r = record {
  node = d;
  current = r;
  closed = false;
  ended = false;
  due = now + reannounce_interval;
  now = now;
  last = none;
}

unfoldable pub update_record : Reannouncer → Record → Reannouncer
update_record s r = record s { current = r }

-- A second `close` of the channel panics.
unfoldable pub stop : Reannouncer → Outcome Reannouncer
stop s = elim s.closed [ true ↦ panics | false ↦ ok (record s { closed = true }) ]

module _ (env : Env) where
  pub data Step (s t : Reannouncer) : Type 0 where
    -- `case <-ticker.C`: an announcement, not before the tick is due.
    tick :
        (net : ℕ → Network) (arrive : ℕ → List (List Contact) → List (List Contact))
        (later : Network) (fuel now : ℕ) (a : Announced)
        → s.ended ≡ false
        → s.now ≤ now
        → s.due ≤ now
        → announce env net arrive later fuel now s.node s.current ≡ some a
        → t ≡ record s {
          node = a.node;
          due = s.due + reannounce_interval;
          now = now;
          last = some a.result;
        }
        → Step s t
    -- `case <-r.done`
    finish : s.ended ≡ false → s.closed ≡ true → t ≡ record s { ended = true } → Step s t
    stops : stop s ≡ ok t → Step s t

  pub data Steps (s : Reannouncer) : Reannouncer → Type 0 where
    here : Steps s s
    next : {t u : Reannouncer} → Steps s t → Step t u → Steps s u
