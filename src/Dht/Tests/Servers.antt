-- ===== src/Dht/Tests/Servers.antt =====
-- The goroutines of a node of dht/dht.go: one connection is served, and the node stops.
use mesh_net.Base.{◌+◌, ◌*◌, ◌≤◌, ◌≡◌, ◌⊎◌, refl, true, false, arith}
use mesh_net.Dht.Server.{
  Server, shut, accepting, failing, ended, stopping, waiting, stopped, new_server, start, wg_done,
  close_channel, stop_store, close_listener, accepts, fails, spawns, returns, served, replies,
  close_done, closes, stops, waits, Steps, here, next, Run, begin, then, Panics,
}
use mesh_net.Dht.Server.Drained.{IsDrained, server_no_panic, stop-IsDrained}
use mesh_net.Dht.Server.Ending.{CanStep, IsHeld, stop-Ends}

abbrev pub started : Server
started = (start true new_server).0

-- A connection is accepted, and `Stop` closes the channel and the listener.
abbrev stopping_server : Server
stopping_server = record {
  done = true;
  listener = shut;
  wg = 2;
  loop = accepting;
  handlers = 1;
  writing = 0;
  store_done = false;
  cleaning = true;
  stage = stopping;
}

reached : Steps started stopping_server
unfolding start new_server close_channel close_listener
reached =
    next
      (next (next (next here (accepts refl refl refl)) (spawns refl refl))
        (close_done true refl refl refl))
      (closes refl refl)

abbrev failed : Server
failed = record stopping_server { loop = failing }

-- The accept loop returns.
abbrev returned : Server
returned = record stopping_server { loop = ended; wg = 1 }

-- The handler writes its reply.
abbrev replying : Server
replying = record returned { writing = 1 }

-- `Stop` waits for the handler, whose peer does not read.
abbrev held : Server
held = record replying { store_done = true; stage = waiting }

four_steps : Run stopping_server 4 held
unfolding wg_done close_channel stop_store
four_steps =
    then {t = replying}
      (then {t = returned}
        (then {t = failed} (then begin (fails refl refl) refl) (returns 1 refl refl refl refl) refl)
        (replies (omega arith) refl) refl)
      (stops true refl refl refl) refl

stop-Ends_example : (4 + 0 ≤ 2 * 1 + 8) × ((held.stage ≡ stopped) ⊎ CanStep held ⊎ IsHeld held)
stop-Ends_example = stop-Ends true stopping_server held 4 reached refl four_steps

abbrev pub stopped_server : Server
stopped_server = record returned { wg = 0; handlers = 0; store_done = true; stage = stopped }

pub drained : Steps started stopped_server
unfolding wg_done close_channel stop_store
drained =
    next
      (next
        (next (next {t = failed} (next reached (fails refl refl)) (returns 1 refl refl refl refl))
          (served 0 0 refl (omega arith) refl refl))
        (stops true refl refl refl))
      (waits refl refl refl)

stop-IsDrained_example : IsDrained stopped_server
stop-IsDrained_example = stop-IsDrained true stopped_server stopped_server drained refl here

server_no_panic_example : ¬ Panics stopping_server
server_no_panic_example = server_no_panic true stopping_server reached
