-- ===== src/Examples/Calls.antt =====
-- helpers/rpc.js on concrete runs.
use ribs.Base.{
  ◌⊎◌, lt→ltb, ◌≢◌, ◌≤◌, length, ℕ, ◌+◌, ◌<◌, ◌≡◌, refl, List, [], ◌∷◌, some, arith, ltb,
  if◌then◌else◌, Text, codes,
}
use ribs.Rpc.Connection.{
  Rpc, Event, use_instance, register_connect, register_disconnect, closed, timer, start, step, run,
  on_connect, connect, get, on_disconnect, create_instance,
}
use ribs.Rpc.Callbacks.{made}
use ribs.Rpc.Registered.{registered_connect, registered_disconnect}
use ribs.Rpc.Exactly.{HasRegistered, run-in_order}
use ribs.Rpc.Reconnect.{IsServing, run-serves, timer-reconnects, closed-timer}
use ribs.Rpc.Retry.{
  Answer, ok, failed, returned, call, call_fil, IsFirst, ribs_attempt, fil_attempt, call-IsFirst,
  Failing, call-returned, call-thrown, call-settles, thrown, undefined,
}

-- The status bar registers its callbacks, the socket closes, and a second later the timer fires.
abbrev outage : List Event
outage = register_connect 7 ∷ register_disconnect 8 ∷ register_connect 9 ∷ closed 0 ∷ timer ∷ []

run-serves_example : IsServing outage (run start outage)
run-serves_example = run-serves outage

run-in_order_example :
    ((run start outage ≡ start)
      × (registered_connect outage ≡ [])
      × (registered_disconnect outage ≡ []))
    ⊎ ((i : ℕ) × HasRegistered outage (run start outage) i)
run-in_order_example = run-in_order outage

-- The first callback of all stands twice on the first socket.
first_callbacks : ((run start (register_connect 7 ∷ [])).sockets 0).on_open ≡ 7 ∷ 7 ∷ []
unfolding run step on_connect connect get create_instance
first_callbacks = refl

outage_sockets : (run start outage).address ≡ some 1
unfolding run step on_connect on_disconnect connect get create_instance
outage_sockets = refl

outage_callbacks : ((run start outage).sockets 1).on_open ≡ 7 ∷ 9 ∷ []
unfolding run step on_connect on_disconnect connect get create_instance
outage_callbacks = refl

abbrev waiting : Rpc
waiting = record start { address = some 0; created = 1; connect_callbacks = 7 ∷ []; timers = 1 }

timer_fires :
    ((step waiting timer).address ≡ some 1)
    × ((step waiting timer).sockets 1 ≡ made waiting)
    × ((step waiting timer).timers + 1 ≡ 1)
timer_fires = timer-reconnects waiting (omega arith)

one_created : 0 < (run start (use_instance ∷ [])).created
unfolding run step get connect create_instance
one_created = omega arith

timer_set :
    (step (run start (use_instance ∷ [])) (closed 0)).timers
    ≡ (run start (use_instance ∷ [])).timers + 1
timer_set = closed-timer (use_instance ∷ []) 0 one_created

-- A node that fails twice and then gives back the parameters.
abbrev flaky : ℕ → Text → ℕ → Answer ℕ ℕ
flaky i method params = if ltb i 2 then failed i else ok params

call-IsFirst_example :
    IsFirst (ribs_attempt flaky (codes "Groups") 3) (call flaky (codes "Groups") 3)
    × IsFirst (fil_attempt flaky (codes "Groups") 3) (call_fil flaky (codes "Groups") 3)
call-IsFirst_example = call-IsFirst flaky (codes "Groups") 3

flaky-Failing : Failing {E = ℕ} (ribs_attempt flaky (codes "Groups") 3) 0 2
flaky-Failing j low high = (j, rw (lt→ltb j 2 high))

-- The two failures take a second each.
second_retry : call flaky (codes "Groups") 3 ≡ (returned 3, 1000 ∷ 1000 ∷ [])
second_retry = call-returned flaky (codes "Groups") 3 2 (omega arith) flaky-Failing refl

-- A node that always fails.
abbrev broken : ℕ → Text → ℕ → Answer ℕ ℕ
broken i method params = failed i

broken-Failing : Failing {A = ℕ} (ribs_attempt broken (codes "Groups") 3) 0 4
broken-Failing j low high = (j, refl)

gave_up : call broken (codes "Groups") 3 ≡ (thrown 4, 1000 ∷ 1000 ∷ 1000 ∷ 1000 ∷ [])
gave_up = call-thrown broken (codes "Groups") 3 broken-Failing refl

settled :
    ((call flaky (codes "Groups") 3).0 ≢ undefined)
    × (length (call flaky (codes "Groups") 3).1 ≤ 4)
    × ((call_fil flaky (codes "Groups") 3).0 ≢ undefined)
    × (length (call_fil flaky (codes "Groups") 3).1 ≤ 4)
settled = call-settles flaky (codes "Groups") 3
