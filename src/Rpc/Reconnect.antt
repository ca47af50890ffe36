-- ===== src/Rpc/Reconnect.antt =====
-- Every step of the connection keeps the invariant.
use ribs.Base.{
  ℕ, ◌+◌, ◌-◌, ◌<◌, ◌≡◌, sym, ap, inl, inr, none, some, List, [], ◌∷◌, ◌++◌, arith, Option-cases,
  Bool-cases, ==_self, ==_ne, ◌==◌,
}
use ribs.Rpc.Callbacks.{
  IsServed, Inv, made, connect-Inv, get-none, get-some, get-Inv, connect-socket_self,
  connect-address, connect-timers,
}
use ribs.Rpc.Listeners.{listen_open-Inv, listen_close-Inv, on_connect-some, on_disconnect-some}
use ribs.Rpc.Registered.{registered_connect, registered_disconnect, run-registered}
use ribs.Rpc.Connection.{
  reconnects, Rpc, start, connect, on_connect, on_disconnect, Event, use_instance, register_connect,
  register_disconnect, closed, timer, step, run,
}

abbrev with_connect : ℕ → Rpc → Rpc
with_connect c s = record s { connect_callbacks = s.connect_callbacks ++ c ∷ [] }

abbrev with_disconnect : ℕ → Rpc → Rpc
with_disconnect c s = record s { disconnect_callbacks = s.disconnect_callbacks ++ c ∷ [] }

on_connect-Inv : (c : ℕ) (s : Rpc) → Inv s → Inv (on_connect c s)
unfolding on_connect
on_connect-Inv c s v = elim (Option-cases s.address) [
  | inl e ↦ rw (get-none (with_connect c s) e) (
      listen_open-Inv s.created c (connect (with_connect c s))
        (connect-Inv (with_connect c s) v.once))
  | inr (i, e) ↦ rw (get-some (with_connect c s) i e) (on_connect-some i c s v e)
]

on_disconnect-Inv : (c : ℕ) (s : Rpc) → Inv s → Inv (on_disconnect c s)
unfolding on_disconnect
on_disconnect-Inv c s v = elim (Option-cases s.address) [
  | inl e ↦ rw (get-none (with_disconnect c s) e) (
      listen_close-Inv s.created c (connect (with_disconnect c s))
        (connect-Inv (with_disconnect c s) v.once))
  | inr (i, e) ↦ rw (get-some (with_disconnect c s) i e) (on_disconnect-some i c s v e)
]

pub step-Inv : (s : Rpc) (e : Event) → Inv s → Inv (step s e)
unfolding step
step-Inv s use_instance v = get-Inv s v
step-Inv s (register_connect c) v = on_connect-Inv c s v
step-Inv s (register_disconnect c) v = on_disconnect-Inv c s v
step-Inv s (closed i) v = record { served = v.served; once = v.once }
step-Inv s timer v = elim (Bool-cases (s.timers == 0)) [
  | inl e ↦ rw e v
  | inr e ↦ rw e (connect-Inv (record s { timers = s.timers - 1 }) v.once)
]

start-Inv : Inv start
start-Inv = record { served = λ i e. cc; once = λ i lt. absurd (omega arith) }

run-Inv : (es : List Event) (s : Rpc) → Inv s → Inv (run s es)
unfolding run
run-Inv [] s v = v
run-Inv (e ∷ es) s v = run-Inv es (step s e) (step-Inv s e v)

pub run_start-Inv : (es : List Event) → Inv (run start es)
run_start-Inv es = run-Inv es start start-Inv

-- The socket in use serves what the events have registered.
pub record IsServing (es : List Event) (s : Rpc) : Type 0 where
  pub served :
      (i : ℕ)
      → s.address ≡ some i
      → (i < s.created) × IsServed (registered_connect es) (registered_disconnect es) (s.sockets i)
  pub once : (i : ℕ) → i < s.created → reconnects (s.sockets i).on_close ≡ 1

-- Whatever was called, closed or waited for: if there is a socket in use, it has been created, every
-- callback that these events give to `onConnect` and `onDisconnect` listens on it at least as often
-- as they give it, and every socket so far has one listener that reconnects.
pub run-serves : (es : List Event) → IsServing es (run start es)
run-serves es =
    let v = run_start-Inv es in
    let (connects, disconnects) = run-registered start es in
    record {
      served =
          λ i e. let (lt, served) = v.served i e in (lt, rw (sym connects, sym disconnects) served);
      once = v.once;
    }

-- When a timer that waits fires, a new socket comes into use with all callbacks, in their order, once
-- for each registration, and a listener that will reconnect again; one timer less waits.
pub timer-reconnects :
    (s : Rpc)
    → 0 < s.timers
    → ((step s timer).address ≡ some s.created)
      × ((step s timer).sockets s.created ≡ made s)
      × ((step s timer).timers + 1 ≡ s.timers)
unfolding step
timer-reconnects s pos =
    let waiting : Rpc = record s { timers = s.timers - 1 } in
    rw (==_ne s.timers 0 (omega arith)) (
      (connect-address waiting).0,
      connect-socket_self waiting,
      omega (arith, connect-timers waiting),
    )

-- Whatever happened before, a socket that closes sets exactly one timer, whichever of the created
-- ones it is.
pub closed-timer :
    (es : List Event) (i : ℕ)
    → i < (run start es).created
    → (step (run start es) (closed i)).timers ≡ (run start es).timers + 1
unfolding step
closed-timer es i lt = ap (λ (n : ℕ). (run start es).timers + n) ((run_start-Inv es).once i lt)

-- The first `onConnect` of all registers its callback twice on the new socket.
first_connect_twice :
    (c : ℕ) (s : Rpc)
    → s.address ≡ none
    → ((on_connect c s).sockets s.created).on_open ≡ s.connect_callbacks ++ c ∷ [] ++ c ∷ []
unfolding on_connect
first_connect_twice c s e =
    rw (get-none (with_connect c s) e, ==_self s.created, connect-socket_self (with_connect c s))
