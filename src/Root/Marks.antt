-- ===== src/Root/Marks.antt =====
-- The mark of routes/Root/RpcStatus.js and the socket in use.
use ribs.Base.{
  ℕ, zero, suc, ◌-◌, ◌≤◌, ◌≡◌, refl, inl, inr, some, List, [], ◌∷◌, ◌++◌, map, All, arith,
  Bool-cases, Option-cases, ◌==◌,
}
use native.Mathlib.Nat.{le_trans}
use ribs.Rpc.Counts.{count, count_callback}
use ribs.Rpc.Connection.{
  Listener, callback, reconnect, Socket, Rpc, start, connect, get, on_connect, on_disconnect,
  use_instance, register_connect, register_disconnect, closed, timer, step, run, create_instance,
}
use ribs.Rpc.Callbacks.{Inv, connect-socket, connect-callbacks, get-none, get-some}
use ribs.Rpc.Reconnect.{step-Inv, run_start-Inv}
use ribs.Root.RpcStatus.{
  Status, connecting, ok, disconnected, set_ok, set_disconnected, mount, run_open, run_close, App,
  Event, used, fired, opened, lost, app_step, app_run,
}

-- The listeners are the component's own, or the one that reconnects.
abbrev IsOwn : Listener → Type 0
IsOwn (callback c) = c ≡ set_disconnected
IsOwn reconnect = Unit {0}

abbrev IsOwnSocket : Socket → Type 0
IsOwnSocket k = All (λ c. c ≡ set_ok) k.on_open × All IsOwn k.on_close

record IsAlone (s : Rpc) : Type 0 where
  connects : All (λ c. c ≡ set_ok) s.connect_callbacks
  disconnects : All (λ c. c ≡ set_disconnected) s.disconnect_callbacks
  sockets : (i : ℕ) → IsOwnSocket (s.sockets i)
  connects_once : 1 ≤ count set_ok s.connect_callbacks
  disconnects_once : 1 ≤ count set_disconnected s.disconnect_callbacks

made-IsOwn :
    (cs : List ℕ)
    → All (λ c. c ≡ set_disconnected) cs
    → All IsOwn (map callback cs ++ reconnect ∷ [])
made-IsOwn [] a = (tt, tt)
made-IsOwn (c ∷ cs) (e, a) = (e, made-IsOwn cs a)

connect-IsAlone : (s : Rpc) → IsAlone s → IsAlone (connect s)
connect-IsAlone s a =
    let (connects, disconnects) = connect-callbacks s in
    record {
      connects = rw connects a.connects;
      disconnects = rw disconnects a.disconnects;
      connects_once = rw connects a.connects_once;
      disconnects_once = rw disconnects a.disconnects_once;
      sockets = λ i. elim (Bool-cases (s.created == i)) [
        | inl e ↦
            rw (connect-socket s i, e) (a.connects, made-IsOwn s.disconnect_callbacks a.disconnects)
        | inr e ↦ rw (connect-socket s i, e) (a.sockets i)
      ];
    }

get-IsAlone : (s : Rpc) → IsAlone s → IsAlone (get s).0
get-IsAlone s a = elim (Option-cases s.address) [
  | inl e ↦ rw (get-none s e) (connect-IsAlone s a)
  | inr (i, e) ↦ rw (get-some s i e) a
]

-- A list of the component's callbacks that is not empty sets the mark.
run_open-ok :
    (cs : List ℕ) (m : Status) → All (λ c. c ≡ set_ok) cs → 1 ≤ count set_ok cs → run_open cs m ≡ ok
run_open-ok [] m a h = absurd (omega arith)
run_open-ok (zero ∷ cs) m (e, a) h = all_ok cs a
  where
    all_ok : (cs : List ℕ) → All (λ c. c ≡ set_ok) cs → run_open cs ok ≡ ok
    all_ok [] a = refl
    all_ok (zero ∷ cs) (e, a) = all_ok cs a
    all_ok (suc c ∷ cs) (e, a) = absurd (omega arith)
run_open-ok (suc c ∷ cs) m (e, a) h = absurd (omega arith)

run_close-IsOwn : (ls : List Listener) → All IsOwn ls → run_close ls disconnected ≡ disconnected
run_close-IsOwn [] a = refl
run_close-IsOwn (reconnect ∷ ls) (e, a) = run_close-IsOwn ls a
run_close-IsOwn (callback zero ∷ ls) (e, a) = absurd (omega arith)
run_close-IsOwn (callback (suc zero) ∷ ls) (e, a) = run_close-IsOwn ls a
run_close-IsOwn (callback (suc (suc c)) ∷ ls) (e, a) = absurd (omega arith)

run_close-disconnected :
    (ls : List Listener) (m : Status)
    → All IsOwn ls
    → 1 ≤ count_callback set_disconnected ls
    → run_close ls m ≡ disconnected
run_close-disconnected [] m a h = absurd (omega arith)
run_close-disconnected (reconnect ∷ ls) m (e, a) h = run_close-disconnected ls m a h
run_close-disconnected (callback zero ∷ ls) m (e, a) h = absurd (omega arith)
run_close-disconnected (callback (suc zero) ∷ ls) m (e, a) h = run_close-IsOwn ls a
run_close-disconnected (callback (suc (suc c)) ∷ ls) m (e, a) h = absurd (omega arith)

timer-IsAlone : (s : Rpc) → IsAlone s → IsAlone (step s timer)
unfolding step
timer-IsAlone s a = elim (Bool-cases (s.timers == 0)) [
  | inl e ↦ rw e a
  | inr e ↦ rw e (
      connect-IsAlone (record s { timers = s.timers - 1 })
        (record {
          connects = a.connects;
          disconnects = a.disconnects;
          connects_once = a.connects_once;
          disconnects_once = a.disconnects_once;
          sockets = a.sockets;
        }))
]

closed-IsAlone : (s : Rpc) (i : ℕ) → IsAlone s → IsAlone (step s (closed i))
unfolding step
closed-IsAlone s i a = record {
  connects = a.connects;
  disconnects = a.disconnects;
  connects_once = a.connects_once;
  disconnects_once = a.disconnects_once;
  sockets = a.sockets;
}

used-IsAlone : (s : Rpc) → IsAlone s → IsAlone (step s use_instance)
unfolding step
used-IsAlone s a = get-IsAlone s a

-- The connection serves the component and nobody else.
abbrev Kept : App → Type 0
Kept a = Inv a.rpc × IsAlone a.rpc

app_step-Kept : (a : App) (e : Event) → Kept a → Kept (app_step a e)
unfolding app_step
app_step-Kept a used (v, o) = (step-Inv a.rpc use_instance v, used-IsAlone a.rpc o)
app_step-Kept a fired (v, o) = (step-Inv a.rpc timer v, timer-IsAlone a.rpc o)
app_step-Kept a (opened i) k = k
app_step-Kept a (lost i) (v, o) = (step-Inv a.rpc (closed i) v, closed-IsAlone a.rpc i o)

app_run-Kept : (a : App) (es : List Event) → Kept a → Kept (app_run a es)
unfolding app_run
app_run-Kept a [] k = k
app_run-Kept a (e ∷ es) k = app_run-Kept (app_step a e) es (app_step-Kept a e k)

abbrev pub mounted : App
mounted = record { rpc = mount start; status = connecting }

mount-Inv : Inv (mount start)
unfolding mount run step
mount-Inv = run_start-Inv (register_connect set_ok ∷ register_disconnect set_disconnected ∷ [])

mount-sockets : (i : ℕ) → IsOwnSocket ((mount start).sockets i)
unfolding mount on_connect on_disconnect get connect create_instance
mount-sockets i = elim (Bool-cases (0 == i)) [
  | inl e ↦ rw e ((refl, (refl, tt)), (tt, (refl, tt)))
  | inr e ↦ rw e (tt, tt)
]

mount-IsAlone : IsAlone (mount start)
unfolding mount on_connect on_disconnect get connect create_instance
mount-IsAlone = record {
  connects = (refl, tt);
  disconnects = (refl, tt);
  connects_once = omega arith;
  disconnects_once = omega arith;
  sockets = mount-sockets;
}

-- After the component is mounted and the connection was used, lost and renewed in any order: when the
-- socket in use opens, the mark says that the connection is there, and when it closes, that it is not.
pub app_run-marks :
    (es : List Event) {i : ℕ}
    → (app_run mounted es).rpc.address ≡ some i
    → let a = app_run mounted es in
      ((app_step a (opened i)).status ≡ ok) × ((app_step a (lost i)).status ≡ disconnected)
unfolding app_step
app_run-marks es {i} e =
    let a = app_run mounted es in
    let (v, o) = app_run-Kept mounted es (mount-Inv, mount-IsAlone) in
    let (lt, served) = v.served i e in
    let (opens, closes) = o.sockets i in
    let once = served.opens set_ok in
    let once' = served.closes set_disconnected in
    let first = o.connects_once in
    let first' = o.disconnects_once in
    (
      run_open-ok (a.rpc.sockets i).on_open a.status opens (le_trans first once),
      run_close-disconnected (a.rpc.sockets i).on_close a.status closes (le_trans first' once'),
    )
