-- ===== src/Root/RpcStatus.antt =====
-- `RpcStatus` of routes/Root/RpcStatus.js: the mark of the connection, a client of the callbacks of
-- `RibsRPC`, and the only one in the app. Its two callbacks are 0 and 1.
use ribs.Base.{ℕ, zero, suc, List, [], ◌∷◌}
use ribs.Rpc.Connection.{
  Listener, callback, reconnect, Rpc, on_connect, on_disconnect, use_instance, closed, timer, step,
}

-- The state `status`: "Connecting...", "RPC: OK" or "RPC: Disconnected".
pub data Status : Type 0 where
  connecting : Status
  ok : Status
  disconnected : Status

abbrev pub set_ok : ℕ
set_ok = 0

abbrev pub set_disconnected : ℕ
set_disconnected = 1

-- The effect, which runs once.
unfoldable pub mount : Rpc → Rpc
mount s = on_disconnect set_disconnected (on_connect set_ok s)

-- A callback of the component runs.
abbrev pub set_status : ℕ → Status → Status
set_status zero m = ok
set_status (suc zero) m = disconnected
set_status (suc (suc c)) m = m

-- The listeners of "open" and of "close" on a socket run in order.
abbrev pub run_open : List ℕ → Status → Status
run_open [] m = m
run_open (c ∷ cs) m = run_open cs (set_status c m)

abbrev pub run_close : List Listener → Status → Status
run_close [] m = m
run_close (callback c ∷ ls) m = run_close ls (set_status c m)
run_close (reconnect ∷ ls) m = run_close ls m

pub record App : Type 0 where
  pub rpc : Rpc
  pub status : Status

-- What happens once the component is mounted: a call uses the connection, a timer fires, a socket
-- opens or closes.
pub data Event : Type 0 where
  used : Event
  fired : Event
  opened : ℕ → Event
  lost : ℕ → Event

unfoldable pub app_step : App → Event → App
app_step a used = record a { rpc = step a.rpc use_instance }
app_step a fired = record a { rpc = step a.rpc timer }
app_step a (opened i) = record a { status = run_open (a.rpc.sockets i).on_open a.status }
app_step a (lost i) = record {
  rpc = step a.rpc (closed i);
  status = run_close (a.rpc.sockets i).on_close a.status;
}

unfoldable pub app_run : App → List Event → App
app_run a [] = a
app_run a (e ∷ es) = app_run (app_step a e) es
