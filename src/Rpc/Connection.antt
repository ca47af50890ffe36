-- ===== src/Rpc/Connection.antt =====
-- The static fields and methods of class `RibsRPC` (helpers/rpc.js). Sockets are objects of the
-- package rpc-websockets; of these the model keeps what the app registers on them. Callbacks are
-- numbers.
use ribs.Base.{ℕ, suc, ◌+◌, ◌-◌, Option, none, some, List, [], ◌∷◌, ◌++◌, map, ◌==◌, if◌then◌else◌}

-- A listener of "close": a callback of the app, or the function that `autoReconnect` registers.
pub data Listener : Type 0 where
  callback : ℕ → Listener
  reconnect : Listener

-- What `on` has been called with, in order.
pub record Socket : Type 0 where
  pub on_open : List ℕ
  pub on_close : List Listener

-- `instance` is an address; `timers` counts the callbacks of `setTimeout` that have not run.
pub record Rpc : Type 0 where
  pub address : Option ℕ
  pub connect_callbacks : List ℕ
  pub disconnect_callbacks : List ℕ
  pub sockets : ℕ → Socket
  pub created : ℕ
  pub timers : ℕ

abbrev pub no_socket : Socket
no_socket = record { on_open = []; on_close = [] }

abbrev pub start : Rpc
start = record {
  address = none;
  connect_callbacks = [];
  disconnect_callbacks = [];
  sockets = λ i. no_socket;
  created = 0;
  timers = 0;
}

abbrev pub update : (ℕ → Socket) → ℕ → Socket → ℕ → Socket
update sockets i k j = if i == j then k else sockets j

-- `on("open", callback)` and `on("close", listener)` on the socket at an address.
abbrev pub listen_open : ℕ → ℕ → Rpc → Rpc
listen_open i c s =
    let k = s.sockets i in
    record s { sockets = update s.sockets i (record k { on_open = k.on_open ++ c ∷ [] }) }

abbrev pub listen_close : ℕ → Listener → Rpc → Rpc
listen_close i l s =
    let k = s.sockets i in
    record s { sockets = update s.sockets i (record k { on_close = k.on_close ++ l ∷ [] }) }

-- The new socket's address is `created`.
unfoldable pub create_instance : Rpc → Rpc
create_instance s =
    let fresh : Socket = record {
      on_open = s.connect_callbacks;
      on_close = map callback s.disconnect_callbacks;
    } in
    record s { sockets = update s.sockets s.created fresh; created = s.created + 1 }

-- `RibsRPC.instance = RibsRPC.createInstance(); RibsRPC.autoReconnect();`: in `autoReconnect` the
-- call of `get` finds the instance that was just set.
unfoldable pub connect : Rpc → Rpc
unfolding create_instance
connect s =
    let made = create_instance s in
    listen_close s.created reconnect (record made { address = some s.created })

unfoldable pub get : Rpc → Rpc × ℕ
get s = elim s.address [ none ↦ (connect s, s.created) | some i ↦ (s, i) ]

unfoldable pub on_connect : ℕ → Rpc → Rpc
on_connect c s =
    let (s', i) = get (record s { connect_callbacks = s.connect_callbacks ++ c ∷ [] }) in
    listen_open i c s'

unfoldable pub on_disconnect : ℕ → Rpc → Rpc
on_disconnect c s =
    let (s', i) = get (record s { disconnect_callbacks = s.disconnect_callbacks ++ c ∷ [] }) in
    listen_close i (callback c) s'

-- How many listeners are those of `autoReconnect`.
abbrev pub reconnects : List Listener → ℕ
reconnects [] = 0
reconnects (callback c ∷ ls) = reconnects ls
reconnects (reconnect ∷ ls) = suc (reconnects ls)

-- What happens to the connection: calls of its methods, a socket that closes, a timer that fires.
pub data Event : Type 0 where
  use_instance : Event
  register_connect : ℕ → Event
  register_disconnect : ℕ → Event
  closed : ℕ → Event
  timer : Event

-- Each listener of `autoReconnect` on a socket that closes sets one timer.
unfoldable pub step : Rpc → Event → Rpc
step s use_instance = (get s).0
step s (register_connect c) = on_connect c s
step s (register_disconnect c) = on_disconnect c s
step s (closed i) = record s { timers = s.timers + reconnects (s.sockets i).on_close }
step s timer = if s.timers == 0 then s else connect (record s { timers = s.timers - 1 })

unfoldable pub run : Rpc → List Event → Rpc
run s [] = s
run s (e ∷ es) = run (step s e) es
