-- ===== src/Rpc/Exactly.antt =====
-- How often the socket in use has the callbacks of helpers/rpc.js.
use mathlib.Core.Path.{subst}
use mathlib.Core.List.{append_assoc}
use ribs.Base.{
  ◌⊎◌, ℕ, ◌+◌, ◌-◌, ◌<◌, ◌≡◌, refl, sym, ap, ◌∙◌, inl, inr, some, List, [], ◌∷◌, ◌++◌, map, arith,
  Bool-cases, ==_self, ==_ne, ◌==◌, if◌then◌else◌,
}
use ribs.Rpc.Callbacks.{connect-socket_self, connect-address, connect-callbacks, get-some}
use ribs.Rpc.Registered.{registered_connect, registered_disconnect, run-registered}
use ribs.Rpc.Connection.{
  Listener, callback, reconnect, Rpc, start, get, connect, create_instance, on_connect,
  on_disconnect, Event, use_instance, register_connect, register_disconnect, closed, timer, step,
  run,
}

-- The callbacks among the listeners of "close".
abbrev pub callbacks : List Listener → List ℕ
callbacks [] = []
callbacks (callback c ∷ ls) = c ∷ callbacks ls
callbacks (reconnect ∷ ls) = callbacks ls

-- The callback that the first registration leaves twice on the first socket, for "open" and for
-- "close": none where something used the connection before it. A close and a timer come to nothing
-- before the first socket.
abbrev pub doubled_open : List Event → List ℕ
doubled_open [] = []
doubled_open (use_instance ∷ es) = []
doubled_open (register_connect c ∷ es) = c ∷ []
doubled_open (register_disconnect c ∷ es) = []
doubled_open (closed i ∷ es) = doubled_open es
doubled_open (timer ∷ es) = doubled_open es

abbrev pub doubled_close : List Event → List ℕ
doubled_close [] = []
doubled_close (use_instance ∷ es) = []
doubled_close (register_connect c ∷ es) = []
doubled_close (register_disconnect c ∷ es) = c ∷ []
doubled_close (closed i ∷ es) = doubled_close es
doubled_close (timer ∷ es) = doubled_close es

callbacks-append : (xs ys : List Listener) → callbacks (xs ++ ys) ≡ callbacks xs ++ callbacks ys
callbacks-append [] ys = refl
callbacks-append (callback c ∷ xs) ys = rw (callbacks-append xs ys) refl
callbacks-append (reconnect ∷ xs) ys = callbacks-append xs ys

callbacks-map : (xs : List ℕ) → callbacks (map callback xs ++ reconnect ∷ []) ≡ xs
callbacks-map [] = refl
callbacks-map (x ∷ xs) = rw (callbacks-map xs) refl

-- What the first socket has besides.
abbrev pub besides : ℕ → List ℕ → List ℕ
besides i extra = if i == 0 then extra else []

-- The socket in use is the last one, and has the callbacks in order, behind `a` and `b` if it is the
-- first one.
pub record IsExactly (a b : List ℕ) (s : Rpc) (i : ℕ) : Type 0 where
  pub address : s.address ≡ some i
  pub created : s.created ≡ i + 1
  pub opens : (s.sockets i).on_open ≡ besides i a ++ s.connect_callbacks
  pub closes : callbacks (s.sockets i).on_close ≡ besides i b ++ s.disconnect_callbacks

module _ (a b : List ℕ) where
  connect-IsExactly : (s : Rpc) → 0 < s.created → IsExactly a b (connect s) s.created
  connect-IsExactly s pos =
      let (connects, disconnects) = connect-callbacks s in
      record {
        address = (connect-address s).0;
        created = (connect-address s).1;
        opens = rw (connect-socket_self s, connects, ==_ne s.created 0 (omega arith)) refl;
        closes =
            rw (connect-socket_self s, disconnects, ==_ne s.created 0 (omega arith))
              (callbacks-map s.disconnect_callbacks);
      }

  on_connect-IsExactly :
      (c : ℕ) (s : Rpc) (i : ℕ) → IsExactly a b s i → IsExactly a b (on_connect c s) i
  unfolding on_connect
  on_connect-IsExactly c s i v =
      rw (get-some (record s { connect_callbacks = s.connect_callbacks ++ c ∷ [] }) i v.address)
        (record {
          address = v.address;
          created = v.created;
          opens = rw (==_self i, v.opens) (append_assoc (besides i a) s.connect_callbacks (c ∷ []));
          closes = rw (==_self i) v.closes;
        })

  on_disconnect-IsExactly :
      (c : ℕ) (s : Rpc) (i : ℕ) → IsExactly a b s i → IsExactly a b (on_disconnect c s) i
  unfolding on_disconnect
  on_disconnect-IsExactly c s i v =
      rw
        (get-some (record s { disconnect_callbacks = s.disconnect_callbacks ++ c ∷ [] }) i
          v.address)
        (record {
          address = v.address;
          created = v.created;
          opens = rw (==_self i) v.opens;
          closes =
              rw (==_self i, callbacks-append (s.sockets i).on_close (callback c ∷ []), v.closes)
                (append_assoc (besides i b) s.disconnect_callbacks (c ∷ []));
        })

  step-IsExactly :
      (s : Rpc) (i : ℕ) (e : Event) → IsExactly a b s i → (j : ℕ) × IsExactly a b (step s e) j
  unfolding step
  step-IsExactly s i use_instance v =
      (i, subst (λ (p : Rpc × ℕ). IsExactly a b p.0 i) (sym (get-some s i v.address)) v)
  step-IsExactly s i (register_connect c) v = (i, on_connect-IsExactly c s i v)
  step-IsExactly s i (register_disconnect c) v = (i, on_disconnect-IsExactly c s i v)
  step-IsExactly s i (closed k) v =
      (i, record { address = v.address; created = v.created; opens = v.opens; closes = v.closes })
  step-IsExactly s i timer v = elim (Bool-cases (s.timers == 0)) [
    | inl e ↦ (i, rw e v)
    | inr e ↦ (
      s.created,
      rw e (connect-IsExactly (record s { timers = s.timers - 1 }) (omega (arith, v.created))),
    )
  ]

  run-IsExactly :
      (es : List Event) (s : Rpc) (i : ℕ) → IsExactly a b s i → (j : ℕ) × IsExactly a b (run s es) j
  unfolding run
  run-IsExactly [] s i v = (i, v)
  run-IsExactly (e ∷ es) s i v =
      let (j, w) = step-IsExactly s i e v in run-IsExactly es (step s e) j w

-- The first use of the connection.
first_get : IsExactly [] [] (get start).0 0
unfolding get connect create_instance
first_get = record { address = refl; created = refl; opens = refl; closes = refl }

first_connect : (c : ℕ) → IsExactly (c ∷ []) [] (on_connect c start) 0
unfolding on_connect get connect create_instance
first_connect c = record { address = refl; created = refl; opens = refl; closes = refl }

first_disconnect : (c : ℕ) → IsExactly [] (c ∷ []) (on_disconnect c start) 0
unfolding on_disconnect get connect create_instance
first_disconnect c = record { address = refl; created = refl; opens = refl; closes = refl }

start-IsExactly :
    (es : List Event)
    → (run start es ≡ start)
      ⊎ ((i : ℕ) × IsExactly (doubled_open es) (doubled_close es) (run start es) i)
unfolding run step
start-IsExactly [] = inl refl
start-IsExactly (use_instance ∷ es) = inr (run-IsExactly [] [] es (get start).0 0 first_get)
start-IsExactly (register_connect c ∷ es) =
    inr (run-IsExactly (c ∷ []) [] es (on_connect c start) 0 (first_connect c))
start-IsExactly (register_disconnect c ∷ es) =
    inr (run-IsExactly [] (c ∷ []) es (on_disconnect c start) 0 (first_disconnect c))
start-IsExactly (closed i ∷ es) = start-IsExactly es
start-IsExactly (timer ∷ es) = start-IsExactly es

-- The same against what the events register.
pub record HasRegistered (es : List Event) (s : Rpc) (i : ℕ) : Type 0 where
  pub address : s.address ≡ some i
  pub created : s.created ≡ i + 1
  pub opens : (s.sockets i).on_open ≡ besides i (doubled_open es) ++ registered_connect es
  pub closes :
      callbacks (s.sockets i).on_close ≡ besides i (doubled_close es) ++ registered_disconnect es

-- Whatever was called, closed and waited for: either there is no socket yet, and nothing has been
-- given to `onConnect` and `onDisconnect`; or the socket in use is the last one made and has, in
-- their order and each as often as it was given, the callbacks that these events give to `onConnect`
-- and those that they give to `onDisconnect`. On the first socket alone, the callback of a
-- registration that was the first use of the connection stands once more, in front.
pub run-in_order :
    (es : List Event)
    → ((run start es ≡ start) × (registered_connect es ≡ []) × (registered_disconnect es ≡ []))
      ⊎ ((i : ℕ) × HasRegistered es (run start es) i)
run-in_order es =
    let (connects, disconnects) = run-registered start es in
    elim (start-IsExactly es) [
      | inl e ↦ inl (
        e,
        sym connects ∙ ap (λ (s : Rpc). s.connect_callbacks) e,
        sym disconnects ∙ ap (λ (s : Rpc). s.disconnect_callbacks) e,
      )
      | inr (i, v) ↦ inr (
        i,
        record {
          address = v.address;
          created = v.created;
          opens = v.opens ∙ ap (λ xs. besides i (doubled_open es) ++ xs) connects;
          closes = v.closes ∙ ap (λ xs. besides i (doubled_close es) ++ xs) disconnects;
        },
      )
    ]
