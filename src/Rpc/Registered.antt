-- ===== src/Rpc/Registered.antt =====
-- What was given to `onConnect` and `onDisconnect` of helpers/rpc.js, and what its static fields keep.
use mathlib.Core.List.{append-nil, append_assoc}
use ribs.Base.{
  ℕ, ◌-◌, ◌≡◌, refl, ◌∙◌, inl, inr, List, [], ◌∷◌, ◌++◌, ap, Option-cases, Bool-cases, ◌==◌,
}
use ribs.Rpc.Callbacks.{connect-callbacks, get-none, get-some}
use ribs.Rpc.Connection.{
  Rpc, get, on_connect, on_disconnect, Event, use_instance, register_connect, register_disconnect,
  closed, timer, step, run,
}

-- What an event gives to `onConnect`, and to `onDisconnect`.
abbrev pub connect_of : Event → List ℕ
connect_of use_instance = []
connect_of (register_connect c) = c ∷ []
connect_of (register_disconnect c) = []
connect_of (closed i) = []
connect_of timer = []

abbrev pub disconnect_of : Event → List ℕ
disconnect_of use_instance = []
disconnect_of (register_connect c) = []
disconnect_of (register_disconnect c) = c ∷ []
disconnect_of (closed i) = []
disconnect_of timer = []

-- The same for all events, in their order.
abbrev pub registered_connect : List Event → List ℕ
registered_connect [] = []
registered_connect (e ∷ es) = connect_of e ++ registered_connect es

abbrev pub registered_disconnect : List Event → List ℕ
registered_disconnect [] = []
registered_disconnect (e ∷ es) = disconnect_of e ++ registered_disconnect es

-- The fields hold `xs` and `ys`.
abbrev Holds : List ℕ → List ℕ → Rpc → Type 0
Holds xs ys s = (s.connect_callbacks ≡ xs) × (s.disconnect_callbacks ≡ ys)

get-Holds : (s : Rpc) → Holds s.connect_callbacks s.disconnect_callbacks (get s).0
get-Holds s = elim (Option-cases s.address) [
  | inl e ↦ rw (get-none s e) (connect-callbacks s)
  | inr (i, e) ↦ rw (get-some s i e) (refl, refl)
]

step-Holds :
    (s : Rpc) (e : Event)
    → Holds
        (s.connect_callbacks ++ connect_of e)
        (s.disconnect_callbacks ++ disconnect_of e)
        (step s e)
unfolding step on_connect on_disconnect
step-Holds s use_instance =
    rw (append-nil s.connect_callbacks, append-nil s.disconnect_callbacks) (get-Holds s)
step-Holds s (register_connect c) =
    rw (append-nil s.disconnect_callbacks)
      (get-Holds (record s { connect_callbacks = s.connect_callbacks ++ c ∷ [] }))
step-Holds s (register_disconnect c) =
    rw (append-nil s.connect_callbacks)
      (get-Holds (record s { disconnect_callbacks = s.disconnect_callbacks ++ c ∷ [] }))
step-Holds s (closed i) =
    rw (append-nil s.connect_callbacks, append-nil s.disconnect_callbacks) (refl, refl)
step-Holds s timer = elim (Bool-cases (s.timers == 0)) [
  | inl e ↦ rw (e, append-nil s.connect_callbacks, append-nil s.disconnect_callbacks) (refl, refl)
  | inr e ↦
      rw (e, append-nil s.connect_callbacks, append-nil s.disconnect_callbacks)
        (connect-callbacks (record s { timers = s.timers - 1 }))
]

-- The fields keep each registration, behind those before it.
pub run-registered :
    (s : Rpc) (es : List Event)
    → ((run s es).connect_callbacks ≡ s.connect_callbacks ++ registered_connect es)
      × ((run s es).disconnect_callbacks ≡ s.disconnect_callbacks ++ registered_disconnect es)
unfolding run
run-registered s [] =
    rw (append-nil s.connect_callbacks, append-nil s.disconnect_callbacks) (refl, refl)
run-registered s (e ∷ es) =
    let (connects, disconnects) = step-Holds s e in
    let (opens, closes) = run-registered (step s e) es in
    (
      opens
          ∙ ap (λ xs. xs ++ registered_connect es) connects
          ∙ append_assoc s.connect_callbacks (connect_of e) (registered_connect es),
      closes
          ∙ ap (λ xs. xs ++ registered_disconnect es) disconnects
          ∙ append_assoc s.disconnect_callbacks (disconnect_of e) (registered_disconnect es),
    )
