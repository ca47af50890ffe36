-- ===== src/Rpc/Callbacks.antt =====
-- The callbacks of helpers/rpc.js on the socket in use, across reconnects.
use mathlib.Core.Option.{some-injective}
use ribs.Base.{
  ℕ, ◌+◌, ◌≤◌, ◌<◌, ◌≡◌, refl, ◌∙◌, inl, inr, none, some, List, [], ◌∷◌, ◌++◌, map, arith,
  Option-cases, Bool-cases, sym, ==_iff, ==_self, ◌==◌, if◌then◌else◌,
}
use ribs.Rpc.Counts.{
  count, count_callback, count_callback-append, count_callback-map, reconnects-append,
  reconnects-map,
}
use ribs.Rpc.Connection.{callback, reconnect, Socket, Rpc, connect, get, reconnects}

-- A socket has every callback at least as often as it was registered.
pub record IsServed (opened closed : List ℕ) (k : Socket) : Type 0 where
  pub opens : (c : ℕ) → count c opened ≤ count c k.on_open
  pub closes : (c : ℕ) → count c closed ≤ count_callback c k.on_close

-- The socket in use serves the app, and each socket reconnects once when it closes.
pub record Inv (s : Rpc) : Type 0 where
  pub served :
      (i : ℕ)
      → s.address ≡ some i
      → (i < s.created) × IsServed s.connect_callbacks s.disconnect_callbacks (s.sockets i)
  pub once : (i : ℕ) → i < s.created → reconnects (s.sockets i).on_close ≡ 1

-- The socket that `connect` makes.
abbrev pub made : Rpc → Socket
made s = record {
  on_open = s.connect_callbacks;
  on_close = map callback s.disconnect_callbacks ++ reconnect ∷ [];
}

pub connect-socket :
    (s : Rpc) (i : ℕ) → (connect s).sockets i ≡ (if s.created == i then made s else s.sockets i)
unfolding connect
connect-socket s i = rw (==_self s.created) (ground arith)

pub connect-socket_self : (s : Rpc) → (connect s).sockets s.created ≡ made s
connect-socket_self s = rw (connect-socket s s.created, ==_self s.created)

pub connect-timers : (s : Rpc) → (connect s).timers ≡ s.timers
unfolding connect
connect-timers s = refl

pub connect-address :
    (s : Rpc) → ((connect s).address ≡ some s.created) × ((connect s).created ≡ s.created + 1)
unfolding connect
connect-address s = (refl, refl)

pub connect-callbacks :
    (s : Rpc)
    → ((connect s).connect_callbacks ≡ s.connect_callbacks)
      × ((connect s).disconnect_callbacks ≡ s.disconnect_callbacks)
unfolding connect
connect-callbacks s = (refl, refl)

pub made-IsServed : (s : Rpc) → IsServed s.connect_callbacks s.disconnect_callbacks (made s)
made-IsServed s = record {
  opens = λ c. omega arith;
  closes = λ c. omega (
    arith,
    count_callback-append c (map callback s.disconnect_callbacks) (reconnect ∷ []),
    count_callback-map c s.disconnect_callbacks,
  );
}

pub made-once : (s : Rpc) → reconnects (made s).on_close ≡ 1
made-once s = omega (
  arith,
  reconnects-append (map callback s.disconnect_callbacks) (reconnect ∷ []),
  reconnects-map s.disconnect_callbacks,
)

pub connect-Inv :
    (s : Rpc) → ((i : ℕ) → i < s.created → reconnects (s.sockets i).on_close ≡ 1) → Inv (connect s)
connect-Inv s v = record {
  served = λ i e.
      let (address, created) = connect-address s in
      let same : s.created ≡ i = some-injective _ _ (sym address ∙ e) in
      let socket : (connect s).sockets i ≡ made s =
        rw (connect-socket s i, (==_iff s.created i).1 same) in
      (
        omega arith,
        rw (socket, (connect-callbacks s).0, (connect-callbacks s).1) (made-IsServed s),
      );
  once = λ i lt. elim (Bool-cases (s.created == i)) [
    | inl e ↦ rw (connect-socket s i, e) (made-once s)
    | inr e ↦
        let (address, created) = connect-address s in
        rw (connect-socket s i, e) (v i (ground arith))
  ];
}

pub get-none : (s : Rpc) → s.address ≡ none → get s ≡ (connect s, s.created)
unfolding get
get-none s e = rw e

pub get-some : (s : Rpc) (i : ℕ) → s.address ≡ some i → get s ≡ (s, i)
unfolding get
get-some s i e = rw e

pub get-Inv : (s : Rpc) → Inv s → Inv (get s).0
get-Inv s v = elim (Option-cases s.address) [
  | inl e ↦ rw (get-none s e) (connect-Inv s v.once)
  | inr (i, e) ↦ rw (get-some s i e) v
]
