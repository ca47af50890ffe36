-- ===== src/Rpc/Listeners.antt =====
-- Listeners that are added to a socket keep the invariant.
use mathlib.Core.Path.{subst}
use mathlib.Core.Option.{some-injective}
use ribs.Base.{
  ℕ, ◌≡◌, ◌∙◌, inl, inr, ◌≢◌, some, List, [], ◌∷◌, ◌++◌, arith, Bool-cases, sym, ==_iff, ◌==◌,
}
use ribs.Rpc.Counts.{count-append, count_callback-append, reconnects-append}
use ribs.Rpc.Callbacks.{IsServed, Inv}
use ribs.Rpc.Connection.{callback, Socket, Rpc, update, listen_open, listen_close, reconnects}

-- Changing the socket at `i` by `g`: a fact about the socket at `j` before gives one after.
pub touch :
    (P Q : Socket → Type 0) (sockets : ℕ → Socket) (g : Socket → Socket) (i j : ℕ)
    → (P (sockets j) → Q (g (sockets j)))
    → (i ≢ j → P (sockets j) → Q (sockets j))
    → P (sockets j)
    → Q (update sockets i (g (sockets i)) j)
touch P Q sockets g i j same other h = elim (Bool-cases (i == j)) [
  | inl e ↦
      let e' : i ≡ j = (==_iff i j).0 e in rw e (subst (λ a. Q (g (sockets a))) (sym e') (same h))
  | inr e ↦ rw e (other (λ e'. cc ((==_iff i j).1 e')) h)
]

abbrev opened : ℕ → Socket → Socket
opened c k = record k { on_open = k.on_open ++ c ∷ [] }

abbrev closing : ℕ → Socket → Socket
closing c k = record k { on_close = k.on_close ++ callback c ∷ [] }

pub closing-once :
    (c : ℕ) (k : Socket) → reconnects k.on_close ≡ 1 → reconnects (closing c k).on_close ≡ 1
closing-once c k h = omega (arith, reconnects-append k.on_close (callback c ∷ []))

-- A further listener takes nothing away, and serves one more registration.
module _ (c : ℕ) (xs ys : List ℕ) (k : Socket) (v : IsServed xs ys k) where
  pub opened-IsServed : IsServed xs ys (opened c k)
  opened-IsServed = record {
    opens = λ d. omega (arith, v.opens d, count-append d k.on_open (c ∷ []));
    closes = v.closes;
  }

  pub closing-IsServed : IsServed xs ys (closing c k)
  closing-IsServed = record {
    opens = v.opens;
    closes = λ d. omega (arith, v.closes d, count_callback-append d k.on_close (callback c ∷ []));
  }

  pub opened-serves : IsServed (xs ++ c ∷ []) ys (opened c k)
  opened-serves = record {
    opens = λ d.
        omega (arith, v.opens d, count-append d k.on_open (c ∷ []), count-append d xs (c ∷ []));
    closes = v.closes;
  }

  pub closing-serves : IsServed xs (ys ++ c ∷ []) (closing c k)
  closing-serves = record {
    opens = v.opens;
    closes = λ d. ground (
      arith,
      v.closes d,
      count_callback-append d k.on_close (callback c ∷ []),
      count-append d ys (c ∷ []),
    );
  }

abbrev Once : Socket → Type 0
Once k = reconnects k.on_close ≡ 1

module _ (i c : ℕ) (s : Rpc) (v : Inv s) where
  pub listen_open-Inv : Inv (listen_open i c s)
  listen_open-Inv = record {
    served = λ j e.
        let (lt, served) = v.served j e in
        (
          lt,
          touch (IsServed s.connect_callbacks s.disconnect_callbacks)
              (IsServed s.connect_callbacks s.disconnect_callbacks) s.sockets (opened c) i j
              (opened-IsServed c _ _ _) (λ ne h. h) served,
        );
    once = λ j lt. touch Once Once s.sockets (opened c) i j (λ h. h) (λ ne h. h) (v.once j lt);
  }

  pub listen_close-Inv : Inv (listen_close i (callback c) s)
  listen_close-Inv = record {
    served = λ j e.
        let (lt, served) = v.served j e in
        (
          lt,
          touch (IsServed s.connect_callbacks s.disconnect_callbacks)
              (IsServed s.connect_callbacks s.disconnect_callbacks) s.sockets (closing c) i j
              (closing-IsServed c _ _ _) (λ ne h. h) served,
        );
    once = λ j lt.
        touch Once Once s.sockets (closing c) i j (closing-once c (s.sockets j)) (λ ne h. h)
          (v.once j lt);
  }

  -- Registering on the socket in use.
  pub on_connect-some :
      s.address ≡ some i
      → Inv (listen_open i c (record s { connect_callbacks = s.connect_callbacks ++ c ∷ [] }))
  on_connect-some e = record {
    served = λ j e'.
        let (lt, served) = v.served j e' in
        let same : i ≡ j = some-injective _ _ (sym e ∙ e') in
        (
          lt,
          touch (IsServed s.connect_callbacks s.disconnect_callbacks)
              (IsServed (s.connect_callbacks ++ c ∷ []) s.disconnect_callbacks) s.sockets (opened c)
              i j (opened-serves c _ _ _) (λ ne h. absurd (ne same)) served,
        );
    once = λ j lt. touch Once Once s.sockets (opened c) i j (λ h. h) (λ ne h. h) (v.once j lt);
  }

  pub on_disconnect-some :
      s.address ≡ some i
      → Inv (
          listen_close i
            (callback c)
            (record s { disconnect_callbacks = s.disconnect_callbacks ++ c ∷ [] }))
  on_disconnect-some e = record {
    served = λ j e'.
        let (lt, served) = v.served j e' in
        let same : i ≡ j = some-injective _ _ (sym e ∙ e') in
        (
          lt,
          touch (IsServed s.connect_callbacks s.disconnect_callbacks)
              (IsServed s.connect_callbacks (s.disconnect_callbacks ++ c ∷ [])) s.sockets
              (closing c) i j (closing-serves c _ _ _) (λ ne h. absurd (ne same)) served,
        );
    once = λ j lt.
        touch Once Once s.sockets (closing c) i j (closing-once c (s.sockets j)) (λ ne h. h)
          (v.once j lt);
  }
