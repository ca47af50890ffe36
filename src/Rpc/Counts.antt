-- ===== src/Rpc/Counts.antt =====
-- Counting listeners.
use ribs.Base.{ℕ, suc, ◌+◌, ◌≡◌, refl, List, [], ◌∷◌, ◌++◌, map, arith, ◌==◌, if◌then◌else◌}
use ribs.Rpc.Connection.{Listener, callback, reconnect, reconnects}

abbrev pub count : ℕ → List ℕ → ℕ
count c [] = 0
count c (x ∷ xs) = if x == c then suc (count c xs) else count c xs

abbrev pub count_callback : ℕ → List Listener → ℕ
count_callback c [] = 0
count_callback c (callback x ∷ ls) =
    if x == c then suc (count_callback c ls) else count_callback c ls
count_callback c (reconnect ∷ ls) = count_callback c ls

pub count-append : (c : ℕ) (xs ys : List ℕ) → count c (xs ++ ys) ≡ count c xs + count c ys
count-append c [] ys = omega arith
count-append c (x ∷ xs) ys = ground (arith, count-append c xs ys)

pub count_callback-append :
    (c : ℕ) (xs ys : List Listener)
    → count_callback c (xs ++ ys) ≡ count_callback c xs + count_callback c ys
count_callback-append c [] ys = omega arith
count_callback-append c (callback x ∷ xs) ys = ground (arith, count_callback-append c xs ys)
count_callback-append c (reconnect ∷ xs) ys = count_callback-append c xs ys

pub count_callback-map : (c : ℕ) (xs : List ℕ) → count_callback c (map callback xs) ≡ count c xs
count_callback-map c [] = refl
count_callback-map c (x ∷ xs) = ground (arith, count_callback-map c xs)

pub reconnects-append :
    (xs ys : List Listener) → reconnects (xs ++ ys) ≡ reconnects xs + reconnects ys
reconnects-append [] ys = omega arith
reconnects-append (callback x ∷ xs) ys = reconnects-append xs ys
reconnects-append (reconnect ∷ xs) ys = omega (arith, reconnects-append xs ys)

pub reconnects-map : (xs : List ℕ) → reconnects (map callback xs) ≡ 0
reconnects-map [] = refl
reconnects-map (x ∷ xs) = reconnects-map xs
