-- ===== src/Pool/Outcome.antt =====
-- A run that ends: with a result that satisfies `P`, or at a failed `assert`, for the reason `Q`.
use gfhttpd.Base.{Run, ok, abort}
use gfhttpd.Pool.Heap.{Memory, Cmd, and_then}

pub data Returns {A : Type 0} (Q : Type 0) (P : A → Memory → Type 0)
    : Run (A × Memory) → Type 0 where
  returns : {x : A} {m : Memory} → P x m → Returns Q P (ok (x, m))
  aborts : Q → Returns Q P abort

module _ {A : Type 0} {Q : Type 0} {P : A → Memory → Type 0} where
  pub bind :
      {B : Type 0} {R : B → Memory → Type 0} {r : Run (A × Memory)} {k : A → Cmd B}
      → Returns Q P r
      → ((x : A) (m : Memory) → P x m → Returns Q R (k x m))
      → Returns Q R (and_then r k)
  bind (returns p) next = next _ _ p
  bind (aborts q) next = aborts q

  pub mono :
      {R : A → Memory → Type 0} {r : Run (A × Memory)}
      → Returns Q P r
      → ((x : A) (m : Memory) → P x m → R x m)
      → Returns Q R r
  mono (returns p) weaken = returns (weaken _ _ p)
  mono (aborts q) weaken = aborts q

  -- The reason restated.
  pub because : {Q' : Type 0} {r : Run (A × Memory)} → (Q → Q') → Returns Q P r → Returns Q' P r
  because reason (returns p) = returns p
  because reason (aborts q) = aborts (reason q)
