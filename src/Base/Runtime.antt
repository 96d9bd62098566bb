-- ===== src/Base/Runtime.antt =====
-- A runtime call as a state and error monad. FRAME's dispatchables of this version are not
-- transactional: what was written before an `Err` stays written. A panic aborts the call, and
-- the host discards its writes, so it carries no state.
use Prim.Native.Nat.{ℕ}
use mathlib.Core.Path.{◌≡◌}
use native.Mathlib.Omega.{arith}
use mathlib.Core.Bool.{Bool, true, false}
use mathlib.Core.Option.{Option, none, some}

pub data Outcome (E S A : Type 0) : Type 0 where
  ok : A → S → Outcome E S A
  err : E → S → Outcome E S A
  panic : Outcome E S A

abbrev pub Action : Type 0 → Type 0 → Type 0 → Type 0
Action E S A = S → Outcome E S A

infixl 5 ◌>>=◌ ◌>>◌
abbrev pub ◌>>=◌ : {E S A B : Type 0} → Action E S A → (A → Action E S B) → Action E S B
◌>>=◌ m f s = elim (m s) [ ok a s' ↦ f a s' | err e s' ↦ err e s' | panic ↦ panic ]

abbrev pub ◌>>◌ : {E S A B : Type 0} → Action E S A → Action E S B → Action E S B
m >> k = m >>= λ _. k

module _ {E S A : Type 0} where
  abbrev pub pure : A → Action E S A
  pure a s = ok a s

  abbrev pub fail : E → Action E S A
  fail e s = err e s

  abbrev pub gets : (S → A) → Action E S A
  gets f s = ok (f s) s

  -- A computation that may panic, and reads or writes no storage.
  abbrev pub or_panic : Option A → Action E S A
  or_panic none s = panic
  or_panic (some a) s = ok a s

  -- `o.ok_or(e)?`
  abbrev pub ok_or : Option A → E → Action E S A
  ok_or none e s = err e s
  ok_or (some a) e s = ok a s

-- The state after a call: a panic discards what the call wrote.
abbrev pub after : {E S A : Type 0} → S → Outcome E S A → S
after s (ok _ s') = s'
after s (err _ s') = s'
after s panic = s

module _ {E S : Type 0} where
  abbrev pub modify : (S → S) → Action E S (Unit {0})
  modify f s = ok tt (f s)

  -- `ensure!(test, e)`
  abbrev pub ensure : Bool → E → Action E S (Unit {0})
  ensure true e s = ok tt s
  ensure false e s = err e s

-- A call whose `Result` is dropped: an error is ignored, and a panic still aborts.
abbrev pub ignore_result : {E F S A : Type 0} → Action E S A → Action F S (Unit {0})
ignore_result m s = elim (m s) [ ok _ s' ↦ ok tt s' | err _ s' ↦ ok tt s' | panic ↦ panic ]

-- Nothing of what the call wrote is lost or added by dropping its result.
pub after-ignore_result :
    {E : Type 0} (F : Type 0) {S A : Type 0} (m : Action E S A) (s : S)
    → after s (ignore_result {F = F} m s) ≡ after s (m s)
after-ignore_result F m s = ground arith

-- The answers of FRAME's three checks on the origin of a call.
pub record Origin : Type 0 where
  pub signed_by : Option ℕ
  pub is_root : Bool
  pub is_none : Bool
