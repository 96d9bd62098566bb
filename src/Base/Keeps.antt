-- ===== src/Base/Keeps.antt =====
-- Invariants of calls: one rule for each way to build a call. What a panic leaves is the state
-- before the call.
use mathlib.Core.Bool.{Bool, true, false}
use mathlib.Core.Path.{◌≡◌, refl}
use mathlib.Core.Option.{Option, none, some}
use konomi_node.Base.Tests.{if◌then◌else◌}
use konomi_node.Base.Runtime.{
  Outcome, ok, err, panic, Action, ◌>>=◌, ◌>>◌, pure, fail, gets, or_panic, ok_or, after, modify,
  ensure,
}

-- Where a call ends with a state, it keeps `P`.
abbrev pub Ends : {E S A : Type 0} → (S → Type 0) → Outcome E S A → Type 0
Ends P (ok _ s) = P s
Ends P (err _ s) = P s
Ends P panic = Unit {0}

Ends-after :
    {E S A : Type 0} (P : S → Type 0) (o : Outcome E S A) (s : S) → P s → Ends P o → P (after s o)
Ends-after P (ok _ _) s h e = e
Ends-after P (err _ _) s h e = e
Ends-after P panic s h e = h

-- A predicate of the state after a call is one of its end.
pub after-Ends :
    {E S A : Type 0} (P : S → Type 0) (s : S) (o : Outcome E S A) → P (after s o) → Ends P o
after-Ends P s (ok _ _) h = h
after-Ends P s (err _ _) h = h
after-Ends P s panic h = tt

pub record Keeps {E S A : Type 0} (P : S → Type 0) (m : Action E S A) : Type 0 where
  pub at : (s : S) → P s → Ends P (m s)

-- Every call ends.
pub Keeps-trivial : {E S A : Type 0} (m : Action E S A) → Keeps (λ (s : S). Unit {0}) m
Keeps-trivial m = record { at = λ s h. after-Ends (λ _. Unit {0}) s (m s) tt }

module _ {E S A : Type 0} {P : S → Type 0} where
  pub Keeps-pure : (a : A) → Keeps {E = E} P (pure a)
  Keeps-pure a = record { at = λ s h. h }

  pub Keeps-fail : (e : E) → Keeps {A = A} P (fail e)
  Keeps-fail e = record { at = λ s h. h }

  pub Keeps-gets : (f : S → A) → Keeps {E = E} P (gets f)
  Keeps-gets f = record { at = λ s h. h }

  pub Keeps-or_panic : (o : Option A) → Keeps {E = E} P (or_panic o)
  Keeps-or_panic none = record { at = λ s h. tt }
  Keeps-or_panic (some a) = record { at = λ s h. h }

  pub Keeps-ok_or : (o : Option A) (e : E) → Keeps P (ok_or o e)
  Keeps-ok_or none e = record { at = λ s h. h }
  Keeps-ok_or (some a) e = record { at = λ s h. h }

  pub Keeps-if :
      (b : Bool) (m n : Action E S A) → Keeps P m → Keeps P n → Keeps P (if b then m else n)
  Keeps-if true m n km kn = km
  Keeps-if false m n km kn = kn

  pub Keeps-after : {m : Action E S A} → Keeps P m → (s : S) → P s → P (after s (m s))
  Keeps-after {m = m} k s h = Ends-after P (m s) s h (k.at s h)

module _ {E S : Type 0} {P : S → Type 0} where
  pub Keeps-modify : (f : S → S) → ((s : S) → P s → P (f s)) → Keeps {E = E} P (modify f)
  Keeps-modify f k = record { at = k }

  pub Keeps-ensure : (b : Bool) (e : E) → Keeps P (ensure b e)
  Keeps-ensure true e = record { at = λ s h. h }
  Keeps-ensure false e = record { at = λ s h. h }

module _ {E S A B : Type 0} {P : S → Type 0} where
  bind-Ends :
      (o : Outcome E S A) (f : A → Action E S B)
      → Ends P o
      → ((a : A) → Keeps P (f a))
      → Ends P (elim o [ ok a s' ↦ f a s' | err e s' ↦ err e s' | panic ↦ panic ])
  bind-Ends (ok a s) f h k = (k a).at s h
  bind-Ends (err e s) f h k = h
  bind-Ends panic f h k = tt

  pub Keeps-bind :
      (m : Action E S A) (f : A → Action E S B)
      → Keeps P m
      → ((a : A) → Keeps P (f a))
      → Keeps P (m >>= f)
  Keeps-bind m f km kf = record { at = λ s h. bind-Ends (m s) f (km.at s h) kf }

  pub Keeps-then : (m : Action E S A) (n : Action E S B) → Keeps P m → Keeps P n → Keeps P (m >> n)
  Keeps-then m n km kn = Keeps-bind m (λ _. n) km (λ _. kn)

module _ {E S A B : Type 0} {P : S → Type 0} where
  pub Keeps-bind-given :
      {a : A} (o : Option A) (e : E) (f : A → Action E S B)
      → o ≡ some a
      → Keeps P (f a)
      → Keeps P (ok_or o e >>= f)
  Keeps-bind-given o e f h k = rw h (record { at = k.at })

  pub Keeps-bind-refused :
      (o : Option A) (e : E) (f : A → Action E S B) → o ≡ none → Keeps P (ok_or o e >>= f)
  Keeps-bind-refused o e f h = rw h (record { at = λ s p. p })

  -- The rest of the call may use what the value is.
  pub Keeps-bind-some :
      (o : Option A) (e : E) (f : A → Action E S B)
      → ((a : A) → o ≡ some a → Keeps P (f a))
      → Keeps P (ok_or o e >>= f)
  Keeps-bind-some none e f k = record { at = λ s h. h }
  Keeps-bind-some (some a) e f k = record { at = λ s h. (k a refl).at s h }

  pub Keeps-bind-unwrap :
      (o : Option A) (f : A → Action E S B)
      → ((a : A) → o ≡ some a → Keeps P (f a))
      → Keeps P (or_panic o >>= f)
  Keeps-bind-unwrap none f k = record { at = λ s h. tt }
  Keeps-bind-unwrap (some a) f k = record { at = λ s h. (k a refl).at s h }

  -- The rest of the call may use what the invariant says of the value that is read.
  pub Keeps-bind-gets :
      (Q : A → Type 0) (g : S → A) (f : A → Action E S B)
      → ((s : S) → P s → Q (g s))
      → ((a : A) → Q a → Keeps P (f a))
      → Keeps P (gets g >>= f)
  Keeps-bind-gets Q g f q k = record { at = λ s h. (k (g s) (q s h)).at s h }

-- Two invariants at once.
both-Ends :
    {E S A : Type 0} (P Q : S → Type 0) (o : Outcome E S A)
    → Ends P o
    → Ends Q o
    → Ends (λ s. P s × Q s) o
both-Ends P Q (ok _ s) p q = (p, q)
both-Ends P Q (err _ s) p q = (p, q)
both-Ends P Q panic p q = tt

pub Keeps-both :
    {E S A : Type 0} {P Q : S → Type 0} {m : Action E S A}
    → Keeps P m
    → Keeps Q m
    → Keeps (λ s. P s × Q s) m
Keeps-both {P = P} {Q = Q} {m = m} p q = record {
  at = λ s h. both-Ends P Q (m s) (p.at s h.0) (q.at s h.1);
}

pub ruleset keeps_rules = (
  Keeps-pure, Keeps-fail, Keeps-gets, Keeps-or_panic, Keeps-ok_or, Keeps-if, Keeps-ensure,
  Keeps-bind, Keeps-then,
)

-- The same, where what follows may use that a value was computed.
pub ruleset value_rules = (
  Keeps-pure, Keeps-fail, Keeps-gets, Keeps-ok_or, Keeps-if, Keeps-ensure, Keeps-bind-unwrap,
  Keeps-bind, Keeps-then,
)
