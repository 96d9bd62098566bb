-- ===== src/Base/Triples.antt =====
-- Postconditions of calls: `Q` of the result and the state where a call succeeds, `I` of the
-- state where it returns an error; a panic leaves no state to speak of.
use mathlib.Core.Path.{◌≡◌, refl}
use mathlib.Core.Bool.{Bool, true, false}
use mathlib.Core.Option.{Option, none, some}
use konomi_node.Base.Runtime.{
  Outcome, ok, err, panic, Action, ◌>>=◌, ◌>>◌, or_panic, ok_or, ensure, after,
}

pub data Post {E S A : Type 0} (Q : A → S → Type 0) (I : S → Type 0) : Outcome E S A → Type 0 where
  succeeds : {a : A} {s : S} → Q a s → Post Q I (ok a s)
  refuses : {e : E} {s : S} → I s → Post Q I (err e s)
  panics : Post Q I panic

module _ {E S A : Type 0} where
  -- A call whose every end keeps `I` keeps it in the state that is left.
  pub Post-after :
      {I : S → Type 0} {o : Outcome E S A} (s : S) → I s → Post (λ _ s'. I s') I o → I (after s o)
  Post-after s i (succeeds p) = p
  Post-after s i (refuses p) = p
  Post-after s i panics = i

  pub Post-map :
      {Q R : A → S → Type 0} {I J : S → Type 0} {o : Outcome E S A}
      → ((a : A) (s : S) → Q a s → R a s)
      → ((s : S) → I s → J s)
      → Post Q I o
      → Post R J o
  Post-map f g (succeeds p) = succeeds (f _ _ p)
  Post-map f g (refuses p) = refuses (g _ p)
  Post-map f g panics = panics

  pub Post-ok :
      {Q : A → S → Type 0} {I : S → Type 0} {a : A} {s : S} → Post {E = E} Q I (ok a s) → Q a s
  Post-ok (succeeds p) = p

module _ {E S A B : Type 0} where
  case_of :
      {Q : A → S → Type 0} {R : B → S → Type 0} {I : S → Type 0} {o : Outcome E S A}
      (f : A → Action E S B)
      → Post Q I o
      → ((a : A) (s' : S) → Q a s' → Post R I (f a s'))
      → Post R I (elim o [ ok a s' ↦ f a s' | err e s' ↦ err e s' | panic ↦ panic ])
  case_of f (succeeds p) k = k _ _ p
  case_of f (refuses p) k = refuses p
  case_of f panics k = panics

  pub Post->>= :
      {Q : A → S → Type 0} {R : B → S → Type 0} {I : S → Type 0} (m : Action E S A)
      (f : A → Action E S B) (s : S)
      → Post Q I (m s)
      → ((a : A) (s' : S) → Q a s' → Post R I (f a s'))
      → Post R I ((m >>= f) s)
  Post->>= m f s p k = case_of f p k

  pub Post-or_panic :
      {R : B → S → Type 0} {I : S → Type 0} (o : Option A) (f : A → Action E S B) (s : S)
      → ((a : A) → o ≡ some a → Post R I (f a s))
      → Post R I ((or_panic o >>= f) s)
  Post-or_panic none f s k = panics
  Post-or_panic (some a) f s k = k a refl

  pub Post-ok_or :
      {R : B → S → Type 0} {I : S → Type 0} (o : Option A) (e : E) (f : A → Action E S B) (s : S)
      → I s
      → ((a : A) → o ≡ some a → Post R I (f a s))
      → Post R I ((ok_or o e >>= f) s)
  Post-ok_or none e f s i k = refuses i
  Post-ok_or (some a) e f s i k = k a refl

module _ {E S B : Type 0} where
  pub Post-ensure :
      {R : B → S → Type 0} {I : S → Type 0} (b : Bool) (e : E) (m : Action E S B) (s : S)
      → I s
      → (b ≡ true → Post R I (m s))
      → Post R I ((ensure b e >> m) s)
  Post-ensure true e m s i k = k refl
  Post-ensure false e m s i k = refuses i

module _ {E S A : Type 0} where
  pub Post-or_panic_last :
      {R : A → S → Type 0} {I : S → Type 0} (o : Option A) (s : S)
      → ((a : A) → o ≡ some a → R a s)
      → Post {E = E} R I (or_panic o s)
  Post-or_panic_last none s k = panics
  Post-or_panic_last (some a) s k = succeeds (k a refl)
