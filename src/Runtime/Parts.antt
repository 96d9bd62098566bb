-- ===== src/Runtime/Parts.antt =====
-- runtime/src/lib.rs: an invariant of the store, from one of the part that a call writes.
use konomi_node.Base.{Outcome, ok, err, panic, Action}
use konomi_node.Base.Keeps.{Keeps, Ends}
use konomi_node.Runtime.State.{Chain}
use konomi_node.Runtime.Calls.{DispatchError, on_part}

on_part-Ends :
    {E S : Type 0} (P : S → Type 0) (Q : Chain → Type 0) (wrap : E → DispatchError)
    (put : Chain → S → Chain) (c : Chain) (o : Outcome E S (Unit {0}))
    → ((s : S) → P s → Q (put c s))
    → Ends P o
    → Ends Q (elim o as (λ _. Outcome DispatchError Chain (Unit {0})) [
      | ok _ s ↦ ok tt (put c s)
      | err e s ↦ err (wrap e) (put c s)
      | panic ↦ panic
    ])
on_part-Ends P Q wrap put c (ok _ s) k h = k s h
on_part-Ends P Q wrap put c (err e s) k h = k s h
on_part-Ends P Q wrap put c panic k h = tt

-- Where `P` of the part follows from `Q` of the store, and gives it back.
pub on_part-Keeps :
    {E S : Type 0} (wrap : E → DispatchError) (get : Chain → S) (put : Chain → S → Chain)
    (P : S → Type 0) (Q : Chain → Type 0) {m : Action E S (Unit {0})}
    → ((c : Chain) → Q c → P (get c))
    → ((c : Chain) → Q c → (s : S) → P s → Q (put c s))
    → Keeps P m
    → Keeps Q (on_part wrap get put m)
unfolding on_part
on_part-Keeps wrap get put P Q {m = m} into from k = record {
  at = λ c h. on_part-Ends P Q wrap put c (m (get c)) (from c h) (k.at (get c) (into c h));
}
