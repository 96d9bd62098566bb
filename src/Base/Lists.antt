-- ===== src/Base/Lists.antt =====
-- Lists of identifiers as the pallets' sets: membership, `retain`, and sums over a list.
use Prim.Native.Nat.{ℕ, ◌+◌, ◌≤◌}
use mathlib.Core.Path.{◌≡◌, refl}
use mathlib.Core.Logic.{◌≢◌}
use mathlib.Core.Bool.{Bool, true, false, ◌||◌}
use mathlib.Core.List.{List, [], ◌∷◌, ◌++◌}
use native.Mathlib.Omega.{arith}
use konomi_node.Base.Tests.{◌==◌, if◌then◌else◌}
use konomi_node.Base.Maps.{update, update₂}

-- `xs.iter().any(|x| *x == a)`
abbrev pub contains : ℕ → List ℕ → Bool
contains a [] = false
contains a (x ∷ xs) = x == a || contains a xs

-- `xs.retain(|x| *x != a)`
abbrev pub retain_ne : ℕ → List ℕ → List ℕ
retain_ne a [] = []
retain_ne a (x ∷ xs) = if x == a then retain_ne a xs else x ∷ retain_ne a xs

-- No identifier is listed twice.
abbrev pub Distinct : List ℕ → Type 0
Distinct [] = Unit {0}
Distinct (x ∷ xs) = (contains x xs ≡ false) × Distinct xs

-- The sum of `f` over a list.
abbrev pub sum_by : (ℕ → ℕ) → List ℕ → ℕ
sum_by f [] = 0
sum_by f (x ∷ xs) = f x + sum_by f xs

pub contains-retain_ne :
    (a b : ℕ) (xs : List ℕ)
    → contains b (retain_ne a xs) ≡ (if a == b then false else contains b xs)
contains-retain_ne a b [] = ground arith
contains-retain_ne a b (x ∷ xs) = ground (arith, contains-retain_ne a b xs)

pub contains-push :
    (a b : ℕ) (xs : List ℕ) → contains b (xs ++ a ∷ []) ≡ (if a == b then true else contains b xs)
contains-push a b [] = ground arith
contains-push a b (x ∷ xs) = ground (arith, contains-push a b xs)

pub retain_ne-Distinct : (a : ℕ) (xs : List ℕ) → Distinct xs → Distinct (retain_ne a xs)
retain_ne-Distinct a [] d = tt
retain_ne-Distinct a (x ∷ xs) d =
    ground (arith, retain_ne-Distinct a xs d.1, contains-retain_ne a x xs)

pub push-Distinct :
    (a : ℕ) (xs : List ℕ) → contains a xs ≡ false → Distinct xs → Distinct (xs ++ a ∷ [])
push-Distinct a [] h d = (refl, tt)
push-Distinct a (x ∷ xs) h d = ground (arith, push-Distinct a xs, contains-push a x xs)

pub sum_by-update_absent :
    (f : ℕ → ℕ) (k v : ℕ) (xs : List ℕ)
    → contains k xs ≡ false
    → sum_by (update f k v) xs ≡ sum_by f xs
sum_by-update_absent f k v [] h = refl
sum_by-update_absent f k v (x ∷ xs) h = ground (arith, sum_by-update_absent f k v xs)

pub sum_by-update :
    (f : ℕ → ℕ) (k v : ℕ) (xs : List ℕ)
    → Distinct xs
    → contains k xs ≡ true
    → sum_by (update f k v) xs + f k ≡ sum_by f xs + v
sum_by-update f k v [] d h = cc
sum_by-update f k v (x ∷ xs) d h =
    ground (arith, sum_by-update f k v xs d.1, sum_by-update_absent f k v xs)

-- The sum over one row of a double map, after one entry of row `id` was written.
pub sum_by-update₂ :
    (f : ℕ → ℕ → ℕ) (id k v j : ℕ) (xs : List ℕ)
    → sum_by (update₂ f id k v j) xs
      ≡ (if id == j then sum_by (update (f j) k v) xs else sum_by (f j) xs)
sum_by-update₂ f id k v j [] = ground arith
sum_by-update₂ f id k v j (x ∷ xs) = ground (arith, sum_by-update₂ f id k v j xs)

-- A member's value is at most the sum, and so are the values of two members together.
pub le-sum_by : (f : ℕ → ℕ) (k : ℕ) (xs : List ℕ) → contains k xs ≡ true → f k ≤ sum_by f xs
le-sum_by f k [] h = cc
le-sum_by f k (x ∷ xs) h = ground (arith, le-sum_by f k xs)

pub add-le-sum_by :
    (f : ℕ → ℕ) (k l : ℕ) (xs : List ℕ)
    → k ≢ l
    → contains k xs ≡ true
    → contains l xs ≡ true
    → f k + f l ≤ sum_by f xs
add-le-sum_by f k l [] ne hk hl = cc
add-le-sum_by f k l (x ∷ xs) ne hk hl =
    ground (arith, add-le-sum_by f k l xs, le-sum_by f k xs, le-sum_by f l xs)

-- The number of elements, as a native number.
abbrev pub length {ℓ} : {A : Type ℓ} → List A → ℕ
length [] = 0
length (x ∷ xs) = 1 + length xs
