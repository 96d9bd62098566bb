-- ===== src/Base/Maps.antt =====
-- A storage map as a function with the map's default, and a double map as a curried one.
use Prim.Native.Nat.{ℕ}
use konomi_node.Base.Tests.{◌==◌, if◌then◌else◌}

abbrev pub update : {A : Type 0} → (ℕ → A) → ℕ → A → ℕ → A
update f k v j = if k == j then v else f j

abbrev pub update₂ : {A : Type 0} → (ℕ → ℕ → A) → ℕ → ℕ → A → ℕ → ℕ → A
update₂ f k l v j i = if k == j then (if l == i then v else f j i) else f j i
