-- ===== src/Base/Words.antt =====
-- Unsigned machine words. `size` is 2 ^ width. Rust's operators panic on overflow where the
-- build has overflow checks (debug and test builds), and wrap where it has none (release).
use Prim.Native.Nat.{ℕ, ◌+◌, ◌-◌, ◌*◌, ◌/◌, ◌%◌, ◌^◌, ◌≤◌, ◌<◌}
use mathlib.Core.Path.{◌≡◌}
use mathlib.Core.Bool.{Bool, true}
use mathlib.Core.Logic.{◌≢◌}
use mathlib.Core.Option.{Option, none, some}
use native.Mathlib.Omega.{arith}
use native.Mathlib.Nat.{mod-lt}
use konomi_node.Base.Tests.{ltb, leb, ◌==◌, if◌then◌else◌}

abbrev pub u32_size : ℕ
u32_size = 2 ^ 32

abbrev pub u64_size : ℕ
u64_size = 2 ^ 64

abbrev pub u128_size : ℕ
u128_size = 2 ^ 128

-- The result of an operator whose exact value is `exact`, and which wraps to `wrapped`.
abbrev pub or_wrap : Bool → Bool → ℕ → ℕ → Option ℕ
or_wrap fits checks exact wrapped =
    if fits then some exact else if checks then none else some wrapped

unfoldable pub add_word : ℕ → Bool → ℕ → ℕ → Option ℕ
add_word size checks a b = or_wrap (ltb (a + b) size) checks (a + b) ((a + b) % size)

unfoldable pub sub_word : ℕ → Bool → ℕ → ℕ → Option ℕ
sub_word size checks a b = or_wrap (leb b a) checks (a - b) ((a + size - b) % size)

unfoldable pub mul_word : ℕ → Bool → ℕ → ℕ → Option ℕ
mul_word size checks a b = or_wrap (ltb (a * b) size) checks (a * b) ((a * b) % size)

-- Division by zero panics in every build.
unfoldable pub div_word : ℕ → ℕ → Option ℕ
div_word a b = if b == 0 then none else some (a / b)

pub add_word_fits :
    (size : ℕ) (checks : Bool) (a b : ℕ) → a + b < size → add_word size checks a b ≡ some (a + b)
unfolding add_word
add_word_fits size checks a b h = ground arith

pub sub_word_fits :
    (size : ℕ) (checks : Bool) (a b : ℕ) → b ≤ a → sub_word size checks a b ≡ some (a - b)
unfolding sub_word
sub_word_fits size checks a b h = ground arith

pub mul_word_fits :
    (size : ℕ) (checks : Bool) (a b : ℕ) → a * b < size → mul_word size checks a b ≡ some (a * b)
unfolding mul_word
mul_word_fits size checks a b h = ground arith

pub div_word_pos : (a b : ℕ) → 0 < b → div_word a b ≡ some (a / b)
unfolding div_word
div_word_pos a b h = ground arith

-- Checked or wrapping, an operator's result is a word, if its operands are.
pub add_word_lt :
    (size : ℕ) (checks : Bool) (a b : ℕ) {c : ℕ}
    → 0 < size
    → add_word size checks a b ≡ some c
    → c < size
unfolding add_word
add_word_lt size checks a b pos h = ground (arith, mod-lt (a + b) {m = size})

pub sub_word_lt :
    (size : ℕ) (checks : Bool) (a b : ℕ) {c : ℕ}
    → a < size
    → sub_word size checks a b ≡ some c
    → c < size
unfolding sub_word
sub_word_lt size checks a b small h = ground (arith, mod-lt (a + size - b) {m = size})

-- With checks, an operator on u128 that gives a result gives the exact one.
pub add_word_exact :
    {checks : Bool}
    → checks ≡ true
    → (a b : ℕ) {c : ℕ} → add_word u128_size checks a b ≡ some c
    → c ≡ a + b
unfolding add_word
add_word_exact checked a b h = ground arith

pub sub_word_exact :
    {checks : Bool}
    → checks ≡ true
    → (a b : ℕ) {c : ℕ} → sub_word u128_size checks a b ≡ some c
    → c + b ≡ a
unfolding sub_word
sub_word_exact checked a b h = ground arith

-- A checked sum with a number that is not zero is not zero.
pub raised_ne_zero :
    (checks : Bool) (a b c : ℕ)
    → checks ≡ true
    → b ≢ 0
    → add_word u128_size checks a b ≡ some c
    → c ≢ 0
unfolding add_word
raised_ne_zero checks a b c h nz e = ground arith
