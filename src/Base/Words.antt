-- ===== src/Base/Words.antt =====
-- The machine words of Go: int64 as an integer that wraps, uint32 and uint64 as numbers.
use devplat_agent.Base.Tests.{ltb, if◌then◌else◌}
use devplat_agent.Base.Int.{ℤ, pos, negsuc, ◌+ℤ◌, ◌-ℤ◌, ◌*ℤ◌}
use Prim.Native.Nat.{ℕ, ◌+◌, ◌-◌, ◌%◌, ◌^◌, ◌<◌}
use mathlib.Core.Path.{◌≡◌, refl, sym, ap, ◌∙◌}
use native.Mathlib.Omega.{arith}

-- The value of an integer modulo 2 ^ 64, as its two's complement bit pattern.
abbrev pub to_u64 : ℤ → ℕ
to_u64 (pos n) = n % 2 ^ 64
to_u64 (negsuc n) = 2 ^ 64 - 1 - n % 2 ^ 64

-- The integer that a 64-bit pattern stands for.
abbrev pub of_u64 : ℕ → ℤ
of_u64 n = if ltb n (2 ^ 63) then pos n else negsuc (2 ^ 64 - 1 - n)

-- What an int64 register keeps of an exact result.
unfoldable pub wrap64 : ℤ → ℤ
wrap64 z = of_u64 (to_u64 z)

unfoldable pub add64 : ℤ → ℤ → ℤ
unfolding wrap64 ◌+ℤ◌
add64 a b = wrap64 (a +ℤ b)

unfoldable pub sub64 : ℤ → ℤ → ℤ
unfolding wrap64 ◌-ℤ◌
sub64 a b = wrap64 (a -ℤ b)

unfoldable pub mul64 : ℤ → ℤ → ℤ
unfolding wrap64 ◌*ℤ◌
mul64 a b = wrap64 (a *ℤ b)

-- uint32(z) of a signed integer.
unfoldable pub to_u32 : ℤ → ℕ
to_u32 (pos n) = n % 2 ^ 32
to_u32 (negsuc n) = 2 ^ 32 - 1 - n % 2 ^ 32

pub add64_pos : (a b : ℕ) → a + b < 2 ^ 63 → add64 (pos a) (pos b) ≡ pos (a + b)
unfolding add64
add64_pos a b h = ground arith

-- A sum of two non-negative int64 that leaves the range comes out negative.
pub add64_overflow :
    (a b : ℕ)
    → a < 2 ^ 63
    → b < 2 ^ 63
    → 2 ^ 63 < a + b + 1
    → add64 (pos a) (pos b) ≡ negsuc (2 ^ 64 - 1 - (a + b))
unfolding add64
add64_overflow a b ha hb h = ground arith

add64_overflow_example : add64 (pos 1) (pos (2 ^ 63 - 1)) ≡ negsuc (2 ^ 63 - 1)
unfolding add64
add64_overflow_example = refl

to_u64-of_u64 : (n : ℕ) → n < 2 ^ 64 → to_u64 (of_u64 n) ≡ n
to_u64-of_u64 n h = ground arith

to_u64-lt : (z : ℤ) → to_u64 z < 2 ^ 64
to_u64-lt (pos n) = omega arith
to_u64-lt (negsuc n) = omega arith

to_u64-add : (a b : ℤ) → to_u64 (a +ℤ b) ≡ (to_u64 a + to_u64 b) % 2 ^ 64
unfolding ◌+ℤ◌
to_u64-add (pos m) (pos n) = ground arith
to_u64-add (pos m) (negsuc n) = ground arith
to_u64-add (negsuc m) (pos n) = ground arith
to_u64-add (negsuc m) (negsuc n) = ground arith

add64-words : (a b : ℤ) → add64 a b ≡ of_u64 ((to_u64 a + to_u64 b) % 2 ^ 64)
unfolding add64 wrap64
add64-words a b = ap of_u64 (to_u64-add a b)

-- Two summands may be added in either order.
pub add64_swap : (a b c : ℤ) → add64 (add64 a b) c ≡ add64 (add64 a c) b
add64_swap a b c = add64-words (add64 a b) c ∙ ap of_u64 same ∙ sym (add64-words (add64 a c) b)
  where
    word : (x y : ℤ) → to_u64 (add64 x y) ≡ (to_u64 x + to_u64 y) % 2 ^ 64
    word x y = ap to_u64 (add64-words x y) ∙ to_u64-of_u64 _ (omega arith)

    same : (to_u64 (add64 a b) + to_u64 c) % 2 ^ 64 ≡ (to_u64 (add64 a c) + to_u64 b) % 2 ^ 64
    same = omega (arith, word a b, word a c)
