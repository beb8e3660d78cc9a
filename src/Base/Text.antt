-- ===== src/Base/Text.antt =====
-- Go strings as lists of bytes: literals, equality, and the decimal notation of strconv.
use devplat_agent.Base.Tests.{leb, Bool-cases, ltb, ◌==◌, if◌then◌else◌}
use devplat_agent.Base.Int.{ℤ, pos, negsuc}
use Prim.Native.Nat.{ℕ, zero, suc, ◌+◌, ◌-◌, ◌*◌, ◌/◌, ◌%◌, ◌^◌, ◌<◌, ◌≤◌}
use Prim.Native.Char.{code}
use Prim.Native.String.{String}
use mathlib.Core.Path.{◌≡◌, refl, sym, ap, ◌∙◌}
use mathlib.Core.Logic.{◌↔◌, inl, inr}
use mathlib.Core.Bool.{Bool, true, false, ◌&&◌}
use mathlib.Core.Option.{Option, none, some}
use mathlib.Core.List.{List, [], ◌∷◌}
use native.Mathlib.Omega.{arith}

abbrev pub Bytes : Type 0
Bytes = List ℕ

-- The bytes of an ASCII literal.
abbrev pub codes : String → Bytes
codes String.[] = []
codes (String.◌∷◌ c s) = code c ∷ codes s

unfoldable pub text_eq : Bytes → Bytes → Bool
text_eq [] [] = true
text_eq (x ∷ xs) (y ∷ ys) = x == y && text_eq xs ys
text_eq [] (y ∷ ys) = false
text_eq (x ∷ xs) [] = false

pub text_eq_iff : (s t : Bytes) → (text_eq s t ≡ true) ↔ (s ≡ t)
unfolding text_eq
text_eq_iff [] [] = ground arith
text_eq_iff (x ∷ xs) (y ∷ ys) = ground (arith, text_eq_iff xs ys)
text_eq_iff [] (y ∷ ys) = ground arith
text_eq_iff (x ∷ xs) [] = ground arith

pub text_eq_refl : (s : Bytes) → text_eq s s ≡ true
text_eq_refl s = (text_eq_iff s s).1 refl

-- strings.HasPrefix
unfoldable pub has_prefix : Bytes → Bytes → Bool
has_prefix s [] = true
has_prefix [] (p ∷ ps) = false
has_prefix (c ∷ s) (p ∷ ps) = c == p && has_prefix s ps

-- The digits of `n` in front of `out`; `fuel` above `n` is enough.
digits : ℕ → ℕ → Bytes → Bytes
digits zero n out = out
digits (suc fuel) n out =
    let rest = digits fuel (n / 10) ((b'0' + n % 10) ∷ out) in
    if ltb n 10 then (b'0' + n) ∷ out else rest

-- strconv.Itoa, and the verb %d.
unfoldable pub itoa : ℤ → Bytes
unfolding digits
itoa (pos n) = digits (suc n) n []
itoa (negsuc n) = b'-' ∷ digits (suc (suc n)) (suc n) []

-- The number that a run of digits stands for, read from the left.
value : ℕ → Bytes → ℕ
value acc [] = acc
value acc (c ∷ s) = value (acc * 10 + (c - b'0')) s

value-digits : (fuel n : ℕ) (out : Bytes) → n < fuel → value 0 (digits fuel n out) ≡ value n out
unfolding digits value
value-digits zero n out h = elim h [ ]
value-digits (suc fuel) n out h = ground (arith, value-digits fuel (n / 10) ((b'0' + n % 10) ∷ out))

digits_injective : (m n : ℕ) → digits (suc m) m [] ≡ digits (suc n) n [] → m ≡ n
unfolding value
digits_injective m n e =
    sym (value-digits (suc m) m [] (omega arith))
    ∙ ap (value 0) e
    ∙ value-digits (suc n) n [] (omega arith)

-- Different numbers have different decimal notations.
pub itoa_injective : (m n : ℕ) → itoa (pos m) ≡ itoa (pos n) → m ≡ n
unfolding itoa
itoa_injective m n e = digits_injective m n e

itoa_example : itoa (negsuc 119) ≡ codes "-120"
unfolding itoa
itoa_example = refl

unfoldable pub is_digit : ℕ → Bool
is_digit c = leb b'0' c && leb c b'9'

-- The number of a run of digits; none if some byte is no digit.
unfoldable pub parse_digits : ℕ → Bytes → Option ℕ
parse_digits acc [] = some acc
parse_digits acc (c ∷ s) =
    let rest = parse_digits (acc * 10 + (c - b'0')) s in if is_digit c then rest else none

parse_number : Bytes → Option ℕ
parse_number [] = none
parse_number (c ∷ s) = parse_digits 0 (c ∷ s)

-- An optional sign, digits, and a value that fits in int64.
unfoldable pub atoi : Bytes → Option ℤ
unfolding parse_number parse_digits is_digit
atoi [] = none
atoi (c ∷ s) =
    if c == b'-'
    then elim (parse_number s) [
      | none ↦ none
      | some zero ↦ some (pos 0)
      | some (suc n) ↦ if ltb n (2 ^ 63) then some (negsuc n) else none
    ]
    else elim (parse_number (if c == b'+' then s else c ∷ s)) [
      | none ↦ none
      | some n ↦ if ltb n (2 ^ 63) then some (pos n) else none
    ]

atoi_examples :
    (atoi (codes "8080") ≡ some (pos 8080))
    × (atoi (codes "-1") ≡ some (negsuc 0))
    × (atoi (codes "80a") ≡ none)
    × (atoi (codes "9223372036854775808") ≡ none)
unfolding atoi
atoi_examples = (refl, refl, refl, refl)

parse_digits-digits :
    (fuel n : ℕ) (out : Bytes) → n < fuel → parse_digits 0 (digits fuel n out) ≡ parse_digits n out
unfolding digits parse_digits is_digit
parse_digits-digits zero n out h = elim h [ ]
parse_digits-digits (suc fuel) n out h =
    ground (arith, parse_digits-digits fuel (n / 10) ((b'0' + n % 10) ∷ out))

-- The first byte of a number is a digit.
digits-head :
    (fuel n : ℕ) (out : Bytes)
    → n < fuel
    → (d : ℕ) × (s : Bytes) × (digits fuel n out ≡ d ∷ s) × (b'0' ≤ d) × (d ≤ b'9')
unfolding digits
digits-head zero n out h = elim h [ ]
digits-head (suc fuel) n out h = elim (Bool-cases (ltb n 10)) [
  | inl small ↦ (b'0' + n, out, rw small, omega arith, ground arith)
  | inr large ↦ rw large (digits-head fuel (n / 10) ((b'0' + n % 10) ∷ out) (ground arith))
]

atoi-digits :
    (n : ℕ) (text : Bytes) (d : ℕ) (s : Bytes)
    → text ≡ d ∷ s
    → b'0' ≤ d
    → d ≤ b'9'
    → parse_digits 0 text ≡ some n
    → n < 2 ^ 63
    → atoi text ≡ some (pos n)
unfolding atoi parse_number
atoi-digits n text d s e lo hi p h = rw e (ground (arith, ap (parse_digits 0) e))

-- strconv.Atoi gives back the non-negative int that strconv.Itoa wrote.
pub atoi-itoa : (n : ℕ) → n < 2 ^ 63 → atoi (itoa (pos n)) ≡ some (pos n)
unfolding itoa parse_digits
atoi-itoa n h =
    let (d, s, e, lo, hi) = digits-head (suc n) n [] (omega arith) in
    atoi-digits n _ d s e lo hi (parse_digits-digits (suc n) n [] (omega arith)) h
