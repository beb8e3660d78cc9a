-- ===== src/Base/Assoc.antt =====
-- Go maps as association lists with one entry for each key, in the order of insertion. The order of
-- iteration over a Go map is not specified; what depends on it is stated for every order.
use devplat_agent.Base.Tests.{if◌then◌else◌}
use devplat_agent.Base.Int.{ℤ, eq_ℤ, eq_ℤ_iff}
use devplat_agent.Base.Text.{Bytes, text_eq, text_eq_iff}
use mathlib.Core.Path.{◌≡◌, refl}
use mathlib.Core.Logic.{◌↔◌}
use mathlib.Core.Bool.{Bool, true}
use mathlib.Core.Option.{Option, none, some}
use mathlib.Core.List.{List, [], ◌∷◌}
use native.Mathlib.Omega.{arith}

-- A comparison of keys that decides equality.
pub record Key {ℓ} (K : Type ℓ) : Type ℓ where
  pub eq : K → K → Bool
  pub eq_iff : (a b : K) → (eq a b ≡ true) ↔ (a ≡ b)

instance abbrev pub bytes_key : Key Bytes
bytes_key = record { eq = text_eq; eq_iff = text_eq_iff }

instance abbrev pub int_key : Key ℤ
int_key = record { eq = eq_ℤ; eq_iff = eq_ℤ_iff }

abbrev pub Assoc {ℓ κ} : Type ℓ → Type κ → Type (ℓ ⊔ κ)
Assoc K V = List (K × V)

module _ {ℓ κ} {K : Type ℓ} {V : Type κ} ⦃k : Key K⦄ where
  -- m[key]
  unfoldable pub lookup : K → Assoc K V → Option V
  lookup a [] = none
  lookup a ((b, v) ∷ m) = if k.eq b a then some v else lookup a m

  -- m[key] = value
  unfoldable pub insert : K → V → Assoc K V → Assoc K V
  insert a v [] = (a, v) ∷ []
  insert a v ((b, w) ∷ m) = if k.eq b a then (a, v) ∷ m else (b, w) ∷ insert a v m

  -- delete(m, key)
  unfoldable pub delete : K → Assoc K V → Assoc K V
  delete a [] = []
  delete a ((b, w) ∷ m) = let rest = delete a m in if k.eq b a then rest else (b, w) ∷ rest

  pub lookup-insert :
      (a c : K) (v : V) (m : Assoc K V)
      → lookup c (insert a v m) ≡ (if k.eq a c then some v else lookup c m)
  unfolding lookup insert
  lookup-insert a c v [] = refl
  lookup-insert a c v ((b, w) ∷ m) =
      ground (arith, k.eq_iff a c, k.eq_iff b a, k.eq_iff b c, lookup-insert a c v m)

  pub lookup-delete :
      (a c : K) (m : Assoc K V) → lookup c (delete a m) ≡ (if k.eq a c then none else lookup c m)
  unfolding lookup delete
  lookup-delete a c [] = ground arith
  lookup-delete a c ((b, w) ∷ m) =
      ground (arith, k.eq_iff a c, k.eq_iff b a, k.eq_iff b c, lookup-delete a c m)

  -- Every key stands once.
  abbrev pub IsMap : Assoc K V → Type (ℓ ⊔ κ)
  IsMap [] = Unit
  IsMap ((b, v) ∷ m) = (lookup b m ≡ none) × IsMap m

  pub insert-IsMap : (a : K) (v : V) (m : Assoc K V) → IsMap m → IsMap (insert a v m)
  unfolding insert lookup
  insert-IsMap a v [] h = (refl, tt)
  insert-IsMap a v ((b, w) ∷ m) h =
      ground (arith, k.eq_iff b a, k.eq_iff a b, lookup-insert a b v m, insert-IsMap a v m h.1)

  pub delete-IsMap : (a : K) (m : Assoc K V) → IsMap m → IsMap (delete a m)
  unfolding delete lookup
  delete-IsMap a [] h = tt
  delete-IsMap a ((b, w) ∷ m) h = ground (arith, lookup-delete a b m, delete-IsMap a m h.1)
