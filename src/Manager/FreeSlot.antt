-- ===== src/Manager/FreeSlot.antt =====
-- internal/vmmanager/manager.go: the search for a slot, freeSlot.
use native.Mathlib.Decide.{dec_lt}
use devplat_agent.Base.{ℕ, zero, suc, ◌+◌, ◌<◌, ◌≤◌, ◌≡◌, ◌≢◌, ap, none, some, arith}
use devplat_agent.Base.Int.{ℤ, pos, pos_part}
use devplat_agent.Base.Text.{Bytes}
use devplat_agent.Base.Assoc.{Assoc, lookup, int_key}
use devplat_agent.Manager.State.{Manager, Setting}
use devplat_agent.Manager.Admission.{free_slot, free_slot_from, capacity_cpu}

pub free_slot_from_free :
    (rounds i slot : ℕ) (slots : Assoc ℤ Bytes)
    → free_slot_from rounds i slots ≡ some slot
    → (lookup (pos slot) slots ≡ none) × (i ≤ slot) × (slot < i + rounds)
unfolding free_slot_from
free_slot_from_free zero i slot slots h = absurd (cc)
free_slot_from_free (suc rounds) i slot slots h =
    ground (arith, free_slot_from_free rounds (suc i) slot slots)

pub free_slot_from_lowest :
    (rounds i slot j : ℕ) (slots : Assoc ℤ Bytes)
    → free_slot_from rounds i slots ≡ some slot
    → i ≤ j
    → j < slot
    → lookup (pos j) slots ≢ none
unfolding free_slot_from
free_slot_from_lowest zero i slot j slots h l u = absurd (cc)
free_slot_from_lowest (suc rounds) i slot j slots h l u = elim (dec_lt i j) [
  | yes below ↦ ground (
    arith,
    free_slot_from_lowest rounds (suc i) slot j slots,
    free_slot_from_free rounds (suc i) slot slots,
  )
  | no above ↦
      let same : i ≡ j = omega arith in
      λ e. ground (arith, ap pos same, free_slot_from_free rounds (suc i) slot slots)
]

pub free_slot_from-none :
    (rounds i j : ℕ) (slots : Assoc ℤ Bytes)
    → free_slot_from rounds i slots ≡ none
    → i ≤ j
    → j < i + rounds
    → lookup (pos j) slots ≢ none
unfolding free_slot_from
free_slot_from-none zero i j slots h l u = absurd (omega arith)
free_slot_from-none (suc rounds) i j slots h l u = elim (dec_lt i j) [
  | yes below ↦ ground (arith, free_slot_from-none rounds (suc i) j slots)
  | no above ↦ let same : i ≡ j = omega arith in λ e. ground (arith, ap pos same)
]

free_slot_from_finds :
    (rounds i k : ℕ) (slots : Assoc ℤ Bytes)
    → i ≤ k
    → k < i + rounds
    → lookup (pos k) slots ≡ none
    → ((j : ℕ) → j < k → lookup (pos j) slots ≢ none)
    → free_slot_from rounds i slots ≡ some k
unfolding free_slot_from
free_slot_from_finds zero i k slots l u free taken = absurd (omega arith)
free_slot_from_finds (suc rounds) i k slots l u free taken = elim (dec_lt i k) [
  | yes below ↦ ground (
    arith,
    taken i below,
    free_slot_from_finds rounds (suc i) k slots below (omega arith) free taken,
  )
  | no above ↦ let same : i ≡ k = omega arith in rw same (rw (free, free_slot_from))
]

module _ {S : Type 0} (env : Setting S) where
  -- A slot that freeSlot gives is free and below the number of CPUs, and every lower slot is taken.
  pub free_slot_lowest :
      (m : Manager) (slot : ℕ)
      → free_slot env m ≡ some slot
      → (lookup (pos slot) m.slots ≡ none)
        × (slot < pos_part env.cpu_total)
        × ((j : ℕ) → j < slot → lookup (pos j) m.slots ≢ none)
  unfolding free_slot capacity_cpu
  free_slot_lowest m slot h = (
    (free_slot_from_free _ 0 slot m.slots h).0,
    omega (arith, (free_slot_from_free _ 0 slot m.slots h).2),
    λ j below. free_slot_from_lowest _ 0 slot j m.slots h (omega arith) below,
  )

  -- It finds none only where every slot below the number of CPUs is taken.
  pub free_slot-none :
      (m : Manager) (j : ℕ)
      → free_slot env m ≡ none
      → j < pos_part env.cpu_total
      → lookup (pos j) m.slots ≢ none
  unfolding free_slot capacity_cpu
  free_slot-none m j h below = free_slot_from-none _ 0 j m.slots h (omega arith) (omega arith)

  -- A free slot below the number of CPUs with every lower one taken is the one that is found.
  pub free_slot_finds :
      (m : Manager) (k : ℕ)
      → k < pos_part env.cpu_total
      → lookup (pos k) m.slots ≡ none
      → ((j : ℕ) → j < k → lookup (pos j) m.slots ≢ none)
      → free_slot env m ≡ some k
  unfolding free_slot capacity_cpu
  free_slot_finds m k below free taken =
      free_slot_from_finds _ 0 k m.slots (omega arith) (omega arith) free taken
