-- ===== src/Json/Decode.antt =====
-- encoding/json, reading a value into a struct: object keys match the names of the fields in any
-- case (ASCII), a `null` leaves a field as it was, a missing field keeps its zero value, unknown
-- keys are skipped, of doubled keys the last one counts, and a value of another type is an error.
use devplat_agent.Base.{ℕ, ◌+◌, ◌^◌, Bool, ◌&&◌, Option, none, some, if◌then◌else◌, ltb, leb, map}
use devplat_agent.Base.Int.{ℤ, pos, negsuc}
use devplat_agent.Base.Text.{Bytes, text_eq}
use devplat_agent.Json.{Json, Fields, null, num, str, obj, end, field}

fold_byte : ℕ → ℕ
fold_byte c = if leb b'A' c && leb c b'Z' then c + 32 else c

-- Whether an object key names the field.
unfoldable pub key_matches : Bytes → Bytes → Bool
unfolding fold_byte text_eq
key_matches key name = text_eq (map fold_byte key) (map fold_byte name)

-- Whether an integer fits in int64.
unfoldable pub fits64 : ℤ → Bool
fits64 (pos n) = ltb n (2 ^ 63)
fits64 (negsuc n) = ltb n (2 ^ 63)

unfoldable pub read_int64 : Json → ℤ → Option ℤ
read_int64 null old = some old
read_int64 (num z) old = if fits64 z then some z else none
read_int64 _ old = none

unfoldable pub read_str : Json → Bytes → Option Bytes
read_str null old = some old
read_str (str s) old = some s
read_str _ old = none

-- The fields of an object in order, each read into the struct by `set`.
unfoldable pub read_fields {ℓ} :
    {A : Type ℓ} → (Bytes → Json → A → Option A) → Fields → A → Option A
read_fields set end a = some a
read_fields set (field k v fs) a = elim (set k v a) [
  | none ↦ none
  | some a' ↦ read_fields set fs a'
]

-- A document read into a struct that holds its zero values. A `null` document is no error.
unfoldable pub read_struct {ℓ} : {A : Type ℓ} → (Bytes → Json → A → Option A) → Json → A → Option A
read_struct set null zero_value = some zero_value
read_struct set (obj fs) zero_value = read_fields set fs zero_value
read_struct set _ zero_value = none
