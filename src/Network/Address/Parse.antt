-- ===== src/Network/Address/Parse.antt =====
-- net.ParseIP with To4, as internal/config/config.go uses it: dotted decimals are read here, and the
-- colon notation of IPv6 is a parameter.
use devplat_agent.Base.{
  ℕ, ◌-◌, ◌≤◌, ◌≡◌, refl, ◌||◌, List, [], ◌∷◌, Option, none, some, arith, leb, All, if◌then◌else◌,
  ◌==◌,
}
use devplat_agent.Base.Text.{Bytes, codes, is_digit, parse_digits}
use devplat_agent.Network.Address.{Ipv4, IsIpv4}

onto_first : ℕ → List Bytes → List Bytes
onto_first c [] = (c ∷ []) ∷ []
onto_first c (part ∷ parts) = (c ∷ part) ∷ parts

-- The parts between the dots.
unfoldable pub split_dots : Bytes → List Bytes
unfolding onto_first
split_dots [] = [] ∷ []
split_dots (c ∷ s) = let rest = split_dots s in if c == b'.' then [] ∷ rest else onto_first c rest

-- A part: digits of a byte, without a leading zero.
unfoldable pub read_octet : Bytes → Option ℕ
read_octet [] = none
read_octet (c ∷ []) = if is_digit c then some (c - b'0') else none
read_octet (c ∷ d ∷ s) = if c == b'0' then none else elim (parse_digits 0 (c ∷ d ∷ s)) [
  | none ↦ none
  | some n ↦ if leb n 255 then some n else none
]

unfoldable pub read_octets : List Bytes → Option (List ℕ)
unfolding read_octet
read_octets [] = some []
read_octets (part ∷ parts) = elim (read_octet part) [
  | none ↦ none
  | some n ↦ elim (read_octets parts) [ none ↦ none | some ns ↦ some (n ∷ ns) ]
]

unfoldable pub four_bytes : Option (List ℕ) → Option Ipv4
four_bytes (some (a ∷ b ∷ c ∷ d ∷ [])) = some (record { b0 = a; b1 = b; b2 = c; b3 = d })
four_bytes _ = none

-- The byte that decides between the notations.
first_separator : Bytes → Option ℕ
first_separator [] = none
first_separator (c ∷ s) =
    let rest = first_separator s in
    if (c == b'.') || (c == b':') || (c == b'%') then some c else rest

-- net.ParseIP(text).To4()
unfoldable pub parse_ip4 : (Bytes → Option Ipv4) → Bytes → Option Ipv4
unfolding first_separator split_dots read_octets four_bytes
parse_ip4 colon_notation text = elim (first_separator text) [
  | none ↦ none
  | some c ↦
      if c == b'.'
      then four_bytes (read_octets (split_dots text))
      else if c == b':'
      then colon_notation text
      else none
]

parse_ip4_examples :
    (colon_notation : Bytes → Option Ipv4)
    → (parse_ip4 colon_notation (codes "172.20.0.1")
        ≡ some (record { b0 = 172; b1 = 20; b2 = 0; b3 = 1 }))
      × (parse_ip4 colon_notation (codes "172.20.0.256") ≡ none)
      × (parse_ip4 colon_notation (codes "172.20.00.1") ≡ none)
      × (parse_ip4 colon_notation (codes "172.20.1") ≡ none)
      × (parse_ip4 colon_notation (codes "172.20.0.1.") ≡ none)
      × (parse_ip4 colon_notation (codes "host") ≡ none)
unfolding parse_ip4 read_octet is_digit parse_digits
parse_ip4_examples colon_notation = (refl, refl, refl, refl, refl, refl)

-- A notation whose addresses have four bytes.
abbrev pub GivesBytes : (Bytes → Option Ipv4) → Type 0
GivesBytes notation = (text : Bytes) (a : Ipv4) → notation text ≡ some a → IsIpv4 a

read_octet-bound : (part : Bytes) (n : ℕ) → read_octet part ≡ some n → n ≤ 255
unfolding read_octet is_digit
read_octet-bound [] n h = absurd (cc)
read_octet-bound (c ∷ []) n h = ground arith
read_octet-bound (c ∷ d ∷ s) n h = ground arith

read_octets-bound :
    (parts : List Bytes) (ns : List ℕ) → read_octets parts ≡ some ns → All (λ (n : ℕ). n ≤ 255) ns
unfolding read_octets
read_octets-bound [] [] h = tt
read_octets-bound [] (n ∷ ns) h = absurd (cc)
read_octets-bound (part ∷ parts) [] h = tt
read_octets-bound (part ∷ parts) (n ∷ ns) h =
    (ground (arith, read_octet-bound part n), read_octets-bound parts ns (ground arith))

four_bytes-IsIpv4 :
    (ns : Option (List ℕ)) (a : Ipv4)
    → ((ms : List ℕ) → ns ≡ some ms → All (λ (n : ℕ). n ≤ 255) ms)
    → four_bytes ns ≡ some a
    → IsIpv4 a
unfolding four_bytes
four_bytes-IsIpv4 (some (k ∷ l ∷ m ∷ n ∷ [])) a bounded h =
    let b = bounded (k ∷ l ∷ m ∷ n ∷ []) refl in
    let bk = b.0 in
    let bl = b.1.0 in
    let bm = b.1.1.0 in
    let bn = b.1.1.1.0 in
    record { lt0 = ground arith; lt1 = ground arith; lt2 = ground arith; lt3 = ground arith }
four_bytes-IsIpv4 _ a bounded h = absurd (cc)

-- An address that was read from a text has four bytes, if those of the colon notation have.
pub parse_ip4-IsIpv4 :
    (colon_notation : Bytes → Option Ipv4)
    → GivesBytes colon_notation
    → GivesBytes (parse_ip4 colon_notation)
unfolding parse_ip4
parse_ip4-IsIpv4 colon_notation g text a h = ground (
  arith,
  g text a,
  four_bytes-IsIpv4 (read_octets (split_dots text)) a
      (λ ms. read_octets-bound (split_dots text) ms),
)
