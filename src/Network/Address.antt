-- ===== src/Network/Address.antt =====
-- IPv4 addresses of package net: four bytes, their big-endian word, and the dotted notation.
pub mod Parse
use devplat_agent.Base.{ℕ, ◌+◌, ◌*◌, ◌/◌, ◌%◌, ◌^◌, ◌<◌, ◌≡◌, ◌++◌, ◌∷◌, arith, refl, sym, ap, ◌∙◌}
use devplat_agent.Base.Int.{pos}
use devplat_agent.Base.Text.{Bytes, codes, itoa}

pub record Ipv4 : Type 0 where
  pub b0 : ℕ
  pub b1 : ℕ
  pub b2 : ℕ
  pub b3 : ℕ

-- Every part is a byte.
pub record IsIpv4 (a : Ipv4) : Type 0 where
  pub lt0 : a.b0 < 256
  pub lt1 : a.b1 < 256
  pub lt2 : a.b2 < 256
  pub lt3 : a.b3 < 256

-- binary.BigEndian.Uint32
unfoldable pub to_word : Ipv4 → ℕ
to_word a = a.b0 * 2 ^ 24 + a.b1 * 2 ^ 16 + a.b2 * 2 ^ 8 + a.b3

-- uint32ToIP
unfoldable pub of_word : ℕ → Ipv4
of_word v = record {
  b0 = v / 2 ^ 24 % 256;
  b1 = v / 2 ^ 16 % 256;
  b2 = v / 2 ^ 8 % 256;
  b3 = v % 256;
}

-- IP.String of a 4-byte address
unfoldable pub dotted : Ipv4 → Bytes
dotted a =
    itoa (pos a.b0)
    ++ (b'.' ∷ itoa (pos a.b1) ++ (b'.' ∷ itoa (pos a.b2) ++ (b'.' ∷ itoa (pos a.b3))))

pub to_word-of_word : (v : ℕ) → v < 2 ^ 32 → to_word (of_word v) ≡ v
unfolding to_word of_word
to_word-of_word v h = omega arith

pub to_word-lt : (a : Ipv4) → IsIpv4 a → to_word a < 2 ^ 32
unfolding to_word
to_word-lt a v = omega arith

dotted_example : dotted (of_word 0xac14_0001) ≡ codes "172.20.0.1"
unfolding dotted of_word itoa
dotted_example = refl

pub of_word_injective : (v u : ℕ) → v < 2 ^ 32 → u < 2 ^ 32 → of_word v ≡ of_word u → v ≡ u
of_word_injective v u hv hu e = sym (to_word-of_word v hv) ∙ ap to_word e ∙ to_word-of_word u hu
