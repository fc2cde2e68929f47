-- ===== src/Prelude/TrimSpace.antt =====
-- strings.TrimSpace and bytes.TrimSpace, on texts in UTF-8.
use Prim.Native.Nat.{ℕ, zero, suc}
use mathlib.Core.Bool.{Bool, ◌&&◌, ◌||◌}
use mathlib.Core.List.{[], ◌∷◌, reverse}
use multi_log.Prelude.Tests.{leb, ◌==◌, if◌then◌else◌}
use multi_log.Prelude.ByteStrings.{Bytes}

-- unicode.IsSpace, by the bytes of the rune in UTF-8.
abbrev one_byte_space : ℕ → Bool
one_byte_space a = leb 9 a && leb a 13 || a == 32

abbrev two_byte_space : ℕ → ℕ → Bool
two_byte_space a b = a == 0xC2 && (b == 0x85 || b == 0xA0)

abbrev three_byte_space : ℕ → ℕ → ℕ → Bool
three_byte_space a b c =
    a == 0xE1 && (b == 0x9A && c == 0x80)
    || a == 0xE2
      && (b == 0x80 && (leb 0x80 c && leb c 0x8A || c == 0xA8 || c == 0xA9 || c == 0xAF)
          || b == 0x81 && c == 0x9F)
    || a == 0xE3 && (b == 0x80 && c == 0x80)

-- How many bytes the white space at the start of a text has.
abbrev front_space : Bytes → ℕ
front_space [] = 0
front_space (a ∷ []) = if one_byte_space a then 1 else 0
front_space (a ∷ b ∷ []) = if one_byte_space a then 1 else if two_byte_space a b then 2 else 0
front_space (a ∷ b ∷ c ∷ s) =
    if one_byte_space a
    then 1
    else if two_byte_space a b
    then 2
    else if three_byte_space a b c
    then 3
    else 0

-- The same at the end, on the reversed text.
abbrev back_space : Bytes → ℕ
back_space [] = 0
back_space (a ∷ []) = if one_byte_space a then 1 else 0
back_space (b ∷ a ∷ []) = if one_byte_space b then 1 else if two_byte_space a b then 2 else 0
back_space (c ∷ b ∷ a ∷ s) =
    if one_byte_space c
    then 1
    else if two_byte_space b c
    then 2
    else if three_byte_space a b c
    then 3
    else 0

-- `skip` bytes of a rune are still to go.
abbrev trim_with : (Bytes → ℕ) → ℕ → Bytes → Bytes
trim_with space skip [] = []
trim_with space (suc skip) (c ∷ s) = trim_with space skip s
trim_with space zero (c ∷ s) = elim (space (c ∷ s)) [
  | zero ↦ c ∷ s
  | suc skip ↦ trim_with space skip s
]

-- strings.TrimSpace
unfoldable pub trim_space : Bytes → Bytes
trim_space s = reverse (trim_with back_space 0 (reverse (trim_with front_space 0 s)))
