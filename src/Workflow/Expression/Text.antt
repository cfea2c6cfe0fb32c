-- ===== src/Workflow/Expression/Text.antt =====
-- `strings.TrimSpace` and the other byte-level library calls of the workflow package.
use open_git.Base.{
  ℕ, zero, suc, ◌-◌, Bool, ◌&&◌, ◌||◌, [], ◌∷◌, reverse, Bytes, leb, ◌==◌, if◌then◌else◌,
}

-- The width in bytes of the white space that a text begins with, 0 if it begins with none: ASCII
-- space, and the encodings of U+0085, U+00A0, U+1680, U+2000 to U+200A, U+2028, U+2029, U+202F,
-- U+205F and U+3000.
ascii_space : ℕ → Bool
ascii_space b = (leb 9 b && leb b 13) || b == 32

wide_space : ℕ → ℕ → ℕ → Bool
wide_space a b c =
    (a == 0xe1 && b == 0x9a && c == 0x80)
    || (a == 0xe2 && b == 0x80 && (leb 0x80 c && leb c 0x8a || c == 0xa8 || c == 0xa9 || c == 0xaf))
    || (a == 0xe2 && b == 0x81 && c == 0x9f)
    || (a == 0xe3 && b == 0x80 && c == 0x80)

two_byte_space : ℕ → ℕ → Bool
two_byte_space a b = a == 0xc2 && (b == 0x85 || b == 0xa0)

unfoldable pub space_width : Bytes → ℕ
unfolding ascii_space wide_space two_byte_space
space_width [] = 0
space_width (a ∷ []) = if ascii_space a then 1 else 0
space_width (a ∷ b ∷ []) = if ascii_space a then 1 else if two_byte_space a b then 2 else 0
space_width (a ∷ b ∷ c ∷ _) =
    if ascii_space a then 1 else if two_byte_space a b then 2 else if wide_space a b c then 3 else 0

-- The same for the end of a text, read backwards.
unfoldable pub back_space_width : Bytes → ℕ
unfolding ascii_space wide_space two_byte_space
back_space_width [] = 0
back_space_width (a ∷ []) = if ascii_space a then 1 else 0
back_space_width (b ∷ a ∷ []) = if ascii_space b then 1 else if two_byte_space a b then 2 else 0
back_space_width (c ∷ b ∷ a ∷ _) =
    if ascii_space c then 1 else if two_byte_space b c then 2 else if wide_space a b c then 3 else 0

-- Drops white space from the front; the number counts the bytes of the space being dropped.
unfoldable pub trim_by : (Bytes → ℕ) → ℕ → Bytes → Bytes
trim_by width k [] = []
trim_by width (suc k) (c ∷ s) = trim_by width k s
trim_by width zero (c ∷ s) =
    let n = width (c ∷ s) in let rest = trim_by width (n - 1) s in if n == 0 then c ∷ s else rest

unfoldable pub trim_space : Bytes → Bytes
unfolding trim_by space_width back_space_width
trim_space s = reverse (trim_by back_space_width 0 (reverse (trim_by space_width 0 s)))
