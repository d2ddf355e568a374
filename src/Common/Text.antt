-- ===== src/Common/Text.antt =====
-- Texts as lists of Unicode scalar values, with what the source uses of `str`.
pub mod Equality
pub mod Utf8
use Prim.Native.Nat.{ℕ, zero, suc, ◌+◌}
use mathlib.Core.Bool.{Bool, true, false, ◌&&◌, ◌||◌}
use mathlib.Core.Option.{Option, none, some}
use mathlib.Core.List.{List, [], ◌∷◌, reverse}
use Prim.Native.String
use Prim.Native.String.{String}
use Prim.Native.Char.{code}
use fluxcope.Common.Tests.{ltb, leb, ◌==◌, if◌then◌else◌}

abbrev pub Text : Type 0
Text = List ℕ

-- a literal's scalar values
abbrev pub text : String → Text
text String.[] = []
text (String.◌∷◌ c s) = code c ∷ text s

unfoldable pub text_eq : Text → Text → Bool
text_eq [] [] = true
text_eq (x ∷ xs) (y ∷ ys) = x == y && text_eq xs ys
text_eq _ _ = false

abbrev pub is_empty : Text → Bool
is_empty [] = true
is_empty (_ ∷ _) = false

abbrev within : ℕ → ℕ → ℕ → Bool
within lo hi c = leb lo c && leb c hi

-- the `White_Space` property
unfoldable pub is_whitespace : ℕ → Bool
is_whitespace c =
    within 0x9 0xd c
    || c == 0x20
    || c == 0x85
    || c == 0xa0
    || c == 0x1680
    || within 0x2000 0x200a c
    || within 0x2028 0x2029 c
    || c == 0x202f
    || c == 0x205f
    || c == 0x3000

unfoldable pub trim_start : Text → Text
trim_start [] = []
trim_start (c ∷ s) = if is_whitespace c then trim_start s else c ∷ s

unfoldable pub trim : Text → Text
unfolding trim_start is_whitespace
trim s = reverse (trim_start (reverse (trim_start s)))

unfoldable pub to_ascii_lowercase : Text → Text
to_ascii_lowercase [] = []
to_ascii_lowercase (c ∷ s) = (if within b'A' b'Z' c then c + 32 else c) ∷ to_ascii_lowercase s

-- `strip_prefix`
unfoldable pub strip_prefix : Text → Text → Option Text
strip_prefix [] s = some s
strip_prefix (p ∷ ps) [] = none
strip_prefix (p ∷ ps) (c ∷ s) = if p == c then strip_prefix ps s else none

-- the second half of `split_once`
unfoldable pub after_once : Text → Text → Option Text
unfolding strip_prefix
after_once separator [] = strip_prefix separator []
after_once separator (c ∷ s) = elim (strip_prefix separator (c ∷ s)) [
  | some rest ↦ some rest
  | none ↦ after_once separator s
]

unfoldable pub contains_char : ℕ → Text → Bool
contains_char c [] = false
contains_char c (d ∷ s) = c == d || contains_char c s

-- `str::contains`, of a text
unfoldable pub contains_text : Text → Text → Bool
contains_text needle [] = is_empty needle
contains_text needle (c ∷ s) =
    let later = contains_text needle s in
    elim (strip_prefix needle (c ∷ s)) [ some _ ↦ true | none ↦ later ]
