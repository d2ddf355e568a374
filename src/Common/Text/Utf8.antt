-- ===== src/Common/Text/Utf8.antt =====
-- Texts by their UTF-8 bytes: lengths, boundaries and slices of `str`, and the decoding of bytes,
-- `str::from_utf8` and `String::from_utf8_lossy`.
pub mod Slices
pub mod Decoding
use Prim.Native.Nat.{ℕ, zero, suc, ◌+◌, ◌-◌, ◌*◌}
use mathlib.Core.Bool.{Bool, true, false, ◌&&◌, ◌||◌}
use mathlib.Core.Option.{Option, none, some}
use mathlib.Core.List.{List, [], ◌∷◌}
use fluxcope.Common.Tests.{ltb, leb, ◌==◌, if◌then◌else◌}
use fluxcope.Common.Lists.{length, drop}
use fluxcope.Common.Outcome.{Result, ok, err}

-- `char::len_utf8`
unfoldable pub len_utf8 : ℕ → ℕ
len_utf8 c = if ltb c 0x80 then 1 else if ltb c 0x800 then 2 else if ltb c 0x10000 then 3 else 4

-- `str::len`
unfoldable pub byte_len : List ℕ → ℕ
byte_len [] = 0
byte_len (c ∷ s) = len_utf8 c + byte_len s

unfoldable pub is_char_boundary : List ℕ → ℕ → Bool
is_char_boundary s zero = true
is_char_boundary [] (suc n) = false
is_char_boundary (c ∷ s) (suc n) =
    if ltb (suc n) (len_utf8 c) then false else is_char_boundary s (suc n - len_utf8 c)

-- `&s[..n]`, which panics inside a character and behind the end
unfoldable pub slice_to : List ℕ → ℕ → Option (List ℕ)
slice_to s zero = some []
slice_to [] (suc n) = none
slice_to (c ∷ s) (suc n) =
    let rest = slice_to s (suc n - len_utf8 c) in
    if ltb (suc n) (len_utf8 c) then none else elim rest [ none ↦ none | some t ↦ some (c ∷ t) ]

-- `s.split_at(n)`, which panics inside a character and behind the end
unfoldable pub split_at : List ℕ → ℕ → Option (List ℕ × List ℕ)
split_at s zero = some ([], s)
split_at [] (suc n) = none
split_at (c ∷ s) (suc n) =
    let rest = split_at s (suc n - len_utf8 c) in
    if ltb (suc n) (len_utf8 c)
    then none
    else elim rest [ none ↦ none | some (a, b) ↦ some (c ∷ a, b) ]

-- What stands at the head of some bytes: a character with its width, a maximal invalid part with
-- its length, the beginning of a character that the bytes cut short, or nothing.
pub data Head : Type 0 where
  scalar : ℕ → ℕ → Head
  invalid : ℕ → Head
  incomplete : Head
  nothing_left : Head

abbrev within : ℕ → ℕ → ℕ → Bool
within lo hi b = leb lo b && leb b hi

abbrev is_continuation : ℕ → Bool
is_continuation b = within 0x80 0xbf b

unfoldable pub two_bytes : ℕ → List ℕ → Head
two_bytes b0 [] = incomplete
two_bytes b0 (b1 ∷ _) =
    if is_continuation b1 then scalar ((b0 - 0xc0) * 64 + (b1 - 0x80)) 2 else invalid 1

-- the second bytes that rule out overlong forms, surrogates and what is past the last character
abbrev second_of_three : ℕ → ℕ → Bool
second_of_three b0 b1 =
    if b0 == 0xe0
    then within 0xa0 0xbf b1
    else if b0 == 0xed
    then within 0x80 0x9f b1
    else is_continuation b1

abbrev second_of_four : ℕ → ℕ → Bool
second_of_four b0 b1 =
    if b0 == 0xf0
    then within 0x90 0xbf b1
    else if b0 == 0xf4
    then within 0x80 0x8f b1
    else is_continuation b1

unfoldable pub three_bytes : ℕ → List ℕ → Head
three_bytes b0 [] = incomplete
three_bytes b0 (b1 ∷ []) = if second_of_three b0 b1 then incomplete else invalid 1
three_bytes b0 (b1 ∷ b2 ∷ _) =
    if second_of_three b0 b1
    then (if is_continuation b2
        then scalar ((b0 - 0xe0) * 4096 + (b1 - 0x80) * 64 + (b2 - 0x80)) 3
        else invalid 2)
    else invalid 1

unfoldable pub four_bytes : ℕ → List ℕ → Head
four_bytes b0 [] = incomplete
four_bytes b0 (b1 ∷ []) = if second_of_four b0 b1 then incomplete else invalid 1
four_bytes b0 (b1 ∷ b2 ∷ []) =
    if second_of_four b0 b1
    then (if is_continuation b2 then incomplete else invalid 2)
    else invalid 1
four_bytes b0 (b1 ∷ b2 ∷ b3 ∷ _) =
    if second_of_four b0 b1
    then (if is_continuation b2
        then (if is_continuation b3
            then scalar ((b0 - 0xf0) * 262144 + (b1 - 0x80) * 4096 + (b2 - 0x80) * 64 + (b3 - 0x80))
                4
            else invalid 3)
        else invalid 2)
    else invalid 1

unfoldable pub head : List ℕ → Head
unfolding two_bytes three_bytes four_bytes
head [] = nothing_left
head (b0 ∷ bytes) =
    if ltb b0 0x80
    then scalar b0 1
    else if within 0xc2 0xdf b0
    then two_bytes b0 bytes
    else if within 0xe0 0xef b0
    then three_bytes b0 bytes
    else if within 0xf0 0xf4 b0
    then four_bytes b0 bytes
    else invalid 1

-- the longest valid prefix, decoded, and what follows it; each round takes a byte at least
unfoldable pub valid_prefix : ℕ → List ℕ → List ℕ × List ℕ
valid_prefix zero bytes = ([], bytes)
valid_prefix (suc rounds) bytes = elim (head bytes) [
  | scalar c width ↦ let later = valid_prefix rounds (drop width bytes) in (c ∷ later.0, later.1)
  | _ ↦ ([], bytes)
]

-- `Utf8Error`: `valid_up_to` and `error_len`
pub record Utf8Error : Type 0 where
  pub valid_up_to : ℕ
  pub error_len : Option ℕ

abbrev error_at : List ℕ → List ℕ → Option ℕ → Utf8Error
error_at bytes rest error_len = record {
  valid_up_to = length bytes - length rest;
  error_len = error_len;
}

abbrev pub checked : List ℕ → List ℕ × List ℕ → Head → Result Utf8Error (List ℕ)
checked bytes (s, rest) nothing_left = ok s
checked bytes (s, rest) (invalid n) = err (error_at bytes rest (some n))
checked bytes (s, rest) _ = err (error_at bytes rest none)

unfoldable pub from_utf8 : List ℕ → Result Utf8Error (List ℕ)
unfolding valid_prefix
from_utf8 bytes = let p = valid_prefix (length bytes) bytes in checked bytes p (head p.1)

-- `String::from_utf8_lossy`: each invalid part gives one replacement character
unfoldable pub lossy : ℕ → List ℕ → List ℕ
lossy zero bytes = []
lossy (suc rounds) bytes = elim (head bytes) [
  | scalar c width ↦ c ∷ lossy rounds (drop width bytes)
  | invalid n ↦ 0xfffd ∷ lossy rounds (drop n bytes)
  | incomplete ↦ 0xfffd ∷ []
  | nothing_left ↦ []
]

unfoldable pub from_utf8_lossy : List ℕ → List ℕ
unfolding lossy
from_utf8_lossy bytes = lossy (length bytes) bytes
