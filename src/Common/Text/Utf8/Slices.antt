-- ===== src/Common/Text/Utf8/Slices.antt =====
-- A slice at the last boundary within a limit is the longest prefix that the limit pays.
use Prim.Native.Nat.{ℕ, zero, suc, ◌+◌, ◌-◌, ◌≤◌}
use mathlib.Core.Path.{◌≡◌, refl}
use mathlib.Core.Logic.{inl, inr}
use mathlib.Core.Bool.{true, false}
use mathlib.Core.Option.{some}
use mathlib.Core.List.{List, [], ◌∷◌, ◌++◌}
use native.Mathlib.Omega.{arith}
use fluxcope.Common.Tests.{ltb, if◌then◌else◌, Bool-cases}
use fluxcope.Common.Text.Utf8.{len_utf8, byte_len, is_char_boundary, slice_to, split_at}

-- the longest prefix of at most so many bytes
unfoldable pub fitting : List ℕ → ℕ → List ℕ
fitting [] n = []
fitting (c ∷ s) n = if ltb n (len_utf8 c) then [] else c ∷ fitting s (n - len_utf8 c)

pub byte_len-fitting : (s : List ℕ) (n : ℕ) → byte_len (fitting s n) ≤ n
unfolding fitting byte_len
byte_len-fitting [] n = omega arith
byte_len-fitting (c ∷ s) n = ground (arith, byte_len-fitting s (n - len_utf8 c))

pub fitting_all : (s : List ℕ) (n : ℕ) → byte_len s ≤ n → fitting s n ≡ s
unfolding fitting byte_len
fitting_all [] n h = refl
fitting_all (c ∷ s) n h = ground (arith, fitting_all s (n - len_utf8 c))

pub len_utf8_pos : (c : ℕ) → (1 ≤ len_utf8 c) × (len_utf8 c ≤ 4)
unfolding len_utf8
len_utf8_pos c = ground arith

-- at a boundary, the slice is the prefix
pub slice_to-fitting :
    (s : List ℕ) (n : ℕ)
    → is_char_boundary s n ≡ true
    → (slice_to s n ≡ some (fitting s n)) × (byte_len (fitting s n) ≡ n)
unfolding slice_to fitting is_char_boundary byte_len
slice_to-fitting [] zero h = (refl, refl)
slice_to-fitting (c ∷ s) zero h = ground (arith, len_utf8_pos c)
slice_to-fitting [] (suc n) h = cc
slice_to-fitting (c ∷ s) (suc n) h = ground (arith, slice_to-fitting s (suc n - len_utf8 c))

-- between boundaries, the prefix is that of one byte less
pub fitting-between :
    (s : List ℕ) (n : ℕ)
    → is_char_boundary s (suc n) ≡ false
    → suc n ≤ byte_len s
    → fitting s (suc n) ≡ fitting s n
unfolding fitting is_char_boundary byte_len
fitting-between [] n h k = refl
fitting-between (c ∷ s) n h k = elim (Bool-cases (ltb (suc n) (len_utf8 c))) [
  | inl short ↦ ground arith
  | inr long ↦ elim (Bool-cases (ltb n (len_utf8 c))) [
    | inl edge ↦ ground arith
    | inr inside ↦
        let e : suc n - len_utf8 c ≡ suc (n - len_utf8 c) = ground arith in
        ground (arith, e, fitting-between s (n - len_utf8 c))
  ]
]

ltb_ge : (a b : ℕ) → b ≤ a → ltb a b ≡ false
ltb_ge a b h = ground arith

slice_to-cons :
    (c : ℕ) (s : List ℕ) (n : ℕ) {t : List ℕ}
    → slice_to s n ≡ some t
    → slice_to (c ∷ s) (len_utf8 c + n) ≡ some (c ∷ t)
unfolding slice_to
slice_to-cons c s n h =
    let k : len_utf8 c + n ≡ suc (len_utf8 c + n - 1) = omega (arith, len_utf8_pos c) in
    let back : suc (len_utf8 c + n - 1) - len_utf8 c ≡ n = omega (arith, len_utf8_pos c) in
    let long : ltb (suc (len_utf8 c + n - 1)) (len_utf8 c) ≡ false =
      ltb_ge _ _ (omega (arith, len_utf8_pos c)) in
    rw k (rw long (rw back (rw h)))

pub slice_all : (s : List ℕ) → slice_to s (byte_len s) ≡ some s
unfolding byte_len
slice_all [] = unfold slice_to in refl
slice_all (c ∷ s) = slice_to-cons c s (byte_len s) (slice_all s)

-- splitting behind a prefix
split_at-cons :
    (c : ℕ) (s : List ℕ) (n : ℕ) {a b : List ℕ}
    → split_at s n ≡ some (a, b)
    → split_at (c ∷ s) (len_utf8 c + n) ≡ some (c ∷ a, b)
unfolding split_at
split_at-cons c s n h =
    let k : len_utf8 c + n ≡ suc (len_utf8 c + n - 1) = omega (arith, len_utf8_pos c) in
    let back : suc (len_utf8 c + n - 1) - len_utf8 c ≡ n = omega (arith, len_utf8_pos c) in
    let long : ltb (suc (len_utf8 c + n - 1)) (len_utf8 c) ≡ false =
      ltb_ge _ _ (omega (arith, len_utf8_pos c)) in
    rw k (rw long (rw back (rw h)))

pub split_at-append : (a b : List ℕ) → split_at (a ++ b) (byte_len a) ≡ some (a, b)
unfolding byte_len
split_at-append [] b = unfold split_at in refl
split_at-append (c ∷ a) b = split_at-cons c (a ++ b) (byte_len a) (split_at-append a b)
