-- ===== src/Common/Text/Utf8/Decoding.antt =====
-- The decoding of bytes: widths, and lossy decoding along the valid prefix.
use Prim.Native.Nat.{ℕ, zero, suc, ◌+◌, ◌-◌, ◌≤◌, ◌<◌}
use mathlib.Core.Path.{◌≡◌, refl, ap, subst}
use mathlib.Core.Option.{Option, none, some}
use mathlib.Core.List.{List, [], ◌∷◌, ◌++◌}
use native.Mathlib.Omega.{arith}
use fluxcope.Common.Lists.{length, drop, length-drop, drop_add}
use fluxcope.Common.Text.Utf8.{
  len_utf8, byte_len, Head, scalar, invalid, incomplete, nothing_left, head, two_bytes, three_bytes,
  four_bytes, valid_prefix, lossy, from_utf8, checked, Utf8Error,
}
use fluxcope.Common.Outcome.{Result, ok, err}

-- what the head says of the bytes
abbrev pub IsWide : List ℕ → Head → Type 0
IsWide bytes (scalar c width) = (len_utf8 c ≡ width) × (width ≤ length bytes) × (1 ≤ width)
IsWide bytes (invalid n) = (1 ≤ n) × (n ≤ length bytes)
IsWide bytes incomplete = 1 ≤ length bytes
IsWide bytes nothing_left = length bytes ≡ 0

two_bytes-IsWide :
    (b0 : ℕ) (bytes : List ℕ) → 0xc2 ≤ b0 → b0 ≤ 0xdf → IsWide (b0 ∷ bytes) (two_bytes b0 bytes)
unfolding two_bytes len_utf8
two_bytes-IsWide b0 [] lo hi = omega arith
two_bytes-IsWide b0 (b1 ∷ bytes) lo hi = ground arith

three_bytes-IsWide :
    (b0 : ℕ) (bytes : List ℕ) → 0xe0 ≤ b0 → b0 ≤ 0xef → IsWide (b0 ∷ bytes) (three_bytes b0 bytes)
unfolding three_bytes len_utf8
three_bytes-IsWide b0 [] lo hi = omega arith
three_bytes-IsWide b0 (b1 ∷ []) lo hi = ground arith
three_bytes-IsWide b0 (b1 ∷ b2 ∷ bytes) lo hi = ground arith

four_bytes-IsWide :
    (b0 : ℕ) (bytes : List ℕ) → 0xf0 ≤ b0 → b0 ≤ 0xf4 → IsWide (b0 ∷ bytes) (four_bytes b0 bytes)
unfolding four_bytes len_utf8
four_bytes-IsWide b0 [] lo hi = omega arith
four_bytes-IsWide b0 (b1 ∷ []) lo hi = ground arith
four_bytes-IsWide b0 (b1 ∷ b2 ∷ []) lo hi = ground arith
four_bytes-IsWide b0 (b1 ∷ b2 ∷ b3 ∷ bytes) lo hi = ground arith

pub head-IsWide : (bytes : List ℕ) → IsWide bytes (head bytes)
unfolding head len_utf8
head-IsWide [] = refl
head-IsWide (b0 ∷ bytes) =
    ground
      (arith, two_bytes-IsWide b0 bytes, three_bytes-IsWide b0 bytes, four_bytes-IsWide b0 bytes)

-- no character stands at the head
abbrev pub IsStuck : Head → Type 0
IsStuck (scalar c width) = ⊥
IsStuck _ = Unit {0}

-- Lossy decoding starts with the valid prefix, and goes on at a place where no character stands.
pub record Splits (rounds : ℕ) (bytes : List ℕ) (p : List ℕ × List ℕ) : Type 0 where
  pub decoded : lossy rounds bytes ≡ p.0 ++ lossy (rounds - length p.0) p.1
  pub counted : byte_len p.0 + length p.1 ≡ length bytes
  pub enough : length p.1 ≤ rounds - length p.0
  pub stuck : IsStuck (head p.1)
  pub rest_is : p.1 ≡ drop (byte_len p.0) bytes

Splits-stuck :
    (rounds : ℕ) (bytes : List ℕ)
    → length bytes ≤ rounds
    → IsStuck (head bytes)
    → Splits rounds bytes ([], bytes)
unfolding byte_len
Splits-stuck rounds bytes h s = record {
  decoded = ap (λ n. lossy n bytes) (omega arith);
  counted = omega arith;
  enough = omega arith;
  stuck = s;
  rest_is = refl;
}

Splits-scalar :
    (rounds : ℕ) (bytes : List ℕ) {c width : ℕ} {p : List ℕ × List ℕ}
    → head bytes ≡ scalar c width
    → (len_utf8 c ≡ width) × (width ≤ length bytes) × (1 ≤ width)
    → Splits rounds (drop width bytes) p
    → Splits (suc rounds) bytes (c ∷ p.0, p.1)
unfolding byte_len lossy
Splits-scalar rounds bytes {c} {width} {p} e w s = record {
  decoded =
      let k : suc rounds - suc (length p.0) ≡ rounds - length p.0 = omega arith in
      rw (e, lossy, k) (ap (◌∷◌ c) s.decoded);
  counted = omega (arith, s.counted, length-drop width bytes);
  enough = omega (arith, s.enough);
  stuck = s.stuck;
  rest_is = rw (w.0, drop_add width (byte_len p.0) bytes) s.rest_is;
}

pub valid_prefix-Splits :
    (fuel rounds : ℕ) (bytes : List ℕ)
    → length bytes ≤ fuel
    → length bytes ≤ rounds
    → Splits rounds bytes (valid_prefix fuel bytes)
unfolding valid_prefix
valid_prefix-Splits zero rounds [] h k = Splits-stuck rounds [] k (unfold head in tt)
valid_prefix-Splits zero rounds (b ∷ bytes) h k = absurd (omega arith)
valid_prefix-Splits (suc fuel) zero [] h k = unfold head in Splits-stuck zero [] k tt
valid_prefix-Splits (suc fuel) zero (b ∷ bytes) h k = absurd (omega arith)
valid_prefix-Splits (suc fuel) (suc rounds) bytes h k = split (head bytes) refl λ width less.
    valid_prefix-Splits fuel rounds (drop width bytes) (omega (arith, length-drop width bytes))
      (omega (arith, length-drop width bytes))
  where
    stop : (d : Head) → head bytes ≡ d → IsStuck d → Splits (suc rounds) bytes ([], bytes)
    stop d e s = Splits-stuck (suc rounds) bytes k (rw e s)

    split :
        (d : Head)
        → head bytes ≡ d
        → ((width : ℕ)
            → 1 ≤ width
            → Splits rounds (drop width bytes) (valid_prefix fuel (drop width bytes)))
        → Splits (suc rounds) bytes (valid_prefix (suc fuel) bytes)
    split (scalar c width) e later =
        let w : IsWide bytes (scalar c width) = subst (IsWide bytes) e (head-IsWide bytes) in
        rw (e, valid_prefix) (Splits-scalar rounds bytes e w (later width w.2))
    split (invalid n) e later = rw (e, valid_prefix) (stop (invalid n) e tt)
    split incomplete e later = rw (e, valid_prefix) (stop incomplete e tt)
    split nothing_left e later = rw (e, valid_prefix) (stop nothing_left e tt)

pub byte_len-append : (s t : List ℕ) → byte_len (s ++ t) ≡ byte_len s + byte_len t
unfolding byte_len
byte_len-append [] t = omega arith
byte_len-append (c ∷ s) t = omega (arith, byte_len-append s t)

-- lossy decoding where no character stands
lossy-nothing_left :
    (rounds : ℕ) (bytes : List ℕ) → head bytes ≡ nothing_left → byte_len (lossy rounds bytes) ≡ 0
unfolding byte_len lossy
lossy-nothing_left zero bytes e = refl
lossy-nothing_left (suc rounds) bytes e = rw (e, lossy)

lossy-incomplete :
    (rounds : ℕ) (bytes : List ℕ)
    → length bytes ≤ rounds
    → head bytes ≡ incomplete
    → byte_len (lossy rounds bytes) ≡ 3
unfolding byte_len len_utf8 lossy
lossy-incomplete zero bytes h e =
    let w : 1 ≤ length bytes = subst (IsWide bytes) e (head-IsWide bytes) in absurd (omega arith)
lossy-incomplete (suc rounds) bytes h e = rw (e, lossy)

lossy-invalid :
    (rounds : ℕ) (bytes : List ℕ) (n : ℕ)
    → length bytes ≤ rounds
    → head bytes ≡ invalid n
    → byte_len (lossy rounds bytes) ≡ 3 + byte_len (lossy (rounds - 1) (drop n bytes))
unfolding byte_len len_utf8 lossy
lossy-invalid zero bytes n h e =
    let w : IsWide bytes (invalid n) = subst (IsWide bytes) e (head-IsWide bytes) in
    absurd (omega arith)
lossy-invalid (suc rounds) bytes n h e =
    let k : suc rounds - 1 ≡ rounds = omega arith in rw (e, lossy, k) refl

-- what the bytes behind an error decode to, beside the valid part and the replacement character
abbrev pub FollowsError : ℕ → List ℕ → ℕ → Option ℕ → Type 0
FollowsError rounds bytes valid_up_to none = byte_len (lossy rounds bytes) ≡ valid_up_to + 3
FollowsError rounds bytes valid_up_to (some n) =
    let left = drop n (drop valid_up_to bytes) in
    (more : ℕ) × (length left ≤ more)
    × (length left < length bytes)
    × (byte_len (lossy rounds bytes) ≡ valid_up_to + 3 + byte_len (lossy more left))

-- What a result of `from_utf8` says of the length of the lossy decoding.
abbrev pub MeasuresLossy : ℕ → List ℕ → Result Utf8Error (List ℕ) → Type 0
MeasuresLossy rounds bytes (ok s) = byte_len (lossy rounds bytes) ≡ length bytes
MeasuresLossy rounds bytes (err e) = FollowsError rounds bytes e.valid_up_to e.error_len

pub from_utf8-MeasuresLossy :
    (rounds : ℕ) (bytes : List ℕ)
    → length bytes ≤ rounds
    → MeasuresLossy rounds bytes (from_utf8 bytes)
unfolding from_utf8
from_utf8-MeasuresLossy rounds bytes h =
    split (valid_prefix (length bytes) bytes).0 (valid_prefix (length bytes) bytes).1
      (head (valid_prefix (length bytes) bytes).1)
      (valid_prefix-Splits (length bytes) rounds bytes (omega arith) h) refl
  where
    split :
        (t rest : List ℕ) (d : Head)
        → Splits rounds bytes (t, rest)
        → head rest ≡ d
        → MeasuresLossy rounds bytes (checked bytes (t, rest) d)
    split t rest (scalar c width) s e = absurd (subst IsStuck e s.stuck)
    split t rest (invalid n) s e =
        let w : IsWide rest (invalid n) = subst (IsWide rest) e (head-IsWide rest) in
        let at : length bytes - length rest ≡ byte_len t = omega (arith, s.counted) in
        rw at (
          rw (← s.rest_is) (
            rounds - length t - 1,
            omega (arith, length-drop n rest, s.enough),
            omega (arith, length-drop n rest, s.counted),
            omega (
              arith,
              lossy-invalid (rounds - length t) rest n s.enough e,
              ap byte_len s.decoded,
              byte_len-append t (lossy (rounds - length t) rest),
            ),
          ))
    split t rest incomplete s e = omega (
      arith,
      s.counted,
      lossy-incomplete (rounds - length t) rest s.enough e,
      ap byte_len s.decoded,
      byte_len-append t (lossy (rounds - length t) rest),
    )
    split t rest nothing_left s e =
        let z : length rest ≡ 0 = subst (IsWide rest) e (head-IsWide rest) in
        omega (
          arith,
          s.counted,
          lossy-nothing_left (rounds - length t) rest e,
          ap byte_len s.decoded,
          byte_len-append t (lossy (rounds - length t) rest),
        )
