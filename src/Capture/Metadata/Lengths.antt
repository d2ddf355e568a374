-- ===== src/Capture/Metadata/Lengths.antt =====
-- Lengths and truncation of texts, src/capture/publisher.rs, against the texts themselves.
use fluxcope.Common.{
  ℕ, zero, suc, ◌+◌, ◌≤◌, ◌<◌, ◌≡◌, refl, ap, subst, sym, ◌∙◌, inl, inr, some, List, arith, length,
  drop, min, sat_add, ltb, u64_max, Bool-cases, Option-cases,
}
use fluxcope.Common.Outcome.{Result, ok, err}
use fluxcope.Common.Text.Utf8.{
  Utf8Error, byte_len, is_char_boundary, slice_to, from_utf8, from_utf8_lossy, lossy,
}
use fluxcope.Common.Text.Utf8.Slices.{
  fitting, fitting_all, slice_to-fitting, fitting-between, slice_all,
}
use fluxcope.Common.Text.Utf8.Decoding.{FollowsError, MeasuresLossy, from_utf8-MeasuresLossy}
use fluxcope.Capture.Body.{Bytes}
use fluxcope.Capture.Record.{Text}
use fluxcope.Capture.Metadata.{
  last_boundary, truncated_utf8_len, truncate_utf8, lossy_utf8_len, lossy_utf8_len_from,
}

-- the search for a boundary ends at the longest prefix
last_boundary-fitting :
    (value : Text) (n : ℕ)
    → n ≤ byte_len value
    → (slice_to value (last_boundary value n) ≡ some (fitting value n))
      × (last_boundary value n ≡ byte_len (fitting value n))
unfolding last_boundary
last_boundary-fitting value zero h =
    let (s, e) = slice_to-fitting value zero (unfold is_char_boundary in refl) in (s, sym e)
last_boundary-fitting value (suc n) h = elim (Bool-cases (is_char_boundary value (suc n))) [
  | inl at ↦ let (s, e) = slice_to-fitting value (suc n) at in rw (at, last_boundary) (s, sym e)
  | inr inside ↦
      rw (inside, last_boundary)
        (rw (fitting-between value n inside h) (last_boundary-fitting value n (omega arith)))
]

-- The measured length is that of the truncated text, truncation never cuts a character, it keeps the
-- longest prefix within the limit, and it reports whether the text was longer.
pub truncate_utf8-fitting :
    (value : Text) (limit : ℕ)
    → (truncate_utf8 value limit ≡ some (fitting value limit, ltb limit (byte_len value)))
      × (truncated_utf8_len value limit
          ≡ (byte_len (fitting value limit), ltb limit (byte_len value)))
unfolding truncate_utf8 truncated_utf8_len
truncate_utf8-fitting value limit = elim (Bool-cases (ltb limit (byte_len value))) [
  | inl long ↦
      let k : min limit (byte_len value) ≡ limit = ground arith in
      let (s, e) = last_boundary-fitting value limit (ground arith) in ground (arith, long, k, s, e)
  | inr short ↦
      let f = fitting_all value limit (ground arith) in ground (arith, short, f, slice_all value)
]

lossy_utf8_len_from-lossy :
    (fuel rounds : ℕ) (bytes : Bytes) (total : ℕ)
    → length bytes < fuel
    → length bytes ≤ rounds
    → lossy_utf8_len_from fuel bytes total
      ≡ some (min (total + byte_len (lossy rounds bytes)) u64_max)
unfolding lossy_utf8_len_from
lossy_utf8_len_from-lossy zero rounds bytes total h k = absurd (omega arith)
lossy_utf8_len_from-lossy (suc fuel) rounds bytes total h k =
    split (from_utf8 bytes) refl (from_utf8-MeasuresLossy rounds bytes k)
      λ left more total' a b. lossy_utf8_len_from-lossy fuel more left total' a b
  where
    split :
        (r : Result Utf8Error (List ℕ))
        → from_utf8 bytes ≡ r
        → MeasuresLossy rounds bytes r
        → ((left : Bytes) (more total' : ℕ)
            → length left < fuel
            → length left ≤ more
            → lossy_utf8_len_from fuel left total'
              ≡ some (min (total' + byte_len (lossy more left)) u64_max))
        → lossy_utf8_len_from (suc fuel) bytes total
          ≡ some (min (total + byte_len (lossy rounds bytes)) u64_max)
    split (ok s) e m later =
        rw (e, lossy_utf8_len_from) (ap (λ n. some (min (total + n) u64_max)) (sym m))
    split (err x) e m later = elim (Option-cases x.error_len) [
      | inl cut ↦
          let b : byte_len (lossy rounds bytes) ≡ x.valid_up_to + 3 =
            subst (FollowsError rounds bytes x.valid_up_to) cut m in
          rw (e, lossy_utf8_len_from) (rw cut (ap some (omega arith)))
      | inr (n, more) ↦
          let (rounds', a, b, c) = subst (FollowsError rounds bytes x.valid_up_to) more m in
          rw (e, lossy_utf8_len_from)
            (rw more (
              later (drop n (drop x.valid_up_to bytes)) rounds'
                (sat_add (sat_add total x.valid_up_to) 3) (omega arith) a
              ∙ ap some (omega arith)))
    ]

-- The count of the bytes that a lossy decoding takes, which reads the input by its errors, always
-- ends and is the length of the lossy decoding.
pub lossy_utf8_len-from_utf8_lossy :
    (bytes : Bytes) → lossy_utf8_len bytes ≡ some (min (byte_len (from_utf8_lossy bytes)) u64_max)
unfolding lossy_utf8_len from_utf8_lossy
lossy_utf8_len-from_utf8_lossy bytes =
    rw
      (lossy_utf8_len_from-lossy (suc (length bytes)) (length bytes) bytes 0 (omega arith)
        (omega arith))
      (ap (λ n. some (min n u64_max)) (omega arith))
