-- ===== src/Rpc/Framing/Reserve.antt =====
-- The growth of a frame's buffer, `reserve_for` of src/control_rpc/framing.rs: the loop ends, and asks
-- for enough and never for more than the limit.
use fluxcope.Common.{
  ℕ, zero, suc, ◌+◌, ◌-◌, ◌≤◌, ◌<◌, ◌≡◌, refl, sym, subst, inl, inr, false, ◌&&◌, none, some, arith,
  length, min, max, ltb, leb, ◌==◌, u64_max, sat_mul, Bool-cases, Option-cases,
}
use fluxcope.Common.Outcome.{Result, ok, err}
use fluxcope.Rpc.Framing.{
  WriteError, Allocator, CappedFrameWriter, grow_target, grow_to, reserve_for,
}

grow_target-ok :
    (fuel target required maximum : ℕ)
    → required - target < fuel
    → 1 ≤ target
    → target ≤ maximum
    → required ≤ maximum
    → maximum ≤ u64_max
    → (t : ℕ) × (grow_target fuel target required maximum ≡ some (ok t))
      × (required ≤ t)
      × (t ≤ maximum)
unfolding grow_target
grow_target-ok zero target required maximum f p b r m = absurd (omega arith)
grow_target-ok (suc fuel) target required maximum f p b r m =
    elim (Bool-cases (ltb target required)) [
      | inr enough ↦ (target, rw enough, ground arith, b)
      | inl short ↦
          let next = min (sat_mul target 2) maximum in
          let stop : (ltb next required && next == maximum) ≡ false = ground arith in
          let (t, e, a, c) =
            grow_target-ok fuel next required maximum (ground arith) (omega arith) (omega arith) r
              m in
          (t, rw (short, stop) e, a, c)
    ]

-- A writer whose buffer may have moved: its bytes, limit and flag are as they were, and its capacity is
-- within the limit where the allocator grants exactly what it is asked for.
pub record Grown (allocator : Allocator) (writer grown : CappedFrameWriter) : Type 0 where
  pub bytes_same : grown.bytes ≡ writer.bytes
  pub max_same : grown.max_payload_bytes ≡ writer.max_payload_bytes
  pub flag_same : grown.overflowed ≡ writer.overflowed
  pub bounded :
      ((n c : ℕ) → allocator.grant n ≡ some c → c ≡ n)
      → writer.capacity ≤ writer.max_payload_bytes + 4
      → grown.capacity ≤ writer.max_payload_bytes + 4

abbrev pub Reserves : Allocator → CappedFrameWriter → Result WriteError CappedFrameWriter → Type 0
Reserves allocator writer (ok grown) = Grown allocator writer grown
Reserves allocator writer (err e) =
    (e ≡ WriteError.allocation_failed) × ((n : ℕ) × (allocator.grant n ≡ none))

same-Grown : (allocator : Allocator) (writer : CappedFrameWriter) → Grown allocator writer writer
same-Grown allocator writer = record {
  bytes_same = refl;
  max_same = refl;
  flag_same = refl;
  bounded = λ exact h. h;
}

grow_to-Reserves :
    (allocator : Allocator) (writer : CappedFrameWriter) (target : ℕ)
    → target ≤ writer.max_payload_bytes + 4
    → Reserves allocator writer (grow_to allocator writer target)
grow_to-Reserves allocator writer target h = elim (Option-cases (allocator.grant target)) [
  | inl refused ↦
      subst
        (λ o. Reserves allocator writer (elim o [
          | none ↦ err WriteError.allocation_failed
          | some capacity ↦ ok (record writer { capacity = capacity })
        ]))
        (sym refused) (refl, (target, refused))
  | inr (c, given) ↦
      subst
        (λ o. Reserves allocator writer (elim o [
          | none ↦ err WriteError.allocation_failed
          | some capacity ↦ ok (record writer { capacity = capacity })
        ]))
        (sym given)
        (record {
          bytes_same = refl;
          max_same = refl;
          flag_same = refl;
          bounded = λ exact k. omega (arith, exact target c given);
        })
]

-- room for what the limit allows is made, or the allocator refuses
pub reserve_for-Reserves :
    (allocator : Allocator) (writer : CappedFrameWriter) (additional : ℕ)
    → length writer.bytes + additional ≤ writer.max_payload_bytes + 4
    → writer.max_payload_bytes + 4 ≤ u64_max
    → (r : Result WriteError CappedFrameWriter) × (reserve_for allocator writer additional ≡ some r)
      × Reserves allocator writer r
unfolding reserve_for
reserve_for-Reserves allocator writer additional h k =
    let required = length writer.bytes + additional in
    let small : ltb u64_max required ≡ false = ground arith in
    let fits : ltb u64_max (writer.max_payload_bytes + 4) ≡ false = ground arith in
    elim (Bool-cases (leb required writer.capacity)) [
      | inl room ↦ (ok writer, rw (small, room), same-Grown allocator writer)
      | inr tight ↦
          let (t, e, a, b) =
            grow_target-ok (suc required) (max writer.capacity 4) required
              (writer.max_payload_bytes + 4) (omega arith) (omega arith) (ground arith) h k in
          (
            grow_to allocator writer t,
            rw (small, tight, fits, e),
            grow_to-Reserves allocator writer t b,
          )
    ]
