-- ===== src/Rpc/Framing/Encoding.antt =====
-- Encoding a frame and checking its length, src/control_rpc/framing.rs, against one description.
use fluxcope.Common.{
  ℕ, ◌+◌, ◌-◌, ◌≤◌, ◌≡◌, refl, ap, inl, inr, true, false, Option, none, some, List, [], ◌∷◌, ◌++◌,
  arith, length, drop, ltb, if◌then◌else◌, u64_max, Bool-cases, Option-cases, length-append,
}
use fluxcope.Common.Outcome.{Result, ok, err}
use fluxcope.Common.Text.{Text}
use fluxcope.Capture.Body.{Bytes}
use fluxcope.Rpc.Errors.{ControlError, argument_error, frame_too_large, reported}
use fluxcope.Rpc.Framing.{
  WriteError, ended_early, Serialized, Allocator, CappedFrameWriter, CappedCountingWriter, u32_max,
  to_be_bytes, ended, new, finish, encode_json_frame, after_serialization, count, count_all,
  ensure_json_payload_within_limit,
}
use fluxcope.Rpc.Framing.Writing.{payload, Wrote, over, refused, whole, to_writer-Wrote}

-- What becomes of a value: its length is checked first, then its own failure; a payload with a length
-- of more than four bytes is too large as well.
abbrev failed : (WriteError → Text) → Text → ControlError
failed to_string error = argument_error (reported (to_string (ended_early error)))

abbrev pub verdict :
    {A : Type 0}
    → (WriteError → Text)
    → Serialized
    → ℕ
    → Result ControlError A
    → Result ControlError A
verdict to_string value max_bytes done =
    if ltb max_bytes (length (payload value.chunks))
    then err (frame_too_large max_bytes)
    else elim value.failure [ none ↦ done | some error ↦ err (failed to_string error) ]

abbrev pub framed : Bytes → ℕ → Result ControlError Bytes
framed bytes max_bytes =
    if ltb u32_max (length bytes)
    then err (frame_too_large max_bytes)
    else ok (to_be_bytes (length bytes) ++ bytes)

-- the writer that a frame starts with
abbrev started : ℕ → ℕ → CappedFrameWriter
started max_bytes capacity = record {
  bytes = 0 ∷ 0 ∷ 0 ∷ 0 ∷ [];
  capacity = capacity;
  max_payload_bytes = max_bytes;
  overflowed = false;
}

ltb_ge : {a b : ℕ} → b ≤ a → ltb a b ≡ false
ltb_ge h = ground arith

finish_lem :
    (allocator : Allocator) (w : CappedFrameWriter) (bytes : Bytes)
    → w.bytes ≡ 0 ∷ 0 ∷ 0 ∷ 0 ∷ bytes
    → finish allocator w ≡ framed bytes w.max_payload_bytes
unfolding finish
finish_lem allocator w bytes b =
    let n : length w.bytes - 4 ≡ length bytes = omega (arith, ap length b) in
    let d : drop 4 w.bytes ≡ bytes = ap (drop 4) b in rw (n, d)

module _ (allocator : Allocator) (to_string : WriteError → Text) (max_bytes : ℕ)
    (memory : (n : ℕ) → (c : ℕ) × (allocator.grant n ≡ some c)) where
  after-verdict :
      (value : Serialized) (capacity : ℕ) (w : CappedFrameWriter) (r : Option WriteError)
      → Wrote allocator
          (started max_bytes capacity)
          (payload value.chunks)
          (ended allocator value.failure)
          (w, r)
      → after_serialization allocator max_bytes (w, r) to_string
        ≡ verdict to_string value max_bytes (framed (payload value.chunks) max_bytes)
  after-verdict value capacity w r (over long flag x re) =
      let l : ltb max_bytes (length (payload value.chunks)) ≡ true = ground arith in rw (flag, l)
  after-verdict value capacity w r (refused re clean n none_left) =
      let (c, given) = memory n in absurd (cc (given, none_left))
  after-verdict value capacity w r (whole b re f g) =
      let n : length w.bytes ≡ 4 + length (payload value.chunks) = omega (arith, ap length b) in
      let l : ltb max_bytes (length (payload value.chunks)) ≡ false =
        ltb_ge (omega (arith, f.within, g.max_same, n)) in
      elim (Option-cases value.failure) [
        | inl fine ↦
            rw (f.clean, l, re, fine, finish_lem allocator w (payload value.chunks) b, g.max_same)
        | inr (error, bad) ↦ rw (f.clean, l, re, bad)
      ]

  new_lem :
      {c : ℕ} → allocator.grant 4 ≡ some c → new allocator max_bytes ≡ ok (started max_bytes c)
  unfolding new
  new_lem given = rw (given, new)

  -- With memory granted and a limit that leaves room for the length, encoding returns: a payload past
  -- the limit is too large, else a failure of the serialisation is an invalid argument, else a payload
  -- whose length does not fit four bytes is too large, and any other becomes its length and itself.
  pub encode_json_frame-verdict :
      (value : Serialized)
      → max_bytes + 4 ≤ u64_max
      → encode_json_frame allocator to_string value max_bytes
        ≡ some (verdict to_string value max_bytes (framed (payload value.chunks) max_bytes))
  unfolding encode_json_frame
  encode_json_frame-verdict value small =
      let (c, given) = memory 4 in
      let (x, e, w) =
        to_writer-Wrote allocator (started max_bytes c) value.chunks value.failure (record {
          prefixed = omega arith;
          within = omega arith;
          representable = small;
          clean = refl;
        }) in
      rw (new_lem given, encode_json_frame) (rw e (ap some (after-verdict value c x.0 x.1 w)))

-- the error that a serialisation ends with
abbrev own_failure : Option Text → Option WriteError
own_failure none = none
own_failure (some error) = some (ended_early error)

count_short :
    (writer : CappedCountingWriter) (chunk : Bytes)
    → ltb u64_max (writer.payload_bytes + length chunk) ≡ false
    → ltb writer.max_payload_bytes (writer.payload_bytes + length chunk) ≡ false
    → count writer chunk
      ≡ (record writer { payload_bytes = writer.payload_bytes + length chunk }, none)
unfolding count
count_short writer chunk word short = rw (word, short)

count_all-cons :
    (writer writer' : CappedCountingWriter) (chunk : Bytes) (chunks : List Bytes)
    (failure : Option Text)
    → count writer chunk ≡ (writer', none)
    → count_all writer (chunk ∷ chunks) failure ≡ count_all writer' chunks failure
unfolding count_all
count_all-cons writer writer' chunk chunks failure e =
    rw (e, count_all) (ap (λ w. count_all w chunks failure) (ap (λ p. p.0) e))

count_all_lem :
    (writer : CappedCountingWriter) (chunks : List Bytes) (failure : Option Text)
    → writer.payload_bytes ≤ writer.max_payload_bytes
    → writer.max_payload_bytes ≤ u64_max
    → writer.overflowed ≡ false
    → ((count_all writer chunks failure).0.overflowed
        ≡ ltb writer.max_payload_bytes (writer.payload_bytes + length (payload chunks)))
      × (writer.payload_bytes + length (payload chunks) ≤ writer.max_payload_bytes
          → (count_all writer chunks failure).1 ≡ own_failure failure)
unfolding count_all count payload
count_all_lem writer [] none h k f = ground arith
count_all_lem writer [] (some error) h k f = ground arith
count_all_lem writer (chunk ∷ chunks) failure h k f =
    let l = length-append chunk (payload chunks) in
    let assoc : writer.payload_bytes + length (chunk ++ payload chunks)
        ≡ writer.payload_bytes + length chunk + length (payload chunks) =
      omega arith in
    elim (Bool-cases (ltb writer.max_payload_bytes (writer.payload_bytes + length chunk))) [
      | inl long ↦ ground (arith, long, l)
      | inr short ↦
          let word : ltb u64_max (writer.payload_bytes + length chunk) ≡ false = ground arith in
          let one = count_short writer chunk word short in
          let ih =
            count_all_lem (record writer { payload_bytes = writer.payload_bytes + length chunk })
              chunks failure (ground arith) k f in
          rw
            (
              count_all-cons writer
                  (record writer { payload_bytes = writer.payload_bytes + length chunk }) chunk
                  chunks failure one,
              payload,
            )
            (rw assoc ih)
    ]

-- For a limit that is a word, checking a value without keeping it refuses it for its length or its own
-- failure exactly as encoding does.
pub ensure_json_payload_within_limit-verdict :
    (to_string : WriteError → Text) (value : Serialized) (max_bytes : ℕ)
    → max_bytes ≤ u64_max
    → ensure_json_payload_within_limit to_string value max_bytes
      ≡ verdict to_string value max_bytes (ok tt)
unfolding ensure_json_payload_within_limit
ensure_json_payload_within_limit-verdict to_string value max_bytes small =
    let (flag, rest) =
      count_all_lem
        (record { payload_bytes = 0; max_payload_bytes = max_bytes; overflowed = false })
        value.chunks value.failure (omega arith) small refl in
    let z : 0 + length (payload value.chunks) ≡ length (payload value.chunks) = omega arith in
    elim (Bool-cases (ltb max_bytes (length (payload value.chunks)))) [
      | inl long ↦ rw (flag, z, long)
      | inr short ↦
          let result = rest (ground arith) in
          elim (Option-cases value.failure) [
            | inl fine ↦ rw (flag, z, short, result, fine)
            | inr (error, bad) ↦ rw (flag, z, short, result, bad)
          ]
    ]
