-- ===== src/Rpc/Framing/Writing.antt =====
-- Writing a frame, src/control_rpc/framing.rs: the bytes that it gets, and when it is refused.
use fluxcope.Common.{
  ℕ, ◌+◌, ◌-◌, ◌≤◌, ◌<◌, ◌≡◌, refl, sym, ap, ◌∙◌, inl, inr, true, false, Option, none, some, List,
  [], ◌∷◌, ◌++◌, arith, length, ltb, u64_max, Bool-cases, length-append, append_assoc, append-nil,
}
use fluxcope.Common.Outcome.{Result, ok, err}
use fluxcope.Common.Text.{Text}
use fluxcope.Capture.Body.{Bytes}
use fluxcope.Rpc.Framing.{
  WriteError, reserve_for, Allocator, CappedFrameWriter, write, to_writer, ended,
}
use fluxcope.Rpc.Framing.Reserve.{Grown, Reserves, reserve_for-Reserves}

-- all chunks, one after the other
unfoldable pub payload : List Bytes → Bytes
payload [] = []
payload (chunk ∷ chunks) = chunk ++ payload chunks

pub record IsFrame (writer : CappedFrameWriter) : Type 0 where
  pub prefixed : 4 ≤ length writer.bytes
  pub within : length writer.bytes ≤ writer.max_payload_bytes + 4
  pub representable : writer.max_payload_bytes + 4 ≤ u64_max
  pub clean : writer.overflowed ≡ false

-- The outcomes of writing so many bytes: past the limit only the flag is set; else the bytes stand at
-- the end and the result is the given one, unless the allocator refused.
pub data Wrote (allocator : Allocator) (writer : CappedFrameWriter) (more : Bytes)
    (result : Option WriteError) : CappedFrameWriter × Option WriteError → Type 0 where
  over :
      {w : CappedFrameWriter} {r : Option WriteError}
      → writer.max_payload_bytes + 4 < length writer.bytes + length more
      → w.overflowed ≡ true
      → (e : WriteError) → r ≡ some e
      → Wrote allocator writer more result (w, r)
  refused :
      {w : CappedFrameWriter} {r : Option WriteError}
      → r ≡ some WriteError.allocation_failed
      → w.overflowed ≡ false
      → (n : ℕ) → allocator.grant n ≡ none
      → Wrote allocator writer more result (w, r)
  whole :
      {w : CappedFrameWriter} {r : Option WriteError}
      → w.bytes ≡ writer.bytes ++ more
      → r ≡ result
      → IsFrame w
      → Grown allocator writer (record w { bytes = writer.bytes })
      → Wrote allocator writer more result (w, r)

write-Wrote :
    (allocator : Allocator) (writer : CappedFrameWriter) (buffer : Bytes)
    → IsFrame writer
    → (x : CappedFrameWriter × Option WriteError) × (write allocator writer buffer ≡ some x)
      × Wrote allocator writer buffer none x
unfolding write
write-Wrote allocator writer buffer f =
    elim (Bool-cases (ltb writer.max_payload_bytes (length writer.bytes - 4 + length buffer))) [
      | inl long ↦ (
        (record writer { overflowed = true }, some WriteError.frame_limit_exceeded),
        ground (arith, long),
        over (ground (arith, f.prefixed)) refl WriteError.frame_limit_exceeded refl,
      )
      | inr short ↦
          let fits : length writer.bytes + length buffer ≤ writer.max_payload_bytes + 4 =
            ground (arith, f.prefixed) in
          let word : ltb u64_max (length writer.bytes - 4 + length buffer) ≡ false =
            ground (arith, f.representable) in
          let (r, e, g) =
            reserve_for-Reserves allocator writer (length buffer) fits f.representable in
          place r e g fits word short
    ]
  where
    place :
        (r : Result WriteError CappedFrameWriter)
        → reserve_for allocator writer (length buffer) ≡ some r
        → Reserves allocator writer r
        → length writer.bytes + length buffer ≤ writer.max_payload_bytes + 4
        → ltb u64_max (length writer.bytes - 4 + length buffer) ≡ false
        → ltb writer.max_payload_bytes (length writer.bytes - 4 + length buffer) ≡ false
        → (x : CappedFrameWriter × Option WriteError) × (write allocator writer buffer ≡ some x)
          × Wrote allocator writer buffer none x
    place (ok grown) e g fits word short =
        let long = length-append grown.bytes buffer in
        (
          (record grown { bytes = grown.bytes ++ buffer }, none),
          rw (word, short, e),
          whole (ap (λ b. b ++ buffer) g.bytes_same) refl
              (record {
                prefixed = omega (arith, long, ap length g.bytes_same, f.prefixed);
                within = omega (arith, long, ap length g.bytes_same, g.max_same);
                representable = omega (arith, g.max_same, f.representable);
                clean = g.flag_same ∙ f.clean;
              })
              (record {
                bytes_same = refl;
                max_same = g.max_same;
                flag_same = g.flag_same;
                bounded = g.bounded;
              }),
        )
    place (err x) e g fits word short =
        ((writer, some x), rw (word, short, e), refused (ap some g.0) f.clean g.1.0 g.1.1)

-- two writes in a row
joined :
    {allocator : Allocator} {w : CappedFrameWriter} {result : Option WriteError}
    {y : CappedFrameWriter × Option WriteError} (writer : CappedFrameWriter) (chunk more : Bytes)
    → w.bytes ≡ writer.bytes ++ chunk
    → IsFrame w
    → Grown allocator writer (record w { bytes = writer.bytes })
    → Wrote allocator w more result y
    → Wrote allocator writer (chunk ++ more) result y
joined writer chunk more b f g (over long flag x re) =
    over
      (omega (
        arith,
        long,
        ap length b,
        g.max_same,
        length-append writer.bytes chunk,
        length-append chunk more,
      ))
      flag x re
joined writer chunk more b f g (refused re clean n none_left) = refused re clean n none_left
joined writer chunk more b f g (whole b' re f' g') =
    whole (b' ∙ ap (λ bytes. bytes ++ more) b ∙ append_assoc writer.bytes chunk more) re f'
      (record {
        bytes_same = refl;
        max_same = g'.max_same ∙ g.max_same;
        flag_same = g'.flag_same ∙ g.flag_same;
        bounded = λ exact h. omega (
          arith,
          g.bounded exact h,
          g'.bounded exact (omega (arith, g.bounded exact h, g.max_same)),
          g.max_same,
        );
      })

to_writer-stop :
    (allocator : Allocator) (writer : CappedFrameWriter) (chunk : Bytes) (chunks : List Bytes)
    (failure : Option Text) {w : CappedFrameWriter} {x : WriteError}
    → write allocator writer chunk ≡ some (w, some x)
    → to_writer allocator writer (chunk ∷ chunks) failure ≡ some (w, some x)
unfolding to_writer
to_writer-stop allocator writer chunk chunks failure e = rw (e, to_writer)

to_writer-next :
    (allocator : Allocator) (writer : CappedFrameWriter) (chunk : Bytes) (chunks : List Bytes)
    (failure : Option Text) {w : CappedFrameWriter}
    → write allocator writer chunk ≡ some (w, none)
    → to_writer allocator writer (chunk ∷ chunks) failure ≡ to_writer allocator w chunks failure
unfolding to_writer
to_writer-next allocator writer chunk chunks failure e = rw (e, to_writer)

-- A whole value is written, or refused for its length or for want of memory; the writing ends.
pub to_writer-Wrote :
    (allocator : Allocator) (writer : CappedFrameWriter) (chunks : List Bytes)
    (failure : Option Text)
    → IsFrame writer
    → (x : CappedFrameWriter × Option WriteError) × (to_writer allocator writer chunks failure
        ≡ some x)
      × Wrote allocator writer (payload chunks) (ended allocator failure) x
unfolding to_writer payload
to_writer-Wrote allocator writer [] failure f = (
  (writer, ended allocator failure),
  refl,
  whole (sym (append-nil writer.bytes)) refl f
      (record { bytes_same = refl; max_same = refl; flag_same = refl; bounded = λ exact h. h }),
)
to_writer-Wrote allocator writer (chunk ∷ chunks) failure f =
    let (x, e, w) = write-Wrote allocator writer chunk f in
    step x.0 x.1 e w λ w' f'. to_writer-Wrote allocator w' chunks failure f'
  where
    step :
        (w : CappedFrameWriter) (r : Option WriteError)
        → write allocator writer chunk ≡ some (w, r)
        → Wrote allocator writer chunk none (w, r)
        → ((w' : CappedFrameWriter)
            → IsFrame w'
            → (y : CappedFrameWriter × Option WriteError) × (to_writer allocator w' chunks failure
                ≡ some y)
              × Wrote allocator w' (payload chunks) (ended allocator failure) y)
        → (y : CappedFrameWriter × Option WriteError) × (to_writer allocator writer
              (chunk ∷ chunks)
              failure
            ≡ some y)
          × Wrote allocator writer (chunk ++ payload chunks) (ended allocator failure) y
    step w r e (over long flag x re) later = (
      (w, some x),
      to_writer-stop allocator writer chunk chunks failure (e ∙ ap (λ o. some (w, o)) re),
      over (omega (arith, long, length-append chunk (payload chunks))) flag x refl,
    )
    step w r e (refused re clean n none_left) later = (
      (w, some WriteError.allocation_failed),
      to_writer-stop allocator writer chunk chunks failure (e ∙ ap (λ o. some (w, o)) re),
      refused refl clean n none_left,
    )
    step w r e (whole b re f' g) later =
        let (y, ey, wy) = later w f' in
        (
          y,
          to_writer-next allocator writer chunk chunks failure (e ∙ ap (λ o. some (w, o)) re) ∙ ey,
          joined writer chunk (payload chunks) b f' g wy,
        )
