-- ===== src/Capture/Record/Stream.antt =====
-- A body against the bytes that streamed past it, src/capture/model.rs.
use fluxcope.Common.{
  ℕ, ◌+◌, ◌≤◌, ◌≡◌, sym, Bool, false, none, some, ◌++◌, inl, inr, arith, u64_max, min, length, take,
  sat_add, ◌==◌, Bool-cases, append-nil, ==_iff,
}
use fluxcope.Capture.Body.{Bytes, BodyCapture, is_terminal}
use fluxcope.Capture.Body.Content.{content, IsOpen, append-content}
use fluxcope.Capture.Record.{retain}

-- The preview is a prefix of the stream, as long as its count says and within its limit; it is the whole
-- stream while no limit was met and capture is enabled; and the stream's length is counted.
pub record Holds (stream : Bytes) (limit : ℕ) (disabled : Bool) (b : BodyCapture) : Type 0 where
  pub kept : content b ≡ take b.status.retained_bytes stream
  pub within : b.status.retained_bytes ≤ length stream
  pub bounded : b.status.retained_bytes ≤ limit
  pub whole :
      b.status.preview_limit ≡ none → disabled ≡ false → b.status.retained_bytes ≡ length stream
  pub observed : b.status.observed_bytes ≡ min (length stream) u64_max
  pub shape : is_terminal b.status.stream ≡ false → IsOpen b

-- what `retain` leaves, given how many bytes it was told to keep
pub record Retains (b : BodyCapture) (bytes : Bytes) (kept : ℕ) (after : BodyCapture) : Type 0 where
  pub is_open : IsOpen after
  pub content_is : content after ≡ content b ++ take kept bytes
  pub status_is :
      after.status ≡ record (b.status) { retained_bytes = b.status.retained_bytes + kept }

pub retain-Retains :
    (b : BodyCapture) (bytes : Bytes) (kept : ℕ)
    → IsOpen b
    → b.status.retained_bytes + kept ≤ u64_max
    → (after : BodyCapture) × (retain b bytes kept ≡ some after) × Retains b bytes kept after
retain-Retains b bytes kept o small = elim (Bool-cases (kept == 0)) [
  | inl zero ↦
      let z = (==_iff _ _).0 zero in
      (
        b,
        rw zero,
        record {
          is_open = o;
          content_is = rw z (sym (append-nil (content b)));
          status_is = ground (arith, z);
        },
      )
  | inr more ↦
      let (b', e, o', c, s) = append-content b (take kept bytes) o in
      (
        record b' {
          status = record (b'.status) { retained_bytes = sat_add b'.status.retained_bytes kept };
        },
        rw (more, e),
        record {
          is_open = record { chain = o'.chain; partial = o'.partial; unsealed = o'.unsealed };
          content_is = c;
          status_is = ground (arith, s);
        },
      )
]
