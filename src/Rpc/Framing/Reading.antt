-- ===== src/Rpc/Framing/Reading.antt =====
-- Reading a frame back, `read_frame_payload` of src/control_rpc/framing.rs.
use fluxcope.Common.{
  ℕ, suc, ◌+◌, ◌-◌, ◌≤◌, ◌<◌, ◌≡◌, ap, ◌∙◌, inl, inr, Bool, true, false, none, some, [], ◌∷◌, ◌++◌,
  arith, length, take, drop, ltb, if◌then◌else◌, Bool-cases, append_assoc, u64_max, length-append,
  length-take, take-append, drop-append, take_all, drop_all,
}
use fluxcope.Common.Outcome.{ok, err}
use fluxcope.Capture.Body.{Bytes}
use fluxcope.Rpc.Errors.{
  ControlError, argument_error, frame_prefix_truncated, frame_payload_truncated,
}
use fluxcope.Rpc.Framing.{
  Allocator, Serialized, WriteError, encode_json_frame, u32_max, to_be_bytes, from_be_bytes,
  read_exact, read_frame_payload,
}
use fluxcope.Rpc.Framing.Writing.{payload}
use fluxcope.Rpc.Framing.Encoding.{encode_json_frame-verdict}
use fluxcope.Common.Text.{Text}

be_round_trip : (n : ℕ) (rest : Bytes) → n ≤ u32_max → from_be_bytes (to_be_bytes n ++ rest) ≡ n
unfolding to_be_bytes from_be_bytes
be_round_trip n rest h = omega arith

read_four :
    (a b c d : ℕ) (rest : Bytes)
    → read_exact (a ∷ b ∷ c ∷ d ∷ rest) 4 ≡ some (a ∷ b ∷ c ∷ d ∷ [], rest)
unfolding read_exact
read_four a b c d rest = ground arith

read_exact_lem :
    (reader : Bytes) (n : ℕ)
    → n ≤ length reader
    → read_exact reader n ≡ some (take n reader, drop n reader)
unfolding read_exact
read_exact_lem reader n h = ground arith

read_exact_short : (reader : Bytes) (n : ℕ) → length reader < n → read_exact reader n ≡ none
unfolding read_exact
read_exact_short reader n h = ground arith

-- A reader behind the length `n`.
module _ (allocates : ℕ → Bool) (a b c d : ℕ) (rest : Bytes) (max_bytes n : ℕ)
    (declared : from_be_bytes (a ∷ b ∷ c ∷ d ∷ []) ≡ n) (fits : ltb max_bytes n ≡ false)
    (granted : allocates n ≡ true) where
  read_there :
      n ≤ length rest
      → read_frame_payload allocates (a ∷ b ∷ c ∷ d ∷ rest) max_bytes
        ≡ ok (take n rest, drop n rest)
  unfolding read_frame_payload
  read_there h =
      rw (read_four a b c d rest, read_frame_payload)
        (rw (declared, fits, granted) (rw (read_exact_lem rest n h)))

  read_cut :
      length rest < n
      → read_frame_payload allocates (a ∷ b ∷ c ∷ d ∷ rest) max_bytes
        ≡ err (argument_error frame_payload_truncated)
  unfolding read_frame_payload
  read_cut h =
      rw (read_four a b c d rest, read_frame_payload)
        (rw (declared, fits, granted) (rw (read_exact_short rest n h)))

read_frame_payload_short :
    (allocates : ℕ → Bool) (reader : Bytes) (max_bytes : ℕ)
    → length reader < 4
    → read_frame_payload allocates reader max_bytes ≡ err (argument_error frame_prefix_truncated)
unfolding read_frame_payload
read_frame_payload_short allocates reader max_bytes h =
    rw (read_exact_short reader 4 h, read_frame_payload)

-- the error of a frame that ends after so many bytes
abbrev pub truncated : ℕ → ControlError
truncated n =
    if ltb n 4
    then argument_error frame_prefix_truncated
    else argument_error frame_payload_truncated

module _ (allocates : ℕ → Bool) (bytes : Bytes) (max_bytes : ℕ) (word : length bytes ≤ u32_max)
    (fits : length bytes ≤ max_bytes) (granted : allocates (length bytes) ≡ true) where
  declared_is : from_be_bytes (to_be_bytes (length bytes)) ≡ length bytes
  unfolding to_be_bytes from_be_bytes
  declared_is = omega arith

  unread : ltb max_bytes (length bytes) ≡ false
  unread = ground arith

  read_frame_payload-framed :
      (rest : Bytes)
      → read_frame_payload allocates (to_be_bytes (length bytes) ++ (bytes ++ rest)) max_bytes
        ≡ ok (bytes, rest)
  read_frame_payload-framed rest =
      unfold to_be_bytes in
      read_there allocates _ _ _ _ (bytes ++ rest) max_bytes (length bytes) declared_is unread
        granted (omega (arith, length-append bytes rest))
      ∙ rw (
        take-append (length bytes) bytes rest (omega arith),
        take_all (length bytes) bytes (omega arith),
        drop-append (length bytes) bytes rest (omega arith),
        drop_all (length bytes) bytes (omega arith),
      )

  read_frame_payload-truncated :
      (n : ℕ)
      → n < 4 + length bytes
      → read_frame_payload allocates (take n (to_be_bytes (length bytes) ++ bytes)) max_bytes
        ≡ err (truncated n)
  read_frame_payload-truncated n h = elim (Bool-cases (ltb n 4)) [
    | inl short ↦ rw short (
        read_frame_payload_short allocates (take n (to_be_bytes (length bytes) ++ bytes)) max_bytes
          (ground (arith, length-take n (to_be_bytes (length bytes) ++ bytes))))
    | inr long ↦
        let k : n ≡ suc (suc (suc (suc (n - 4)))) = ground arith in
        rw (long, k)
          (unfold to_be_bytes in
            read_cut allocates _ _ _ _ (take (n - 4) bytes) max_bytes (length bytes) declared_is
              unread granted (ground (arith, length-take (n - 4) bytes)))
  ]

-- a frame that is read back, and what is read of its beginnings
pub record Transmits (allocates : ℕ → Bool) (bytes frame : Bytes) (max_bytes : ℕ) : Type 0 where
  pub whole :
      (rest : Bytes) → read_frame_payload allocates (frame ++ rest) max_bytes ≡ ok (bytes, rest)
  pub cut :
      (n : ℕ)
      → n < length frame
      → read_frame_payload allocates (take n frame) max_bytes ≡ err (truncated n)
  pub length_is : length frame ≡ 4 + length bytes

module _ (allocator : Allocator) (allocates : ℕ → Bool) (to_string : WriteError → Text)
    (value : Serialized) (max_written max_read : ℕ)
    (memory : (n : ℕ) → (c : ℕ) × (allocator.grant n ≡ some c)) where
  -- With memory granted on both sides, a value that serialises without an error to a payload within both
  -- limits and within the length's four bytes is encoded, and its frame is read back as that payload,
  -- leaving what follows the frame; a frame that ends early anywhere is an error that says whether its
  -- length or its payload was cut.
  pub encode_json_frame-Transmits :
      value.failure ≡ none
      → length (payload value.chunks) ≤ max_written
      → length (payload value.chunks) ≤ max_read
      → length (payload value.chunks) ≤ u32_max
      → max_written + 4 ≤ u64_max
      → allocates (length (payload value.chunks)) ≡ true
      → (frame : Bytes) × (encode_json_frame allocator to_string value max_written
          ≡ some (ok frame))
        × Transmits allocates (payload value.chunks) frame max_read
  encode_json_frame-Transmits fine written read word small granted =
      let bytes = payload value.chunks in
      let under : ltb max_written (length bytes) ≡ false = ground arith in
      let words : ltb u32_max (length bytes) ≡ false = ground arith in
      (
        to_be_bytes (length bytes) ++ bytes,
        encode_json_frame-verdict allocator to_string max_written memory value small
            ∙ rw (under, fine, words),
        record {
          whole = λ rest.
              ap (λ l. read_frame_payload allocates l max_read)
                (append_assoc (to_be_bytes (length bytes)) bytes rest)
              ∙ read_frame_payload-framed allocates bytes max_read word read granted rest;
          cut = λ n h.
              read_frame_payload-truncated allocates bytes max_read word read granted n
                (unfold to_be_bytes in omega arith);
          length_is = unfold to_be_bytes in omega arith;
        },
      )
