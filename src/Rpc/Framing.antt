-- ===== src/Rpc/Framing.antt =====
-- Frames of the private RPC, src/control_rpc/framing.rs: a length of four bytes, most significant
-- first, and a payload. A reader is the bytes that it still gives; a serialised value is the chunks
-- that serde_json hands to the writer, and the error that it ends with, if any. The allocator is a
-- parameter. The outer `none` of a writer is a loop that has run out of fuel.
pub mod Reserve
pub mod Writing
pub mod Reading
pub mod Encoding
use fluxcope.Common.{
  ℕ, zero, suc, ◌+◌, ◌-◌, ◌*◌, ◌/◌, ◌%◌, ◌≤◌, ◌≡◌, Bool, true, false, ◌&&◌, Option, none, some,
  List, [], ◌∷◌, ◌++◌, length, take, drop, min, max, ltb, leb, ◌==◌, if◌then◌else◌, u64_max,
  sat_mul,
}
use fluxcope.Common.Outcome.{Result, ok, err, ◌>>=◌}
use fluxcope.Common.Text.{Text}
use fluxcope.Capture.Body.{Bytes}
use fluxcope.Rpc.Errors.{
  ControlError, frame_prefix_truncated, frame_payload_truncated, frame_allocation_failed,
  lease_accounting_failed, reported, argument_error, unavailable_error, frame_too_large,
}

abbrev pub request_max_bytes : ℕ
request_max_bytes = 1048576

abbrev pub response_max_bytes : ℕ
response_max_bytes = 8388608

abbrev pub u32_max : ℕ
u32_max = 4294967295

-- `u32::to_be_bytes` and `u32::from_be_bytes`
unfoldable pub to_be_bytes : ℕ → Bytes
to_be_bytes n = n / 16777216 % 256 ∷ n / 65536 % 256 ∷ n / 256 % 256 ∷ n % 256 ∷ []

unfoldable pub from_be_bytes : Bytes → ℕ
from_be_bytes (a ∷ b ∷ c ∷ d ∷ _) = a * 16777216 + b * 65536 + c * 256 + d
from_be_bytes _ = 0

-- `read_exact`: the bytes, and the reader after them
unfoldable pub read_exact : Bytes → ℕ → Option (Bytes × Bytes)
read_exact reader n = if leb n (length reader) then some (take n reader, drop n reader) else none

-- The result, and the reader after it; `allocates` says whether a buffer of a size is granted.
unfoldable pub read_frame_payload : (ℕ → Bool) → Bytes → ℕ → Result ControlError (Bytes × Bytes)
read_frame_payload allocates reader max_bytes = elim (read_exact reader 4) [
  | none ↦ err (argument_error frame_prefix_truncated)
  | some (prefix, rest) ↦
      let declared = from_be_bytes prefix in
      if ltb max_bytes declared
      then err (frame_too_large max_bytes)
      else if allocates declared
      then elim (read_exact rest declared) [
        | none ↦ err (argument_error frame_payload_truncated)
        | some r ↦ ok r
      ]
      else err (unavailable_error frame_allocation_failed)
]

-- `io::Error`
pub data WriteError : Type 0 where
  frame_limit_exceeded allocation_failed : WriteError
  ended_early : Text → WriteError

-- what `serde_json::to_writer` does with a value: chunks for `write_all`, and its own error at the end
pub record Serialized : Type 0 where
  pub chunks : List Bytes
  pub failure : Option Text

-- `CappedFrameWriter`, with the capacity of its vector
pub record CappedFrameWriter : Type 0 where
  pub bytes : Bytes
  pub capacity : ℕ
  pub max_payload_bytes : ℕ
  pub overflowed : Bool

-- The loop of `reserve_for` that doubles the target.
unfoldable pub grow_target : ℕ → ℕ → ℕ → ℕ → Option (Result WriteError ℕ)
grow_target zero target required maximum = none
grow_target (suc fuel) target required maximum =
    let next = min (sat_mul target 2) maximum in
    let more = grow_target fuel next required maximum in
    if ltb target required
    then (if ltb next required && next == maximum then some (err frame_limit_exceeded) else more)
    else some (ok target)

-- `try_reserve_exact`: the capacity that is granted for at least so many bytes in all
pub record Allocator : Type 0 where
  pub grant : ℕ → Option ℕ
  pub granted : (n c : ℕ) → grant n ≡ some c → n ≤ c

module _ (allocator : Allocator) where
  open allocator use {grant}

  abbrev pub grow_to : CappedFrameWriter → ℕ → Result WriteError CappedFrameWriter
  grow_to writer target = elim (grant target) [
    | none ↦ err allocation_failed
    | some capacity ↦ ok (record writer { capacity = capacity })
  ]

  -- each round of the loop but the last raises the target
  unfoldable pub reserve_for : CappedFrameWriter → ℕ → Option (Result WriteError CappedFrameWriter)
  reserve_for writer additional =
      let required = length writer.bytes + additional in
      let maximum = writer.max_payload_bytes + 4 in
      if ltb u64_max required
      then some (err frame_limit_exceeded)
      else if leb required writer.capacity
      then some (ok writer)
      else if ltb u64_max maximum
      then some (err frame_limit_exceeded)
      else elim (grow_target (suc required) (max writer.capacity 4) required maximum) [
        | none ↦ none
        | some (err e) ↦ some (err e)
        | some (ok target) ↦ some (grow_to writer target)
      ]

  -- the writer after a `write`, and its result
  unfoldable pub write : CappedFrameWriter → Bytes → Option (CappedFrameWriter × Option WriteError)
  write writer buffer =
      let next = length writer.bytes - 4 + length buffer in
      let over : CappedFrameWriter = record writer { overflowed = true } in
      if ltb u64_max next
      then some (over, some frame_limit_exceeded)
      else if ltb writer.max_payload_bytes next
      then some (over, some frame_limit_exceeded)
      else elim (reserve_for writer (length buffer)) [
        | none ↦ none
        | some (err e) ↦ some (writer, some e)
        | some (ok grown) ↦ some (record grown { bytes = grown.bytes ++ buffer }, none)
      ]

  abbrev pub ended : Option Text → Option WriteError
  ended none = none
  ended (some error) = some (ended_early error)

  -- `serde_json::to_writer`
  unfoldable pub to_writer :
      CappedFrameWriter → List Bytes → Option Text → Option (CappedFrameWriter × Option WriteError)
  to_writer writer [] failure = some (writer, ended failure)
  to_writer writer (chunk ∷ chunks) failure = elim (write writer chunk) [
    | none ↦ none
    | some (writer', some e) ↦ some (writer', some e)
    | some (writer', none) ↦ to_writer writer' chunks failure
  ]

  unfoldable pub new : ℕ → Result ControlError CappedFrameWriter
  new max_payload_bytes = elim (grant 4) [
    | none ↦ err (unavailable_error frame_allocation_failed)
    | some capacity ↦ ok (record {
      bytes = 0 ∷ 0 ∷ 0 ∷ 0 ∷ [];
      capacity = capacity;
      max_payload_bytes = max_payload_bytes;
      overflowed = false;
    })
  ]

  unfoldable pub finish : CappedFrameWriter → Result ControlError Bytes
  finish writer =
      let payload_length = length writer.bytes - 4 in
      if ltb u32_max payload_length
      then err (frame_too_large writer.max_payload_bytes)
      else ok (to_be_bytes payload_length ++ drop 4 writer.bytes)

  -- what `encode_json_frame` makes of the writer and the result of the serialisation
  abbrev pub after_serialization :
      ℕ → CappedFrameWriter × Option WriteError → (WriteError → Text) → Result ControlError Bytes
  after_serialization max_payload_bytes (writer, result) to_string =
      if writer.overflowed then err (frame_too_large max_payload_bytes) else elim result [
        | some e ↦ err (argument_error (reported (to_string e)))
        | none ↦ finish writer
      ]

  unfoldable pub encode_json_frame :
      (WriteError → Text) → Serialized → ℕ → Option (Result ControlError Bytes)
  encode_json_frame to_string value max_payload_bytes = elim (new max_payload_bytes) [
    | err e ↦ some (err e)
    | ok writer ↦ elim (to_writer writer value.chunks value.failure) [
      | none ↦ none
      | some written ↦ some (after_serialization max_payload_bytes written to_string)
    ]
  ]

-- `CappedCountingWriter`
pub record CappedCountingWriter : Type 0 where
  pub payload_bytes : ℕ
  pub max_payload_bytes : ℕ
  pub overflowed : Bool

unfoldable pub count : CappedCountingWriter → Bytes → CappedCountingWriter × Option WriteError
count writer buffer =
    let next = writer.payload_bytes + length buffer in
    let over : CappedCountingWriter = record writer { overflowed = true } in
    if ltb u64_max next
    then (over, some frame_limit_exceeded)
    else if ltb writer.max_payload_bytes next
    then (over, some frame_limit_exceeded)
    else (record writer { payload_bytes = next }, none)

-- `serde_json::to_writer` into it
unfoldable pub count_all :
    CappedCountingWriter → List Bytes → Option Text → CappedCountingWriter × Option WriteError
count_all writer [] none = (writer, none)
count_all writer [] (some error) = (writer, some (ended_early error))
count_all writer (chunk ∷ chunks) failure =
    let rest = count_all (count writer chunk).0 chunks failure in
    elim (count writer chunk).1 [ some e ↦ ((count writer chunk).0, some e) | none ↦ rest ]

unfoldable pub ensure_json_payload_within_limit :
    (WriteError → Text) → Serialized → ℕ → Result ControlError (Unit {0})
ensure_json_payload_within_limit to_string value max_payload_bytes =
    let (writer, result) =
      count_all
        (record { payload_bytes = 0; max_payload_bytes = max_payload_bytes; overflowed = false })
        value.chunks value.failure in
    if writer.overflowed
    then err (frame_too_large max_payload_bytes)
    else elim result [ none ↦ ok tt | some e ↦ err (argument_error (reported (to_string e))) ]
