-- ===== src/Capture/Metadata.antt =====
-- Measuring and capturing the metadata of an exchange, src/capture/publisher.rs. A header map is
-- the list of its fields in the order of its iteration: a name, and a value of any bytes. A text's
-- length is that of its UTF-8 bytes, and a method is its name.
pub mod Lengths
pub mod Headers
pub mod Measured
use fluxcope.Common.{
  ℕ, zero, suc, ◌+◌, Bool, true, false, ◌||◌, Option, none, some, List, [], ◌∷◌, length, drop, min,
  sat_add, ltb, leb, if◌then◌else◌,
}
use fluxcope.Common.Outcome.{ok, err}
use fluxcope.Common.Outcome.Panic.{◌>>=◌}
use fluxcope.Common.Text.Utf8.{
  Utf8Error, byte_len, is_char_boundary, slice_to, from_utf8, from_utf8_lossy,
}
use fluxcope.Capture.Body.{Bytes}
use fluxcope.Capture.Record.{Text, RequestMetadata, ResponseMetadata, MetadataTruncation}

pub record CapturePolicy : Type 0 where
  pub max_concurrent_exchanges : ℕ
  pub queue_capacity : ℕ
  pub request_target_bytes : ℕ
  pub header_bytes_per_side : ℕ
  pub request_preview_bytes : ℕ
  pub response_preview_bytes : ℕ
  pub total_retained_bytes : ℕ
  pub retained_records : ℕ

abbrev pub default_policy : CapturePolicy
default_policy = record {
  max_concurrent_exchanges = 256;
  queue_capacity = 256;
  request_target_bytes = 16384;
  header_bytes_per_side = 262144;
  request_preview_bytes = 2097152;
  response_preview_bytes = 8388608;
  total_retained_bytes = 268435456;
  retained_records = 10000;
}

abbrev pub HeaderMap : Type 0
HeaderMap = List (Text × Bytes)

pub record RequestCaptureInput : Type 0 where
  pub method : Text
  pub original_uri : Text
  pub effective_uri : Text
  pub local_path : Option Text
  pub headers : HeaderMap

pub record ResponseCaptureInput : Type 0 where
  pub status : ℕ
  pub headers : HeaderMap

-- `while boundary > 0 && !value.is_char_boundary(boundary)`
unfoldable pub last_boundary : Text → ℕ → ℕ
last_boundary value zero = 0
last_boundary value (suc boundary) = elim (is_char_boundary value (suc boundary)) [
  | true ↦ suc boundary
  | false ↦ last_boundary value boundary
]

unfoldable pub truncated_utf8_len : Text → ℕ → ℕ × Bool
truncated_utf8_len value limit =
    if leb (byte_len value) limit
    then (byte_len value, false)
    else (last_boundary value (min limit (byte_len value)), true)

-- `none` is the panic of a slice that cuts a character
unfoldable pub truncate_utf8 : Text → ℕ → Option (Text × Bool)
truncate_utf8 value limit = do
  let measured = truncated_utf8_len value limit
  kept ← slice_to value measured.0
  some (kept, measured.1)

-- The loop of `lossy_utf8_len`; `none` where its fuel runs out. `'�'.len_utf8()` is 3.
unfoldable pub lossy_utf8_len_from : ℕ → Bytes → ℕ → Option ℕ
lossy_utf8_len_from zero bytes total = none
lossy_utf8_len_from (suc fuel) bytes total = elim (from_utf8 bytes) [
  | ok _ ↦ some (sat_add total (length bytes))
  | err error ↦
      let more = sat_add (sat_add total error.valid_up_to) 3 in
      elim error.error_len [
        | none ↦ some more
        | some error_len ↦
            lossy_utf8_len_from fuel (drop error_len (drop error.valid_up_to bytes)) more
      ]
]

-- each round but the last leaves fewer bytes
unfoldable pub lossy_utf8_len : Bytes → Option ℕ
lossy_utf8_len bytes = lossy_utf8_len_from (suc (length bytes)) bytes 0

pub record HeaderMeasurement : Type 0 where
  pub retained_bytes : ℕ
  pub truncated : Bool

-- the loop of `measure_headers`, from what is measured
unfoldable pub measure_from : ℕ → HeaderMap → HeaderMeasurement → Option HeaderMeasurement
measure_from limit [] measured = some measured
measure_from limit ((name, value) ∷ headers) measured = do
  value_bytes ← lossy_utf8_len value
  let retained = sat_add measured.retained_bytes (sat_add (byte_len name) value_bytes)
  measure_from limit headers (
      if ltb limit retained
      then record measured { truncated = true }
      else record measured { retained_bytes = retained })

unfoldable pub measure_headers : HeaderMap → ℕ → Option HeaderMeasurement
measure_headers headers limit =
    measure_from limit headers (record { retained_bytes = 0; truncated = false })

-- the loop of `capture_headers`, from the bytes retained: the headers that it still pushes, and
-- whether it still drops one
unfoldable pub capture_from : ℕ → HeaderMap → ℕ → List (Text × Text) × Bool
capture_from limit [] retained = ([], false)
capture_from limit ((name, bytes) ∷ headers) retained =
    let value = from_utf8_lossy bytes in
    let total = sat_add retained (sat_add (byte_len name) (byte_len value)) in
    let dropped = capture_from limit headers retained in
    let pushed = capture_from limit headers total in
    if ltb limit total then (dropped.0, true) else ((name, value) ∷ pushed.0, pushed.1)

unfoldable pub capture_headers : HeaderMap → ℕ → List (Text × Text) × Bool
capture_headers headers limit = capture_from limit headers 0

-- the fold of `headers_bytes`, from a total
unfoldable pub headers_bytes_from : ℕ → List (Text × Text) → ℕ
headers_bytes_from total [] = total
headers_bytes_from total ((name, value) ∷ headers) =
    headers_bytes_from (sat_add (sat_add total (byte_len name)) (byte_len value)) headers

unfoldable pub headers_bytes : List (Text × Text) → ℕ
headers_bytes headers = headers_bytes_from 0 headers

abbrev pub local_len : Option Text → ℕ
local_len none = 0
local_len (some path) = byte_len path

unfoldable pub request_metadata_bytes : RequestMetadata → ℕ
request_metadata_bytes request =
    sat_add
      (sat_add
        (sat_add (sat_add 256 (byte_len request.original_uri)) (byte_len request.effective_uri))
        (local_len request.local_path))
      (headers_bytes request.headers)

unfoldable pub response_metadata_bytes : ResponseMetadata → ℕ
response_metadata_bytes response = sat_add 64 (headers_bytes response.headers)

abbrev pub truncate_local : Option Text → ℕ → Option (Option Text)
truncate_local none limit = some none
truncate_local (some path) limit = do kept ← truncate_utf8 path limit; some (some kept.0)

unfoldable pub request_metadata : RequestCaptureInput → CapturePolicy → Option RequestMetadata
request_metadata input policy = do
  original_uri ← truncate_utf8 input.original_uri policy.request_target_bytes
  effective_uri ← truncate_utf8 input.effective_uri policy.request_target_bytes
  local_path ← truncate_local input.local_path policy.request_target_bytes
  some (record {
    method = input.method;
    original_uri = original_uri.0;
    effective_uri = effective_uri.0;
    local_path = local_path;
    headers = (capture_headers input.headers policy.header_bytes_per_side).0;
  })

unfoldable pub response_metadata : ResponseCaptureInput → ℕ → ResponseMetadata × Bool
response_metadata input header_limit =
    let captured = capture_headers input.headers header_limit in
    (record { status = input.status; headers = captured.0 }, captured.1)

abbrev pub measure_local : Option Text → ℕ → ℕ × Bool
measure_local none limit = (0, false)
measure_local (some path) limit = truncated_utf8_len path limit

unfoldable pub measure_request_metadata :
    RequestCaptureInput → CapturePolicy → Option (ℕ × MetadataTruncation)
measure_request_metadata input policy = do
  let original = truncated_utf8_len input.original_uri policy.request_target_bytes
  let effective = truncated_utf8_len input.effective_uri policy.request_target_bytes
  let local = measure_local input.local_path policy.request_target_bytes
  headers ← measure_headers input.headers policy.header_bytes_per_side
  some (
    sat_add (sat_add (sat_add (sat_add 256 original.0) effective.0) local.0) headers.retained_bytes,
    record {
      request_target = original.1 || effective.1 || local.1;
      request_headers = headers.truncated;
      response_headers = false;
    },
  )
