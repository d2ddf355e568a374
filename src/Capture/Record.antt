-- ===== src/Capture/Record.antt =====
-- One captured exchange, `CaptureRecord` of src/capture/model.rs. The record's mutex makes each
-- operation one step on the record, the feed and the budget that it shares with the others; `none`
-- is a panic. Instants are counted in ticks of the monotonic clock.
pub mod Announce
pub mod Stream
pub mod Append
pub mod Finish
use fluxcope.Common.{
  ℕ, ◌+◌, ◌-◌, Bool, true, false, not, ◌||◌, Option, none, some, List, [], ◌∷◌, min, max, length,
  take, wrap, sat_add, ltb, ◌==◌, if◌then◌else◌, u64_max,
}
use fluxcope.Common.Outcome.Panic.{◌>>=◌}
use fluxcope.Capture.Feed
use fluxcope.Capture.Feed.{
  CaptureChange, CaptureChangeKind, admitted, record_updated, ChangeState, publish,
}
use fluxcope.Capture.Budget.{MemoryBudget, reserve_body_prefix}
use fluxcope.Capture.Body
use fluxcope.Capture.Body.{
  BodySide, request, response, BodyStreamState, streaming, complete, failed, cancelled, is_terminal,
  BodyPreviewLimit, per_body_limit, total_memory_limit, Bytes, BodyStatus, BodyCapture, append,
  seal, CapturedBodyPreview, preview, empty_preview,
}

abbrev pub Text : Type 0
Text = List ℕ

pub record RequestMetadata : Type 0 where
  pub method : Text
  pub original_uri : Text
  pub effective_uri : Text
  pub local_path : Option Text
  pub headers : List (Text × Text)

pub record ResponseMetadata : Type 0 where
  pub status : ℕ
  pub headers : List (Text × Text)

pub record MetadataTruncation : Type 0 where
  pub request_target : Bool
  pub request_headers : Bool
  pub response_headers : Bool

-- The record with its `RecordState`; `reserved` is the counter of its budget lease.
pub record CaptureRecord : Type 0 where
  pub sequence : ℕ
  pub request_metadata : RequestMetadata
  pub started_mono : ℕ
  pub response : Option ResponseMetadata
  pub response_started : Bool
  pub response_at : Option ℕ
  pub request_terminal_at : Option ℕ
  pub response_terminal_at : Option ℕ
  pub request_body : BodyCapture
  pub response_body : BodyCapture
  pub metadata_truncation : MetadataTruncation
  pub capture_disabled : Bool
  pub feed_bound : Bool
  pub revision : ℕ
  pub retained_bytes : ℕ
  pub reserved : ℕ

abbrev pub new : ℕ → RequestMetadata → MetadataTruncation → ℕ → ℕ → ℕ → CaptureRecord
new sequence metadata truncation reserved retained_bytes started_mono = record {
  sequence = sequence;
  request_metadata = metadata;
  started_mono = started_mono;
  response = none;
  response_started = false;
  response_at = none;
  request_terminal_at = none;
  response_terminal_at = none;
  request_body = Body.new;
  response_body = Body.new;
  metadata_truncation = truncation;
  capture_disabled = false;
  feed_bound = false;
  revision = 0;
  retained_bytes = retained_bytes;
  reserved = reserved;
}

abbrev pub body : CaptureRecord → BodySide → BodyCapture
body r request = r.request_body
body r response = r.response_body

abbrev pub set_body : CaptureRecord → BodySide → BodyCapture → CaptureRecord
set_body r request b = record r { request_body = b }
set_body r response b = record r { response_body = b }

unfoldable pub bind_change_feed : CaptureRecord → ChangeState → Option (CaptureRecord × ChangeState)
bind_change_feed r feed = if r.feed_bound then some (r, feed) else do
  (_, feed') ← publish r.sequence r.revision admitted feed
  some (record r { feed_bound = true }, feed')

unfoldable pub remove_from_store :
    CaptureChangeKind → CaptureRecord → ChangeState → Option (CaptureRecord × ChangeState)
remove_from_store kind r feed =
    if r.feed_bound
    then (do
      (_, feed') ← publish r.sequence r.revision kind feed
      some (record r { capture_disabled = true; feed_bound = false }, feed'))
    else some (record r { capture_disabled = true }, feed)

-- `revision.fetch_add(1)`, and the change that a bound record publishes
unfoldable pub announce : CaptureRecord → ChangeState → Option (CaptureRecord × ChangeState)
announce r feed =
    let revision = wrap (r.revision + 1) in
    if r.feed_bound
    then (do
      (_, feed') ← publish r.sequence revision record_updated feed
      some (record r { revision = revision }, feed'))
    else some (record r { revision = revision }, feed)

-- what `set_response_at` writes before it announces
abbrev pub with_response : CaptureRecord → Option ResponseMetadata → Bool → ℕ → ℕ → CaptureRecord
with_response r metadata truncated reserved_bytes at = record r {
  response_started = true;
  response_at = some at;
  response = metadata;
  metadata_truncation = record (r.metadata_truncation) {
    response_headers = r.metadata_truncation.response_headers || truncated;
  };
  response_body = record (r.response_body) {
    status = record (r.response_body.status) { stream = streaming };
  };
  retained_bytes = wrap (r.retained_bytes + reserved_bytes);
}

unfoldable pub set_response_at :
    CaptureRecord
    → ChangeState
    → Option ResponseMetadata
    → Bool
    → ℕ
    → ℕ
    → Option (CaptureRecord × ChangeState × Bool)
set_response_at r feed metadata truncated reserved_bytes at =
    if r.capture_disabled || r.response_started then some (r, feed, false) else do
      (r', feed') ← announce (with_response r metadata truncated reserved_bytes at) feed
      some (r', feed', true)

pub record AppendResult : Type 0 where
  pub changed : Bool
  pub per_body_limited : Bool
  pub memory_limited : Bool

abbrev pub unchanged : AppendResult
unchanged = record { changed = false; per_body_limited = false; memory_limited = false }

-- the status after bytes were seen
abbrev pub observe : BodyCapture → Bytes → BodyCapture
observe b bytes = record b {
  status = record (b.status) {
    stream = streaming;
    observed_bytes = sat_add b.status.observed_bytes (length bytes);
  };
}

abbrev pub is_some {ℓ} : {A : Type ℓ} → Option A → Bool
is_some none = false
is_some (some _) = true

-- how many of the bytes are asked for
abbrev pub requested_bytes : BodyStatus → Bytes → ℕ → ℕ
requested_bytes status bytes limit =
    if is_some status.preview_limit then 0 else min (length bytes) (limit - status.retained_bytes)

-- the limit that `retained` of `requested` bytes shows, if the body had none
abbrev pub new_limit : ℕ → ℕ → Bytes → Option BodyPreviewLimit
new_limit retained requested bytes =
    if ltb retained requested
    then some total_memory_limit
    else if ltb requested (length bytes)
    then some per_body_limit
    else none

abbrev pub limit_after : Option BodyPreviewLimit → Option BodyPreviewLimit → Option BodyPreviewLimit
limit_after (some limit) _ = some limit
limit_after none limit = limit

abbrev pub is_limit : BodyPreviewLimit → Option BodyPreviewLimit → Bool
is_limit per_body_limit (some per_body_limit) = true
is_limit total_memory_limit (some total_memory_limit) = true
is_limit _ _ = false

-- `existing_limit.is_none().then_some(limit).flatten()`
abbrev pub newly : Option BodyPreviewLimit → Option BodyPreviewLimit → Option BodyPreviewLimit
newly (some _) limit = none
newly none limit = limit

-- `if retained > 0 { .. }`
abbrev pub retain : BodyCapture → Bytes → ℕ → Option BodyCapture
retain b bytes retained = if retained == 0 then some b else do
  b' ← append b (take retained bytes)
  some (record b' {
    status = record (b'.status) { retained_bytes = sat_add b'.status.retained_bytes retained };
  })

-- the body after `append_body` has stored the limit
abbrev pub with_limit : BodyCapture → Option BodyPreviewLimit → BodyCapture
with_limit b limit = record b { status = record (b.status) { preview_limit = limit } }

-- the record with the body, and with the charge on its counter (if it kept a byte) and its lease's
unfoldable pub charge_record : CaptureRecord → BodySide → BodyCapture → ℕ → ℕ → CaptureRecord
charge_record r side b retained charged =
    let stored = set_body r side b in
    record stored {
      retained_bytes = wrap (stored.retained_bytes + (if retained == 0 then 0 else charged));
      reserved = wrap (stored.reserved + charged);
    }

abbrev pub append_result : Option BodyPreviewLimit → Option BodyPreviewLimit → AppendResult
append_result existing found = record {
  changed = true;
  per_body_limited = is_limit per_body_limit (newly existing found);
  memory_limited = is_limit total_memory_limit (newly existing found);
}

module _ (node_overhead : ℕ) where
  -- the part of `append_body` behind its early returns, on a body that has seen the bytes
  unfoldable pub append_enabled :
      CaptureRecord
      → ChangeState
      → MemoryBudget
      → BodySide
      → BodyCapture
      → Bytes
      → ℕ
      → Option (CaptureRecord × ChangeState × MemoryBudget × AppendResult)
  append_enabled r feed budget side b bytes limit = do
    let requested = requested_bytes b.status bytes limit
    let taken = reserve_body_prefix node_overhead budget requested (length b.trailing) []
    b' ← retain b bytes taken.0.0
    let existing = b.status.preview_limit
    let found = limit_after existing (new_limit taken.0.0 requested bytes)
    (r', feed') ← announce (charge_record r side (with_limit b' found) taken.0.0 taken.0.1) feed
    some (r', feed', taken.1, append_result existing found)

  unfoldable pub append_body :
      CaptureRecord
      → ChangeState
      → MemoryBudget
      → BodySide
      → Bytes
      → ℕ
      → Option (CaptureRecord × ChangeState × MemoryBudget × AppendResult)
  append_body r feed budget side bytes limit =
      let b = body r side in
      if is_terminal b.status.stream || length bytes == 0
      then some (r, feed, budget, unchanged)
      else if r.capture_disabled
      then some (set_body r side (observe b bytes), feed, budget, unchanged)
      else append_enabled r feed budget side (observe b bytes) bytes limit

pub data BodyTerminal : Type 0 where
  completes : BodyTerminal
  fails : Text → BodyTerminal
  cancels : BodyTerminal

abbrev pub terminate : BodyStatus → BodyTerminal → BodyStatus
terminate status completes = record status { stream = complete }
terminate status (fails error) = record status { stream = failed; error = some error }
terminate status cancels = record status { stream = cancelled }

abbrev pub set_terminal_at : CaptureRecord → BodySide → ℕ → CaptureRecord
set_terminal_at r request at = record r { request_terminal_at = some at }
set_terminal_at r response at = record r { response_terminal_at = some at }

unfoldable pub finish_body_at :
    CaptureRecord
    → ChangeState
    → BodySide
    → BodyTerminal
    → ℕ
    → Option (CaptureRecord × ChangeState × Bool)
finish_body_at r feed side terminal at =
    let b = body r side in
    if is_terminal b.status.stream then some (r, feed, false) else do
      let b' = seal (record b { status = terminate b.status terminal })
      (r', feed') ← announce (set_terminal_at (set_body r side b') side at) feed
      some (r', feed', true)
