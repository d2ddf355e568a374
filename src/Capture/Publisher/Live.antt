-- ===== src/Capture/Publisher/Live.antt =====
-- What the handle of an exchange does to its record while it lives, and the counters and signals of a
-- publisher, src/capture/publisher.rs. `none` is a panic.
use fluxcope.Common.{
  ℕ, ◌+◌, ◌-◌, Bool, true, false, ◌||◌, Option, none, some, [], min, ltb, ◌==◌, if◌then◌else◌, wrap,
  wrap_sub, sat_add,
}
use fluxcope.Common.Outcome.Panic.{◌>>=◌}
use fluxcope.Capture.Feed.{ChangeState}
use fluxcope.Capture.Budget.{MemoryBudget, reserve_up_to, release}
use fluxcope.Capture.Body.{Bytes, BodySide, request, response}
use fluxcope.Capture.Record
use fluxcope.Capture.Record.{
  CaptureRecord, ResponseMetadata, BodyTerminal, append_body, finish_body_at,
}
use fluxcope.Capture.Metadata.{
  CapturePolicy, ResponseCaptureInput, measure_headers, response_metadata, response_metadata_bytes,
}

-- `CaptureMetrics`, which are also its snapshot
pub record CaptureMetrics : Type 0 where
  pub exchanges_not_admitted : ℕ
  pub memory_pressure : ℕ
  pub previews_per_body_limited : ℕ
  pub previews_memory_limited : ℕ
  pub metadata_truncated : ℕ

abbrev pub no_metrics : CaptureMetrics
no_metrics = record {
  exchanges_not_admitted = 0;
  memory_pressure = 0;
  previews_per_body_limited = 0;
  previews_memory_limited = 0;
  metadata_truncated = 0;
}

-- `fetch_add(1)` where the test holds
abbrev pub bump_if : Bool → ℕ → ℕ
bump_if true n = wrap (n + 1)
bump_if false n = n

-- `pending`, and how often `notify_one` was called
pub record DirtySignal : Type 0 where
  pub pending : Bool
  pub notified : ℕ

abbrev pub mark : DirtySignal → DirtySignal
mark dirty =
    if dirty.pending then dirty else record { pending = true; notified = dirty.notified + 1 }

abbrev pub mark_if : Bool → DirtySignal → DirtySignal
mark_if true dirty = mark dirty
mark_if false dirty = dirty

-- `terminal_sides` by its two bits, and whether `permit` holds one
pub record ExchangeLifecycle : Type 0 where
  pub request_terminal : Bool
  pub response_terminal : Bool
  pub has_permit : Bool

abbrev pub new_lifecycle : ExchangeLifecycle
new_lifecycle = record { request_terminal = false; response_terminal = false; has_permit = true }

abbrev pub with_terminal : ExchangeLifecycle → BodySide → ExchangeLifecycle
with_terminal lifecycle request = record lifecycle { request_terminal = true }
with_terminal lifecycle response = record lifecycle { response_terminal = true }

-- A handle: its weak pointer, and its lifecycle, which its clones share.
pub record CaptureHandle : Type 0 where
  pub pointer : ℕ
  pub lifecycle : ExchangeLifecycle

-- `CaptureBudgetLease::reserve_up_to` and `release`, on the lease of a record
abbrev pub reserve_metadata : CaptureRecord → MemoryBudget → ℕ → ℕ × CaptureRecord × MemoryBudget
reserve_metadata r budget requested =
    let (reserved, budget') = reserve_up_to budget requested [] in
    (reserved, record r { reserved = wrap (r.reserved + reserved) }, budget')

abbrev pub release_metadata : CaptureRecord → MemoryBudget → ℕ → CaptureRecord × MemoryBudget
release_metadata r budget released =
    if released == 0
    then (r, budget)
    else (record r { reserved = wrap_sub r.reserved released }, release budget released)

-- the response that `set_response_at` keeps of so many reserved bytes, whether it was cut, and the
-- bytes that it uses of them
unfoldable pub fit_response : ResponseCaptureInput → ℕ → ℕ → Option ResponseMetadata × Bool × ℕ
fit_response input limit reserved =
    let (kept, truncated) = response_metadata input (min (reserved - 64) limit) in
    if ltb reserved 64
    then (none, true, 0)
    else (some kept, truncated, min (response_metadata_bytes kept) reserved)

-- what the counters and signals of a publisher are after an operation of a handle
pub record Noticed : Type 0 where
  pub metrics : CaptureMetrics
  pub dirty : DirtySignal

module _ (policy : CapturePolicy) where
  -- `CaptureHandle::set_response_at` on a live record
  unfoldable pub respond :
      CaptureRecord
      → ChangeState
      → MemoryBudget
      → Noticed
      → ResponseCaptureInput
      → ℕ
      → Option (CaptureRecord × ChangeState × MemoryBudget × Noticed)
  respond r feed budget noticed input at = do
    measured ← measure_headers input.headers policy.header_bytes_per_side
    let requested = sat_add 64 measured.retained_bytes
    let (reserved, r1, budget1) = reserve_metadata r budget requested
    let budget_truncated = ltb reserved requested
    let metrics : CaptureMetrics = record (noticed.metrics) {
      metadata_truncated =
          bump_if (measured.truncated || budget_truncated) noticed.metrics.metadata_truncated;
      memory_pressure = bump_if budget_truncated noticed.metrics.memory_pressure;
    }
    let (kept, cut, used) = fit_response input policy.header_bytes_per_side reserved
    let (r2, budget2) = release_metadata r1 budget1 (reserved - used)
    (r3, feed', changed) ←
        Record.set_response_at r2 feed kept (measured.truncated || budget_truncated || cut) used at
    let (r4, budget3) = if changed then (r3, budget2) else release_metadata r3 budget2 used
    some (r4, feed', budget3, record { metrics = metrics; dirty = mark_if changed noticed.dirty })

  abbrev pub preview_bytes : BodySide → ℕ
  preview_bytes request = policy.request_preview_bytes
  preview_bytes response = policy.response_preview_bytes

  -- `CaptureHandle::append` on a live record
  unfoldable pub append_live :
      ℕ
      → CaptureRecord
      → ChangeState
      → MemoryBudget
      → Noticed
      → BodySide
      → Bytes
      → Option (CaptureRecord × ChangeState × MemoryBudget × Noticed)
  append_live node_overhead r feed budget noticed side bytes = do
    (r', feed', budget', result) ←
        append_body node_overhead r feed budget side bytes (preview_bytes side)
    let metrics : CaptureMetrics = record (noticed.metrics) {
      previews_per_body_limited =
          bump_if result.per_body_limited noticed.metrics.previews_per_body_limited;
      previews_memory_limited =
          bump_if result.memory_limited noticed.metrics.previews_memory_limited;
      memory_pressure = bump_if result.memory_limited noticed.metrics.memory_pressure;
    }
    let dirty =
        mark_if (result.changed || result.per_body_limited || result.memory_limited) noticed.dirty
    some (r', feed', budget', record { metrics = metrics; dirty = dirty })

-- a start that is refused, for want of memory or not
abbrev pub refused : Bool → Noticed → Noticed
refused pressure noticed = record {
  metrics = record (noticed.metrics) {
    exchanges_not_admitted = wrap (noticed.metrics.exchanges_not_admitted + 1);
    memory_pressure = bump_if pressure noticed.metrics.memory_pressure;
  };
  dirty = mark noticed.dirty;
}
