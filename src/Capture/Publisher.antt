-- ===== src/Capture/Publisher.antt =====
-- Admission of exchanges and the handles that capture them, src/capture/publisher.rs. The semaphore
-- and the channel are tokio's and parameters; a record stands in a cell that its pointers share, which
-- is empty once the record is dropped. `none` is a panic.
pub mod Live
pub mod Admission
pub mod Response
pub mod Lifecycle
use fluxcope.Common.{
  ℕ, ◌+◌, ◌-◌, ◌≡◌, Bool, true, false, not, ◌&&◌, ◌||◌, Option, none, some, List, [], ◌∷◌, ◌++◌,
  length, get_elem?, set, min, suc, ltb, ◌==◌, if◌then◌else◌, wrap, wrap_sub, sat_add,
}
use fluxcope.Common.Outcome.Panic.{◌>>=◌}
use fluxcope.Capture.Feed.{ChangeState}
use fluxcope.Capture.Budget.{MemoryBudget, reserve_exact, reserve_up_to, release}
use fluxcope.Capture.Body.{Bytes, BodySide, request, response}
use fluxcope.Capture.Record
use fluxcope.Capture.Record.{
  CaptureRecord, ResponseMetadata, BodyTerminal, append_body, finish_body_at,
}
use fluxcope.Capture.Metadata.{
  CapturePolicy, RequestCaptureInput, ResponseCaptureInput, measure_request_metadata,
  request_metadata, measure_headers, response_metadata, response_metadata_bytes,
}
use fluxcope.Capture.Publisher.Live.{
  CaptureMetrics, no_metrics, bump_if, DirtySignal, mark, mark_if, ExchangeLifecycle, new_lifecycle,
  with_terminal, CaptureHandle, reserve_metadata, release_metadata, fit_response, Noticed, respond,
  preview_bytes, append_live, refused,
}

-- tokio's `Semaphore`, by its free permits
pub record Semaphore : Type 1 where
  pub Permits : Type 0
  pub available : Permits → ℕ
  pub try_acquire : Permits → Option Permits
  pub give_back : Permits → Permits
  pub acquired : (s s' : Permits) → try_acquire s ≡ some s' → available s ≡ suc (available s')
  pub given_back : (s : Permits) → available (give_back s) ≡ suc (available s)

-- tokio's `mpsc::Sender`: `try_send` fails where the channel is full or closed
pub record Sender : Type 1 where
  pub Channel : Type 0
  pub try_send : Channel → ℕ → Option Channel

module _ (semaphore : Semaphore) (sender : Sender) where
  open semaphore use {Permits, available, try_acquire, give_back}
  open sender use {Channel, try_send}

  -- A publisher with all that it shares: the feed, the budget, and the cells of the records.
  pub record CapturePublisher : Type 0 where
    pub tx : Channel
    pub next_sequence : ℕ
    pub admission : Permits
    pub budget : MemoryBudget
    pub policy : CapturePolicy
    pub noticed : Noticed
    pub feed : ChangeState
    pub cells : List (Option CaptureRecord)

  abbrev pub new : Channel → Permits → CapturePolicy → ChangeState → CapturePublisher
  new tx admission policy feed = record {
    tx = tx;
    next_sequence = 0;
    admission = admission;
    budget = record { limit = policy.total_retained_bytes; used = 0 };
    policy = policy;
    noticed = record { metrics = no_metrics; dirty = record { pending = false; notified = 0 } };
    feed = feed;
    cells = [];
  }

  -- `try_start_at` with a permit: what a refusal drops is the permit, and the record with its lease
  unfoldable pub start_permitted :
      CapturePublisher → RequestCaptureInput → ℕ → Option (CapturePublisher × Option CaptureHandle)
  start_permitted p input started_mono = do
    (metadata_bytes, truncation) ← measure_request_metadata input p.policy
    let (admitted, budget) = reserve_exact p.budget metadata_bytes []
    let returned = give_back p.admission
    if not admitted
        then some (record p { admission = returned; noticed = refused true p.noticed }, none)
        else do
          metadata ← request_metadata input p.policy
          let noticed : Noticed = record (p.noticed) {
            metrics = record (p.noticed.metrics) {
              metadata_truncated =
                  bump_if (truncation.request_headers || truncation.request_target)
                    p.noticed.metrics.metadata_truncated;
            };
          }
          let r =
              Record.new p.next_sequence metadata truncation metadata_bytes metadata_bytes
                started_mono
          let advanced : CapturePublisher = record p { next_sequence = wrap (p.next_sequence + 1) }
          some (elim (try_send p.tx (length p.cells)) [
            | none ↦ (
              record advanced {
                admission = returned;
                budget = release budget metadata_bytes;
                noticed = refused false noticed;
                cells = p.cells ++ none ∷ [];
              },
              none,
            )
            | some tx ↦ (
              record advanced {
                tx = tx;
                budget = budget;
                noticed = record noticed { dirty = mark noticed.dirty };
                cells = p.cells ++ some r ∷ [];
              },
              some (record { pointer = length p.cells; lifecycle = new_lifecycle }),
            )
          ])

  unfoldable pub try_start_at :
      CapturePublisher → RequestCaptureInput → ℕ → Option (CapturePublisher × Option CaptureHandle)
  unfolding start_permitted
  try_start_at p input started_mono = elim (try_acquire p.admission) [
    | none ↦ some (record p { noticed = refused false p.noticed }, none)
    | some admission ↦ start_permitted (record p { admission = admission }) input started_mono
  ]

  -- `upgrade`
  abbrev pub upgrade : CapturePublisher → CaptureHandle → Option CaptureRecord
  upgrade p handle = elim (get_elem? p.cells handle.pointer) [ none ↦ none | some cell ↦ cell ]

  -- the publisher after a handle's operation on the record of its cell
  abbrev pub stored :
      CapturePublisher
      → CaptureHandle
      → CaptureRecord × ChangeState × MemoryBudget × Noticed
      → CapturePublisher
  stored p handle (r, feed, budget, noticed) = record p {
    cells = set p.cells handle.pointer (some r);
    feed = feed;
    budget = budget;
    noticed = noticed;
  }

  unfoldable pub set_response_at :
      CapturePublisher → CaptureHandle → ResponseCaptureInput → ℕ → Option CapturePublisher
  set_response_at p handle input at = elim (upgrade p handle) [
    | none ↦ some p
    | some r ↦ do
      after ← respond p.policy r p.feed p.budget p.noticed input at
      some (stored p handle after)
  ]

  unfoldable pub append :
      ℕ → CapturePublisher → CaptureHandle → BodySide → Bytes → Option CapturePublisher
  append node_overhead p handle side bytes = elim (upgrade p handle) [
    | none ↦ some p
    | some r ↦ do
      after ← append_live p.policy node_overhead r p.feed p.budget p.noticed side bytes
      some (stored p handle after)
  ]

  -- `mark_terminal`: the permit goes back when both bits are set
  unfoldable pub mark_terminal :
      Permits → ExchangeLifecycle → BodySide → Permits × ExchangeLifecycle
  mark_terminal permits lifecycle side =
      let marked = with_terminal lifecycle side in
      if marked.request_terminal && marked.response_terminal
      then (
        if marked.has_permit then give_back permits else permits,
        record marked { has_permit = false },
      )
      else (permits, marked)

  -- `complete_at`, `fail_at` and `cancel_at`
  unfoldable pub finish_at :
      CapturePublisher
      → CaptureHandle
      → BodySide
      → BodyTerminal
      → ℕ
      → Option (CapturePublisher × CaptureHandle)
  unfolding mark_terminal
  finish_at p handle side terminal at =
      let (permits, lifecycle) = mark_terminal p.admission handle.lifecycle side in
      let handle' : CaptureHandle = record handle { lifecycle = lifecycle } in
      let freed : CapturePublisher = record p { admission = permits } in
      elim (upgrade p handle) [
        | none ↦ some (freed, handle')
        | some r ↦ do
          (r', feed', changed) ← finish_body_at r p.feed side terminal at
          let noticed : Noticed = record (p.noticed) { dirty = mark_if changed p.noticed.dirty }
          some (stored freed handle (r', feed', p.budget, noticed), handle')
      ]
