-- ===== src/Capture/Publisher/Response.antt =====
-- A response's metadata, `CaptureHandle::set_response_at` of src/capture/publisher.rs: it pays exactly
-- for what it keeps.
use fluxcope.Common.{
  ℕ, ◌+◌, ◌-◌, ◌≤◌, ◌<◌, ◌≡◌, refl, ap, ◌∙◌, inl, inr, Bool, true, false, ◌||◌, Option, none, some,
  List, [], arith, length, wrap, u64_max, Bool-cases, ltb, min, sat_add,
}
use fluxcope.Capture.Feed.{CaptureChange, ChangeState, record_updated}
use fluxcope.Capture.Feed.Log.{Tracks}
use fluxcope.Capture.Budget.{MemoryBudget, reserve_up_to}
use fluxcope.Capture.Record
use fluxcope.Capture.Record.{CaptureRecord, ResponseMetadata, with_response, announce}
use fluxcope.Capture.Record.Announce.{noted, announce-Tracks}
use fluxcope.Capture.Metadata.{
  ResponseCaptureInput, CapturePolicy, capture_headers, headers_bytes, response_metadata,
  response_metadata_bytes,
}
use fluxcope.Capture.Metadata.Headers.{measure_headers-Measures, capture_headers_tight}
use fluxcope.Capture.Publisher.Live.{
  Noticed, fit_response, release_metadata, respond, bump_if, mark_if,
}

-- the bytes of a response that is kept
abbrev pub size : Option ResponseMetadata → ℕ
size none = 0
size (some kept) = response_metadata_bytes kept

-- What is used of the reserved bytes is the size of what is kept.
fit_response-size :
    (input : ResponseCaptureInput) (limit reserved : ℕ)
    → reserved ≤ u64_max
    → ((fit_response input limit reserved).2 ≡ size (fit_response input limit reserved).0)
      × ((fit_response input limit reserved).2 ≤ reserved)
unfolding fit_response response_metadata response_metadata_bytes
fit_response-size input limit reserved h =
    ground (arith, (measure_headers-Measures input.headers (min (reserved - 64) limit)).bounded)

-- With all the measured bytes reserved, the response is kept as the policy's limit keeps it.
fit_response_all :
    (input : ResponseCaptureInput) (limit : ℕ)
    → limit + 64 ≤ u64_max
    → (fit_response input limit
        (sat_add 64 (headers_bytes (capture_headers input.headers limit).0))).0
      ≡ some (response_metadata input limit).0
unfolding fit_response response_metadata
fit_response_all input limit h =
    let b = (measure_headers-Measures input.headers limit).bounded in
    let n = headers_bytes (capture_headers input.headers limit).0 in
    let e : min (sat_add 64 n - 64) limit ≡ n = omega (arith, b) in
    let k : ltb (sat_add 64 n) 64 ≡ false = ground arith in
    rw (k, e, capture_headers_tight limit input.headers)

-- what an undisturbed reservation gives
abbrev granted : MemoryBudget → ℕ → ℕ
granted budget requested = min requested (budget.limit - budget.used)

reserve_up_to_lem :
    (budget : MemoryBudget) (requested : ℕ)
    → budget.used ≤ budget.limit
    → budget.limit < u64_max
    → reserve_up_to budget requested []
      ≡ (granted budget requested, record budget { used = budget.used + granted budget requested })
unfolding reserve_up_to
reserve_up_to_lem budget requested h k = ground arith

release_metadata_lem :
    (r : CaptureRecord) (budget : MemoryBudget) (released : ℕ)
    → released ≤ r.reserved
    → released ≤ budget.used
    → r.reserved ≤ u64_max
    → budget.used ≤ u64_max
    → release_metadata r budget released ≡ (
      record r { reserved = r.reserved - released },
      record budget { used = budget.used - released },
    )
release_metadata_lem r budget released h k m n = ground arith

-- A lease that reserves, and gives back what it does not use.
leases :
    (r : CaptureRecord) (budget : MemoryBudget) (got used : ℕ)
    → budget.used + got < u64_max
    → r.reserved ≤ budget.used
    → used ≤ got
    → release_metadata
        (record r { reserved = wrap (r.reserved + got) })
        (record budget { used = budget.used + got })
        (got - used)
      ≡ (record r { reserved = r.reserved + used }, record budget { used = budget.used + used })
leases r budget got used h k m =
    let w : wrap (r.reserved + got) ≡ r.reserved + got = omega arith in
    let e : r.reserved + got - (got - used) ≡ r.reserved + used = omega arith in
    let f : budget.used + got - (got - used) ≡ budget.used + used = omega arith in
    rw w (
      release_metadata_lem (record r { reserved = r.reserved + got })
        (record budget { used = budget.used + got }) (got - used) (omega arith) (omega arith)
        (omega arith) (omega arith)
      ∙ rw (e, f))

ends_where_it_was :
    (r : CaptureRecord) (budget : MemoryBudget) (used : ℕ)
    → budget.used + used < u64_max
    → r.reserved ≤ budget.used
    → release_metadata
        (record r { reserved = r.reserved + used })
        (record budget { used = budget.used + used })
        used
      ≡ (r, budget)
ends_where_it_was r budget used h k =
    let e : r.reserved + used - used ≡ r.reserved = omega arith in
    let f : budget.used + used - used ≡ budget.used = omega arith in
    release_metadata_lem (record r { reserved = r.reserved + used })
      (record budget { used = budget.used + used }) used (omega arith) (omega arith) (omega arith)
      (omega arith)
    ∙ rw (e, f)

set_response_at-ignored :
    (r : CaptureRecord) (feed : ChangeState) (metadata : Option ResponseMetadata) (truncated : Bool)
    (used at : ℕ)
    → (r.capture_disabled || r.response_started) ≡ true
    → Record.set_response_at r feed metadata truncated used at ≡ some (r, feed, false)
unfolding Record.set_response_at
set_response_at-ignored r feed metadata truncated used at h = rw h

set_response_at-open :
    (r : CaptureRecord) (feed : ChangeState) (metadata : Option ResponseMetadata) (truncated : Bool)
    (used at : ℕ) {r' : CaptureRecord} {feed' : ChangeState}
    → (r.capture_disabled || r.response_started) ≡ false
    → announce (with_response r metadata truncated used at) feed ≡ some (r', feed')
    → Record.set_response_at r feed metadata truncated used at ≡ some (r', feed', true)
unfolding Record.set_response_at
set_response_at-open r feed metadata truncated used at h a = rw (h, a)

-- the counters and the signal after a response
abbrev noticing : Noticed → Bool → Bool → Bool → Noticed
noticing noticed truncated short changed = record {
  metrics = record (noticed.metrics) {
    metadata_truncated = bump_if truncated noticed.metrics.metadata_truncated;
    memory_pressure = bump_if short noticed.metrics.memory_pressure;
  };
  dirty = mark_if changed noticed.dirty;
}

-- The budget and both counters of the record grow by the size of the response that is newly kept; an
-- ignored response leaves the record, the budget and the feed as they were.
pub record Responded (policy : CapturePolicy) (log : List CaptureChange) (r : CaptureRecord)
    (feed : ChangeState) (budget : MemoryBudget) (noticed : Noticed) (input : ResponseCaptureInput)
    (at : ℕ) : Type 0 where
  pub record_after : CaptureRecord
  pub feed_after : ChangeState
  pub budget_after : MemoryBudget
  pub noticed_after : Noticed
  pub returns :
      respond policy r feed budget noticed input at
      ≡ some (record_after, feed_after, budget_after, noticed_after)
  pub ignored :
      (r.capture_disabled || r.response_started) ≡ true
      → (record_after ≡ r)
        × (feed_after ≡ feed)
        × (budget_after ≡ budget)
        × (noticed_after.dirty ≡ noticed.dirty)
  pub kept :
      (r.capture_disabled || r.response_started) ≡ false
      → (record_after.response_started ≡ true)
        × (budget_after.used ≡ budget.used + size record_after.response)
        × (record_after.reserved ≡ r.reserved + size record_after.response)
        × (record_after.retained_bytes ≡ r.retained_bytes + size record_after.response)
        × (64 + policy.header_bytes_per_side ≤ budget.limit - budget.used
            → record_after.response ≡ some (response_metadata input policy.header_bytes_per_side).0)
        × Tracks
            (noted r.feed_bound log r.sequence (wrap (r.revision + 1)) record_updated)
            feed_after
  pub bounded : budget_after.used ≤ budget_after.limit

module _ (policy : CapturePolicy) (log : List CaptureChange) (r : CaptureRecord)
    (feed : ChangeState) (budget : MemoryBudget) (noticed : Noticed) (input : ResponseCaptureInput)
    (at : ℕ) (t : Tracks log feed) (room : length log < u64_max)
    (used_ok : budget.used ≤ budget.limit) (limit_ok : budget.limit < u64_max)
    (reserved_ok : r.reserved ≤ budget.used) (retained_ok : r.retained_bytes ≤ budget.used)
    (header_ok : policy.header_bytes_per_side + 64 ≤ u64_max) where
  -- With a feed that has not exhausted its epoch, a budget within a limit below the largest word that
  -- covers the record's counters, and a header limit that does not overflow, a response returns: on a
  -- disabled record or after an earlier response it changes neither record, feed nor budget; else the
  -- budget and the counters grow by exactly the size of the response that is kept, which is all that
  -- the policy keeps where the budget has that much left, and a bound record publishes one change. The
  -- used bytes stay within the limit.
  pub respond-Responded : Responded policy log r feed budget noticed input at
  respond-Responded =
      let n = headers_bytes (capture_headers input.headers policy.header_bytes_per_side).0 in
      let h = measure_headers-Measures input.headers policy.header_bytes_per_side in
      let requested = sat_add 64 n in
      let got = granted budget requested in
      let fit = fit_response input policy.header_bytes_per_side got in
      let (size_is, within) =
        fit_response-size input policy.header_bytes_per_side got (omega arith) in
      let lease = leases r budget got fit.2 (omega arith) reserved_ok within in
      let measured_cut = (capture_headers input.headers policy.header_bytes_per_side).1 in
      let cut = measured_cut || ltb got requested || fit.1 in
      let r2 : CaptureRecord = record r { reserved = r.reserved + fit.2 } in
      elim (Bool-cases (r.capture_disabled || r.response_started)) [
        | inl off ↦ record {
          record_after = r;
          feed_after = feed;
          budget_after = budget;
          noticed_after =
              noticing noticed (measured_cut || ltb got requested) (ltb got requested) false;
          returns =
              unfold respond in
              rw (
                h.measured,
                reserve_up_to_lem budget requested used_ok limit_ok,
                lease,
                set_response_at-ignored r2 feed fit.0 cut fit.2 at off,
                ends_where_it_was r budget fit.2 (omega arith) reserved_ok,
              );
          ignored = λ _. (refl, refl, refl, refl);
          kept = λ on. cc (off, on);
          bounded = used_ok;
        }
        | inr on ↦
            let (feed', a, t') =
              announce-Tracks log (with_response r2 fit.0 cut fit.2 at) feed t room in
            record {
              record_after = record (with_response r2 fit.0 cut fit.2 at) {
                revision = wrap (r.revision + 1);
              };
              feed_after = feed';
              budget_after = record budget { used = budget.used + fit.2 };
              noticed_after =
                  noticing noticed (measured_cut || ltb got requested) (ltb got requested) true;
              returns =
                  unfold respond in
                  rw (
                    h.measured,
                    reserve_up_to_lem budget requested used_ok limit_ok,
                    lease,
                    set_response_at-open r2 feed fit.0 cut fit.2 at on a,
                  );
              ignored = λ off. cc (off, on);
              kept = λ _. (
                refl,
                omega arith,
                omega arith,
                omega arith,
                λ plenty.
                    let all : got ≡ requested = omega (arith, h.bounded) in
                    ap (λ k. (fit_response input policy.header_bytes_per_side k).0) all
                    ∙ fit_response_all input policy.header_bytes_per_side header_ok,
                t',
              );
              bounded = omega arith;
            }
      ]
