-- ===== src/Capture/Record/Append.antt =====
-- `append_body`, src/capture/model.rs: totality, the kept prefix, and what it charges.
use fluxcope.Common.{
  ℕ, ◌+◌, ◌-◌, ◌*◌, ◌/◌, ◌<◌, ◌≤◌, ◌≡◌, ◌≢◌, refl, sym, ap, ◌∙◌, if_true, if_false, true, false,
  some, List, [], ◌++◌, inl, inr, arith, u64_max, length, take, wrap, sat_add, ◌==◌, if◌then◌else◌,
  Option, ◌&&◌, ◌||◌, Bool-cases, Option-cases, length-append, append-nil, take-append,
  take-append_all, take_all, ==_iff,
}
use mathlib.Core.Path.{subst, subst₂}
use fluxcope.Capture.Feed.{CaptureChange, ChangeState, record_updated}
use fluxcope.Capture.Feed.Log.{Tracks}
use fluxcope.Capture.Budget.{MemoryBudget, body_chunk_bytes, reserve_body_prefix}
use fluxcope.Capture.Budget.Charge.{IsBest}
use fluxcope.Capture.Budget.Reserve.{Reserves, reserve_body_prefix-Reserves}
use fluxcope.Capture.Body.{
  Bytes, BodySide, request, response, BodyPreviewLimit, BodyCapture, is_terminal,
}
use fluxcope.Capture.Body.Content.{content}
use fluxcope.Capture.Record.{
  CaptureRecord, AppendResult, body, set_body, requested_bytes, new_limit, limit_after, retain,
  observe, with_limit, append_result, unchanged, charge_record, announce, append_enabled,
  append_body,
}
use fluxcope.Capture.Record.Announce.{noted, announce-Tracks}
use fluxcope.Capture.Record.Stream.{Holds, Retains, retain-Retains}

-- the body after it has seen `bytes` and kept the first `kept` of those it asked for
abbrev settled : BodyCapture → Bytes → ℕ → ℕ → BodyCapture → BodyCapture
settled b bytes asked kept after = record after {
  status = record (after.status) {
    preview_limit = limit_after b.status.preview_limit (new_limit kept asked bytes);
  };
}

module _ (stream bytes : Bytes) (limit : ℕ) (b : BodyCapture) (h : Holds stream limit false b)
    (open_stream : is_terminal b.status.stream ≡ false) where
  -- the bytes asked for fit under the limit, and none are once one was met
  requested-le : requested_bytes b.status bytes limit + b.status.retained_bytes ≤ limit
  requested-le = ground (arith, h.bounded)

  -- what was kept continues the prefix
  kept_prefix :
      (kept : ℕ)
      → kept ≤ requested_bytes b.status bytes limit
      → content b ++ take kept bytes ≡ take (b.status.retained_bytes + kept) (stream ++ bytes)
  kept_prefix kept k = elim (Option-cases b.status.preview_limit) [
    | inl free ↦
        let all = h.whole free refl in
        ap (λ c. c ++ take kept bytes)
          (h.kept ∙ take_all b.status.retained_bytes stream (omega arith))
        ∙ sym (ap (λ n. take (n + kept) (stream ++ bytes)) all ∙ take-append_all kept stream bytes)
    | inr (found, met) ↦
        let z : kept ≡ 0 = ground arith in
        let e : b.status.retained_bytes + kept ≡ b.status.retained_bytes = omega arith in
        rw (e, z)
          (append-nil (content b)
            ∙ h.kept
            ∙ sym (take-append b.status.retained_bytes stream bytes h.within))
  ]

  settled-Holds :
      (kept : ℕ) (after : BodyCapture)
      → kept ≤ requested_bytes b.status bytes limit
      → Retains (observe b bytes) bytes kept after
      → Holds
          (stream ++ bytes)
          limit
          false
          (settled b bytes (requested_bytes b.status bytes limit) kept after)
  settled-Holds kept after k r =
      let retained : after.status.retained_bytes ≡ b.status.retained_bytes + kept =
        ap (λ s. s.retained_bytes) r.status_is in
      let seen : after.status.observed_bytes ≡ sat_add b.status.observed_bytes (length bytes) =
        ap (λ s. s.observed_bytes) r.status_is in
      let l = length-append stream bytes in
      record {
        kept =
            r.content_is ∙ kept_prefix kept k ∙ ap (λ n. take n (stream ++ bytes)) (sym retained);
        within = ground (arith, l, retained, h.within);
        bounded = omega (arith, requested-le, retained);
        whole = λ free _. ground (arith, l, retained, h.whole);
        observed = omega (arith, l, seen, h.observed);
        shape = λ _. record {
          chain = r.is_open.chain;
          partial = r.is_open.partial;
          unsealed = r.is_open.unsealed;
        };
      }

abbrev pub opposite : BodySide → BodySide
opposite request = response
opposite response = request

body-set_body :
    (r : CaptureRecord) (side : BodySide) (b : BodyCapture) → body (set_body r side b) side ≡ b
body-set_body r request b = refl
body-set_body r response b = refl

-- What `append_body` does to the shared state and to the record's other parts: the used budget and the
-- record's two counters grow by one and the same charge, the budget stays within its limit, and the
-- other body, the flags and the metadata are as they were.
pub record Accounts (r : CaptureRecord) (budget : MemoryBudget) (side : BodySide)
    (r' : CaptureRecord) (budget' : MemoryBudget) : Type 0 where
  pub reserved_is : budget'.used + r.reserved ≡ budget.used + r'.reserved
  pub retained_is : budget'.used + r.retained_bytes ≡ budget.used + r'.retained_bytes
  pub limit_is : budget'.limit ≡ budget.limit
  pub bounded : budget'.used ≤ budget'.limit
  pub other : body r' (opposite side) ≡ body r (opposite side)
  pub disabled_is : r'.capture_disabled ≡ r.capture_disabled
  pub bound_is : r'.feed_bound ≡ r.feed_bound

-- The record's counters lie below the budget's, and no size comes near the width of a word.
pub record IsFunded (r : CaptureRecord) (budget : MemoryBudget) (limit : ℕ) : Type 0 where
  pub used_ok : budget.used ≤ budget.limit
  pub limit_ok : budget.limit < u64_max
  pub reserved_ok : r.reserved ≤ budget.used
  pub retained_ok : r.retained_bytes ≤ budget.used
  pub preview_ok : limit + 2 * body_chunk_bytes ≤ u64_max

charged_zero :
    (node_overhead asked trailing_len available retained charged : ℕ)
    → IsBest node_overhead asked trailing_len available retained charged
    → trailing_len < body_chunk_bytes
    → (if retained == 0 then 0 else charged) ≡ charged
charged_zero node_overhead asked trailing_len available retained charged v p =
    elim (Bool-cases (retained == 0)) [
      | inl zero ↦
          let z = (==_iff _ _).0 zero in
          let n : (trailing_len + retained) / body_chunk_bytes ≡ 0 = omega arith in
          let c : charged ≡ retained + 0 * node_overhead = rw n at v.charged_is in
          rw zero (omega arith)
      | inr more ↦ rw more
    ]

module _ (node_overhead : ℕ) (r : CaptureRecord) (budget : MemoryBudget) (limit : ℕ)
    (f : IsFunded r budget limit) where
  charge_record-Accounts :
      (side : BodySide) (b : BodyCapture) (asked retained charged trailing_len n : ℕ)
      (budget' : MemoryBudget)
      → Reserves node_overhead budget asked trailing_len retained charged budget'
      → trailing_len < body_chunk_bytes
      → Accounts r budget side
          (record (charge_record r side b retained charged) { revision = n })
          budget'
  unfolding charge_record
  charge_record-Accounts request b asked retained charged trailing_len n budget' v p =
      let z =
        charged_zero node_overhead asked trailing_len (budget.limit - budget.used) retained charged
          v.best p in
      rw z (record {
        reserved_is = omega arith;
        retained_is = omega arith;
        limit_is = v.limit_is;
        bounded = v.bounded;
        other = refl;
        disabled_is = refl;
        bound_is = refl;
      })
  charge_record-Accounts response b asked retained charged trailing_len n budget' v p =
      let z =
        charged_zero node_overhead asked trailing_len (budget.limit - budget.used) retained charged
          v.best p in
      rw z (record {
        reserved_is = omega arith;
        retained_is = omega arith;
        limit_is = v.limit_is;
        bounded = v.bounded;
        other = refl;
        disabled_is = refl;
        bound_is = refl;
      })

body-charge_record :
    (r : CaptureRecord) (side : BodySide) (b : BodyCapture) (retained charged n : ℕ)
    → body (record (charge_record r side b retained charged) { revision = n }) side ≡ b
unfolding charge_record
body-charge_record r request b retained charged n = refl
body-charge_record r response b retained charged n = refl

module _ (log : List CaptureChange) (r : CaptureRecord) (feed : ChangeState) (t : Tracks log feed)
    (room : length log < u64_max) where
  announce-charge_record :
      (side : BodySide) (b : BodyCapture) (retained charged : ℕ)
      → (feed' : ChangeState) × (announce (charge_record r side b retained charged) feed
          ≡ some (
            record (charge_record r side b retained charged) { revision = wrap (r.revision + 1) },
            feed',
          ))
        × Tracks (noted r.feed_bound log r.sequence (wrap (r.revision + 1)) record_updated) feed'
  unfolding charge_record
  announce-charge_record request b retained charged =
      announce-Tracks log (charge_record r request b retained charged) feed t room
  announce-charge_record response b retained charged =
      announce-Tracks log (charge_record r response b retained charged) feed t room

module _ (node_overhead : ℕ) (r : CaptureRecord) (feed : ChangeState) (budget : MemoryBudget)
    (side : BodySide) (bytes : Bytes) (limit : ℕ) where
  abbrev asked_of : ℕ
  asked_of = requested_bytes (body r side).status bytes limit

  abbrev taken_of : (ℕ × ℕ) × MemoryBudget
  taken_of = reserve_body_prefix node_overhead budget asked_of (length (body r side).trailing) []

  abbrev found_of : Option BodyPreviewLimit
  found_of = limit_after (body r side).status.preview_limit (new_limit taken_of.0.0 asked_of bytes)

  -- `append_enabled` in one equation, when its parts return
  append_enabled_steps :
      (after : BodyCapture) (r' : CaptureRecord) (feed' : ChangeState)
      → retain (observe (body r side) bytes) bytes taken_of.0.0 ≡ some after
      → announce (charge_record r side (with_limit after found_of) taken_of.0.0 taken_of.0.1) feed
        ≡ some (r', feed')
      → append_enabled node_overhead r feed budget side (observe (body r side) bytes) bytes limit
        ≡ some (r', feed', taken_of.1, append_result (body r side).status.preview_limit found_of)
  unfolding append_enabled
  append_enabled_steps after r' feed' e a = rw (e, a)

-- What an enabled append leaves: the stream's new prefix on its side, the accounts, and one change.
pub record Appended (node_overhead : ℕ) (log : List CaptureChange) (stream bytes : Bytes)
    (r : CaptureRecord) (feed : ChangeState) (budget : MemoryBudget) (side : BodySide) (limit : ℕ)
    : Type 0 where
  pub record_after : CaptureRecord
  pub feed_after : ChangeState
  pub budget_after : MemoryBudget
  pub result : AppendResult
  pub returns :
      append_body node_overhead r feed budget side bytes limit
      ≡ some (record_after, feed_after, budget_after, result)
  pub holds : Holds (stream ++ bytes) limit r.capture_disabled (body record_after side)
  pub accounts : Accounts r budget side record_after budget_after
  pub tracks :
      Tracks
        (noted
          (result.changed && r.feed_bound)
          log
          r.sequence
          (wrap (r.revision + 1))
          record_updated)
        feed_after

module _ (node_overhead : ℕ) (log : List CaptureChange) (stream : Bytes) (r : CaptureRecord)
    (feed : ChangeState) (budget : MemoryBudget) (side : BodySide) (bytes : Bytes) (limit : ℕ)
    (t : Tracks log feed) (room : length log < u64_max) (f : IsFunded r budget limit)
    (o : is_terminal (body r side).status.stream ≡ false) (some_bytes : length bytes ≢ 0) where
  append_body-enabled :
      r.capture_disabled ≡ false
      → append_body node_overhead r feed budget side bytes limit
        ≡ append_enabled node_overhead r feed budget side (observe (body r side) bytes) bytes limit
  unfolding append_body
  append_body-enabled e =
      let n : (is_terminal (body r side).status.stream || length bytes == 0) ≡ false =
        ground arith in
      if_false _ _ _ n ∙ if_false _ _ _ e

  append_enabled-Appended :
      r.capture_disabled ≡ false
      → Holds stream limit false (body r side)
      → Appended node_overhead log stream bytes r feed budget side limit
  append_enabled-Appended enabled h =
      let b = body r side in
      let asked = requested_bytes b.status bytes limit in
      let taken = reserve_body_prefix node_overhead budget asked (length b.trailing) [] in
      let w = h.shape o in
      let small = requested-le stream bytes limit b h o in
      let v =
        reserve_body_prefix-Reserves node_overhead budget asked (length b.trailing) f.used_ok
          f.limit_ok w.partial (omega (arith, w.partial, small, f.preview_ok)) in
      let (after, e, k) =
        retain-Retains (observe b bytes) bytes taken.0.0
          (record { chain = w.chain; partial = w.partial; unsealed = w.unsealed })
          (omega (arith, v.best.asked, small, f.preview_ok)) in
      let b' = settled b bytes asked taken.0.0 after in
      let (feed', a, t') = announce-charge_record log r feed t room side b' taken.0.0 taken.0.1 in
      let n = wrap (r.revision + 1) in
      record {
        record_after = record (charge_record r side b' taken.0.0 taken.0.1) { revision = n };
        feed_after = feed';
        budget_after = taken.1;
        result =
            append_result b.status.preview_limit
              (limit_after b.status.preview_limit (new_limit taken.0.0 asked bytes));
        returns =
            append_body-enabled enabled
            ∙ append_enabled_steps node_overhead r feed budget side bytes limit after
                (record (charge_record r side b' taken.0.0 taken.0.1) { revision = n }) feed' e a;
        holds =
            subst₂ (λ d c. Holds (stream ++ bytes) limit d c) (sym enabled)
              (sym (body-charge_record r side b' taken.0.0 taken.0.1 n))
              (settled-Holds stream bytes limit b h o taken.0.0 after v.best.asked k);
        accounts =
            charge_record-Accounts node_overhead r budget limit f side b' asked taken.0.0 taken.0.1
              (length b.trailing) n taken.1 v w.partial;
        tracks = t';
      }

  -- a disabled capture goes on counting and keeps nothing more
  observe-Holds :
      Holds stream limit true (body r side)
      → Holds (stream ++ bytes) limit true (observe (body r side) bytes)
  observe-Holds h = record {
    kept = h.kept ∙ sym (take-append (body r side).status.retained_bytes stream bytes h.within);
    within = omega (arith, length-append stream bytes, h.within);
    bounded = h.bounded;
    whole = λ _ off. cc (off);
    observed = omega (arith, length-append stream bytes, h.observed);
    shape = λ _.
        let w = h.shape o in record { chain = w.chain; partial = w.partial; unsealed = w.unsealed };
  }

  append_body-disabled :
      r.capture_disabled ≡ true
      → append_body node_overhead r feed budget side bytes limit
        ≡ some (set_body r side (observe (body r side) bytes), feed, budget, unchanged)
  unfolding append_body
  append_body-disabled e =
      let n : (is_terminal (body r side).status.stream || length bytes == 0) ≡ false =
        ground arith in
      if_false _ _ _ n ∙ if_true _ _ _ e

observe-Accounts :
    (r : CaptureRecord) (budget : MemoryBudget) (side : BodySide) (b : BodyCapture)
    → budget.used ≤ budget.limit
    → Accounts r budget side (set_body r side b) budget
observe-Accounts r budget request b u = record {
  reserved_is = refl;
  retained_is = refl;
  limit_is = refl;
  bounded = u;
  other = refl;
  disabled_is = refl;
  bound_is = refl;
}
observe-Accounts r budget response b u = record {
  reserved_is = refl;
  retained_is = refl;
  limit_is = refl;
  bounded = u;
  other = refl;
  disabled_is = refl;
  bound_is = refl;
}

-- With some bytes for a body that has not ended and whose preview holds a prefix of its stream, a
-- feed that has not exhausted its epoch, and a budget that covers the record and lies far from the
-- width of a word, `append_body` returns; the preview is again a prefix of the longer stream, of the
-- length that the counters say, within its limit, and whole until a limit is met or capture is
-- disabled; the budget and the record's counters grow by the same charge; and one change is
-- published exactly when the result reports one and the record is bound.
pub append_body-Appended :
    (node_overhead : ℕ) (log : List CaptureChange) (stream : Bytes) (r : CaptureRecord)
    (feed : ChangeState) (budget : MemoryBudget) (side : BodySide) (bytes : Bytes) (limit : ℕ)
    → Tracks log feed
    → length log < u64_max
    → IsFunded r budget limit
    → is_terminal (body r side).status.stream ≡ false
    → length bytes ≢ 0
    → Holds stream limit r.capture_disabled (body r side)
    → Appended node_overhead log stream bytes r feed budget side limit
append_body-Appended node_overhead log stream r feed budget side bytes limit t room f o some_bytes
      h =
    elim (Bool-cases r.capture_disabled) [
      | inl off ↦ record {
        record_after = set_body r side (observe (body r side) bytes);
        feed_after = feed;
        budget_after = budget;
        result = unchanged;
        returns =
            append_body-disabled node_overhead log stream r feed budget side bytes limit t room f o
              some_bytes off;
        holds =
            subst₂ (λ d c. Holds (stream ++ bytes) limit d c) (sym off)
              (sym (body-set_body r side (observe (body r side) bytes)))
              (observe-Holds node_overhead log stream r feed budget side bytes limit t room f o
                some_bytes (subst (λ d. Holds stream limit d (body r side)) off h));
        accounts = observe-Accounts r budget side (observe (body r side) bytes) f.used_ok;
        tracks = t;
      }
      | inr on ↦
          append_enabled-Appended node_overhead log stream r feed budget side bytes limit t room f o
            some_bytes on (subst (λ d. Holds stream limit d (body r side)) on h)
    ]
