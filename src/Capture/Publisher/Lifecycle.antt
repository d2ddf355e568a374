-- ===== src/Capture/Publisher/Lifecycle.antt =====
-- The permit of an exchange, `ExchangeLifecycle` of src/capture/publisher.rs, over every sequence of
-- ends of its two streams.
use fluxcope.Common.{
  ℕ, suc, ◌+◌, ◌≤◌, ◌<◌, ◌≡◌, refl, ap, ◌∙◌, inl, inr, Bool, true, false, ◌&&◌, ◌||◌, not, Option,
  none, some, List, [], ◌∷◌, arith, length, length-append, wrap, u64_max, Bool-cases, Option-cases,
  if◌then◌else◌,
}
use fluxcope.Common.Outcome.Panic.{◌>>=◌}
use fluxcope.Capture.Feed.{CaptureChange, ChangeState, record_updated}
use fluxcope.Capture.Feed.Log.{Tracks, entry}
use fluxcope.Capture.Body.{BodySide, request, response, is_terminal}
use fluxcope.Capture.Record.{CaptureRecord, BodyTerminal, finish_body_at, body}
use fluxcope.Capture.Record.Announce.{noted}
use fluxcope.Capture.Record.Finish.{finished, announce-finished}
use fluxcope.Capture.Publisher.{
  Semaphore, Sender, CapturePublisher, stored, upgrade, mark_terminal, finish_at,
}
use fluxcope.Capture.Publisher.Live.{CaptureHandle, ExchangeLifecycle, mark_if}

-- one end of a stream: the side, the way it ended, and when
abbrev pub End : Type 0
End = BodySide × BodyTerminal × ℕ

abbrev is_side : BodySide → BodySide → Bool
is_side request request = true
is_side response response = true
is_side _ _ = false

-- whether a side is among those that end
unfoldable pub ended : BodySide → List End → Bool
ended side [] = false
ended side ((s, _, _) ∷ ends) = is_side side s || ended side ends

ended-cons :
    (side s : BodySide) (terminal : BodyTerminal) (at : ℕ) (ends : List End)
    → ended side ((s, terminal, at) ∷ ends) ≡ (is_side side s || ended side ends)
unfolding ended
ended-cons side s terminal at ends = refl

abbrev pub held : ExchangeLifecycle → ℕ
held lifecycle = if lifecycle.has_permit then 1 else 0

unended : (a b : Bool) → not (a && b) ≡ not ((a || false) && (b || false))
unended true true = refl
unended true false = refl
unended false b = refl

or_assoc : (a b c : Bool) → ((a || b) || c) ≡ (a || (b || c))
or_assoc true b c = refl
or_assoc false b c = refl

joins :
    (a b a' b' s t x y : Bool)
    → a' ≡ (a || s)
    → b' ≡ (b || t)
    → not ((a' || x) && (b' || y)) ≡ not ((a || (s || x)) && (b || (t || y)))
joins a b a' b' s t x y e f = rw (e, f, or_assoc a s x, or_assoc b t y)

length-noted :
    (b : Bool) (log : List CaptureChange) (sequence revision : ℕ)
    → length (noted b log sequence revision record_updated) ≤ suc (length log)
length-noted true log sequence revision =
    omega (arith, length-append log (entry log sequence revision record_updated ∷ []))
length-noted false log sequence revision = omega arith

-- an end of a stream always returns, and publishes one change at most
finish_body_at_total :
    (log : List CaptureChange) (r : CaptureRecord) (feed : ChangeState) (side : BodySide)
    (terminal : BodyTerminal) (at : ℕ)
    → Tracks log feed
    → length log < u64_max
    → (r' : CaptureRecord) × (feed' : ChangeState) × (changed : Bool) × (log' : List CaptureChange)
      × (finish_body_at r feed side terminal at ≡ some (r', feed', changed))
      × Tracks log' feed'
      × (length log' ≤ suc (length log))
finish_body_at_total log r feed side terminal at t room =
    elim (Bool-cases (is_terminal (body r side).status.stream)) [
      | inl over ↦ (r, feed, false, log, unfold finish_body_at in rw over, t, omega arith)
      | inr going ↦
          let (feed', a, t') = announce-finished log r feed side terminal at t room in
          (
            record (finished r side terminal at) { revision = wrap (r.revision + 1) },
            feed',
            true,
            noted r.feed_bound log r.sequence (wrap (r.revision + 1)) record_updated,
            unfold finish_body_at in rw (going, a),
            t',
            length-noted r.feed_bound log r.sequence (wrap (r.revision + 1)),
          )
    ]

module _ (semaphore : Semaphore) (sender : Sender) where
  open semaphore use {Permits, available, give_back, given_back}

  -- A permit is held until both bits are set, and from then on not; permits are neither lost nor made.
  mark_terminal_lem :
      (permits : Permits) (lifecycle : ExchangeLifecycle) (side : BodySide)
      → lifecycle.has_permit ≡ not (lifecycle.request_terminal && lifecycle.response_terminal)
      → let after = mark_terminal semaphore sender permits lifecycle side in
        (after.1.has_permit ≡ not (after.1.request_terminal && after.1.response_terminal))
        × (available after.0 + held after.1 ≡ available permits + held lifecycle)
        × (after.1.request_terminal ≡ (lifecycle.request_terminal || is_side request side))
        × (after.1.response_terminal ≡ (lifecycle.response_terminal || is_side response side))
  unfolding mark_terminal
  mark_terminal_lem permits lifecycle request h = ground (arith, given_back permits)
  mark_terminal_lem permits lifecycle response h = ground (arith, given_back permits)

  -- the ends of an exchange, one after the other
  unfoldable pub finish_each :
      CapturePublisher semaphore sender
      → CaptureHandle
      → List End
      → Option (CapturePublisher semaphore sender × CaptureHandle)
  finish_each p handle [] = some (p, handle)
  finish_each p handle ((side, terminal, at) ∷ ends) = do
    (p', handle') ← finish_at semaphore sender p handle side terminal at
    finish_each p' handle' ends

  -- An end returns, with the permits and the lifecycle that marking the side leaves.
  record Ends (p : CapturePublisher semaphore sender) (handle : CaptureHandle) (side : BodySide)
      (terminal : BodyTerminal) (at : ℕ) (log : List CaptureChange) : Type 0 where
    after : CapturePublisher semaphore sender
    handle_after : CaptureHandle
    log_after : List CaptureChange
    returns : finish_at semaphore sender p handle side terminal at ≡ some (after, handle_after)
    tracks : Tracks log_after after.feed
    longer : length log_after ≤ suc (length log)
    marks :
        (after.admission, handle_after.lifecycle)
        ≡ mark_terminal semaphore sender p.admission handle.lifecycle side
    budget_same : after.budget ≡ p.budget

  finish_at-gone :
      (p : CapturePublisher semaphore sender) (handle : CaptureHandle) (side : BodySide)
      (terminal : BodyTerminal) (at : ℕ)
      → upgrade semaphore sender p handle ≡ none
      → let m = mark_terminal semaphore sender p.admission handle.lifecycle side in
        finish_at semaphore sender p handle side terminal at
        ≡ some (record p { admission = m.0 }, record handle { lifecycle = m.1 })
  unfolding finish_at
  finish_at-gone p handle side terminal at h = rw (h, finish_at)

  finish_at-live :
      (p : CapturePublisher semaphore sender) (handle : CaptureHandle) (side : BodySide)
      (terminal : BodyTerminal) (at : ℕ) {r r' : CaptureRecord} {feed' : ChangeState}
      {changed : Bool}
      → upgrade semaphore sender p handle ≡ some r
      → finish_body_at r p.feed side terminal at ≡ some (r', feed', changed)
      → let m = mark_terminal semaphore sender p.admission handle.lifecycle side in
        finish_at semaphore sender p handle side terminal at
        ≡ some (
          stored semaphore sender
              (record p { admission = m.0 })
              handle
              (r', feed', p.budget, record (p.noticed) { dirty = mark_if changed p.noticed.dirty }),
          record handle { lifecycle = m.1 },
        )
  unfolding finish_at
  finish_at-live p handle side terminal at h e = rw (h, finish_at) (rw e)

  finish_at-Ends :
      (p : CapturePublisher semaphore sender) (handle : CaptureHandle) (side : BodySide)
      (terminal : BodyTerminal) (at : ℕ) (log : List CaptureChange)
      → Tracks log p.feed
      → length log < u64_max
      → Ends p handle side terminal at log
  finish_at-Ends p handle side terminal at log t room =
      let m = mark_terminal semaphore sender p.admission handle.lifecycle side in
      elim (Option-cases (upgrade semaphore sender p handle)) [
        | inl gone ↦ record {
          after = record p { admission = m.0 };
          handle_after = record handle { lifecycle = m.1 };
          log_after = log;
          returns = finish_at-gone p handle side terminal at gone;
          tracks = t;
          longer = omega arith;
          marks = refl;
          budget_same = refl;
        }
        | inr (r, live) ↦
            let (r', feed', changed, log', e, t', l) =
              finish_body_at_total log r p.feed side terminal at t room in
            record {
              after =
                  stored semaphore sender (record p { admission = m.0 }) handle
                    (
                      r',
                      feed',
                      p.budget,
                      record (p.noticed) { dirty = mark_if changed p.noticed.dirty },
                    );
              handle_after = record handle { lifecycle = m.1 };
              log_after = log';
              returns = finish_at-live p handle side terminal at live e;
              tracks = t';
              longer = l;
              marks = refl;
              budget_same = refl;
            }
      ]

  -- what the ends of an exchange leave of its permit
  pub record Frees (p : CapturePublisher semaphore sender) (handle : CaptureHandle)
      (ends : List End) : Type 0 where
    pub after : CapturePublisher semaphore sender
    pub handle_after : CaptureHandle
    pub returns : finish_each p handle ends ≡ some (after, handle_after)
    pub held_is :
        handle_after.lifecycle.has_permit
        ≡ not (
            (handle.lifecycle.request_terminal || ended request ends)
            && (handle.lifecycle.response_terminal || ended response ends))
    pub conserved :
        available after.admission + held handle_after.lifecycle
        ≡ available p.admission + held handle.lifecycle
    pub budget_same : after.budget ≡ p.budget

  -- Over every sequence of ends of an exchange's streams, repeated ones included, while the feed has
  -- epochs for them, every end returns; the permit is given back exactly once, as soon as both sides
  -- have ended and not before; and the budget does not change.
  pub finish_each-Frees :
      (p : CapturePublisher semaphore sender) (handle : CaptureHandle) (ends : List End)
      (log : List CaptureChange)
      → Tracks log p.feed
      → length log + length ends < u64_max
      → handle.lifecycle.has_permit
        ≡ not (handle.lifecycle.request_terminal && handle.lifecycle.response_terminal)
      → Frees p handle ends
  unfolding finish_each
  finish_each-Frees p handle [] log t room h = record {
    after = p;
    handle_after = handle;
    returns = refl;
    held_is =
        unfold ended in
        h ∙ unended handle.lifecycle.request_terminal handle.lifecycle.response_terminal;
    conserved = refl;
    budget_same = refl;
  }
  finish_each-Frees p handle ((side, terminal, at) ∷ ends) log t room h =
      let e = finish_at-Ends p handle side terminal at log t (omega arith) in
      let (a, b, c, d) = mark_terminal_lem p.admission handle.lifecycle side h in
      let lifecycle_is : e.handle_after.lifecycle
          ≡ (mark_terminal semaphore sender p.admission handle.lifecycle side).1 =
        ap (λ x. x.1) e.marks in
      let request_is : e.handle_after.lifecycle.request_terminal
          ≡ (handle.lifecycle.request_terminal || is_side request side) =
        rw lifecycle_is c in
      let response_is : e.handle_after.lifecycle.response_terminal
          ≡ (handle.lifecycle.response_terminal || is_side response side) =
        rw lifecycle_is d in
      let admission_is : e.after.admission
          ≡ (mark_terminal semaphore sender p.admission handle.lifecycle side).0 =
        ap (λ x. x.0) e.marks in
      let rest =
        finish_each-Frees e.after e.handle_after ends e.log_after e.tracks (omega (arith, e.longer))
          (rw lifecycle_is a) in
      record {
        after = rest.after;
        handle_after = rest.handle_after;
        returns = rw e.returns rest.returns;
        held_is =
            rw (ended-cons request side terminal at ends, ended-cons response side terminal at ends)
              (rest.held_is
                ∙ joins handle.lifecycle.request_terminal handle.lifecycle.response_terminal
                    e.handle_after.lifecycle.request_terminal
                    e.handle_after.lifecycle.response_terminal (is_side request side)
                    (is_side response side) (ended request ends) (ended response ends) request_is
                    response_is);
        conserved = rest.conserved ∙ (rw (admission_is, lifecycle_is) b);
        budget_same = rest.budget_same ∙ e.budget_same;
      }
