-- ===== src/Capture/Feed/Delivery.antt =====
-- What a subscriber receives, src/capture/change.rs, over every interleaving of publications and
-- reads: `subscribe`, then `publish` by anyone and `try_recv` by the subscriber, in any order.
use fluxcope.Common.{
  zero, false, ◌⊎◌, take_all, leb→le, if◌then◌else◌, ℕ, suc, ◌+◌, ◌-◌, ◌≤◌, ◌<◌, ◌≡◌, refl, sym, ap,
  ◌∙◌, Option, none, some, List, [], ◌∷◌, ◌++◌, inl, inr, arith, u64_max, length, get_elem?, take,
  drop, ltb, leb, Bool-cases, length-append, drop-append, take-append, take-suc, length-drop,
  get_elem?-drop, get_elem?_lt,
}
use fluxcope.Common.Outcome.Panic.{◌>>=◌}
use fluxcope.Common.Outcome.{ok, err}
use fluxcope.Capture.Feed.{
  CaptureChangeKind, CaptureChange, CaptureChangeError, gap, ChangeState, ReadResult, subscribe,
  publish, try_read,
}
use fluxcope.Capture.Feed.Log.{Tracks, entry, dropped, publish-Tracks}
use fluxcope.Capture.Feed.Read.{try_read-read_log}

pub data FeedEvent : Type 0 where
  publishes : ℕ → ℕ → CaptureChangeKind → FeedEvent
  reads : FeedEvent

-- The feed, the subscription's next epoch, the changes delivered so far, and the first gap reported.
pub record Session : Type 0 where
  pub state : ChangeState
  pub next : ℕ
  pub delivered : List CaptureChange
  pub lagged : Option CaptureChangeError

-- the subscriber's side of a read
abbrev receive : Session → ReadResult → Session
receive s (ok none, next) = record s { next = next }
receive s (ok (some c), next) = record s { next = next; delivered = s.delivered ++ c ∷ [] }
receive s (err e, next) = record s { next = next; lagged = some e }

unfoldable pub step : Session → FeedEvent → Option Session
step s (publishes sequence revision kind) = do
  (_, state') ← publish sequence revision kind s.state
  some (record s { state = state' })
step s reads = do r ← try_read s.state s.next; some (receive s r)

unfoldable pub run : Session → List FeedEvent → Option Session
run s [] = some s
run s (e ∷ es) = do s' ← step s e; run s' es

-- Where a subscriber is in a log of this many changes, and the last gap it was told of.
abbrev pub Place : Type 0
Place = ℕ × Option CaptureChangeError

-- A read of the log: it stays past the end, it is told of a gap when its change is not among the last
-- 4096, and otherwise it goes one change on.
abbrev pub follow_read : ℕ → Place → Place
follow_read len (next, lagged) =
    if ltb len next
    then (next, lagged)
    else if leb next (len - 4096)
    then (next, some (gap next (len - 4096 + 1)))
    else (next + 1, lagged)

abbrev pub follow : ℕ → Place → List FeedEvent → Place
follow len place [] = place
follow len place (publishes _ _ _ ∷ es) = follow (len + 1) place es
follow len place (reads ∷ es) = follow len (follow_read len place) es

abbrev pub place_of : Session → Place
place_of s = (s.next, s.lagged)

-- The subscription stands at `next - 1` entries of the log, having begun after the first `start`.
pub record Delivers (start : ℕ) (log : List CaptureChange) (s : Session) : Type 0 where
  pub tracks : Tracks log s.state
  pub begun : start < s.next
  pub reached : s.next ≤ length log + 1
  pub received : s.delivered ≡ take (s.next - 1 - start) (drop start log)

-- appended entries do not change what has been read
take-drop-append :
    (start n : ℕ) (log : List CaptureChange) (c : CaptureChange)
    → start + n ≤ length log
    → take n (drop start (log ++ c ∷ [])) ≡ take n (drop start log)
take-drop-append start n log c h =
    ap (take n) (drop-append start log (c ∷ []) (omega arith))
    ∙ take-append n (drop start log) (c ∷ []) (omega (arith, length-drop start log))

-- one more entry
take_next :
    (start n : ℕ) (log : List CaptureChange) {c : CaptureChange}
    → get_elem? log (start + n) ≡ some c
    → take (suc n) (drop start log) ≡ take n (drop start log) ++ c ∷ []
take_next start n log e = take-suc n (drop start log) (get_elem?-drop start n log ∙ e)

module _ (start : ℕ) (log : List CaptureChange) {s : Session} (d : Delivers start log s) where
  publishes-Delivers :
      (sequence revision : ℕ) (kind : CaptureChangeKind)
      → length log < u64_max
      → (s' : Session) × (step s (publishes sequence revision kind) ≡ some s')
        × Delivers start (log ++ entry log sequence revision kind ∷ []) s'
        × (place_of s' ≡ place_of s)
  unfolding step
  publishes-Delivers sequence revision kind h =
      let (state', e, t) = publish-Tracks log s.state sequence revision kind d.tracks h in
      (
        record s { state = state' },
        rw e,
        record {
          tracks = t;
          begun = d.begun;
          reached =
              omega (arith, d.reached, length-append log (entry log sequence revision kind ∷ []));
          received =
              d.received
              ∙ sym (
                  take-drop-append start (s.next - 1 - start) log (entry log sequence revision kind)
                    (omega (arith, d.reached, d.begun)));
        },
        refl,
      )

  received_next :
      (c : CaptureChange)
      → get_elem? log (s.next - 1) ≡ some c
      → s.delivered ++ c ∷ [] ≡ take (s.next + 1 - 1 - start) (drop start log)
  received_next c found =
      let n = s.next - 1 - start in
      let at : start + n ≡ s.next - 1 = omega (arith, d.begun) in
      let up : s.next + 1 - 1 - start ≡ suc n = omega (arith, d.begun) in
      rw (up, d.received) (sym (take_next start n log (ap (get_elem? log) at ∙ found)))

  reads-Delivers :
      length log < u64_max
      → (s' : Session) × (step s reads ≡ some s')
        × Delivers start log s'
        × (place_of s' ≡ follow_read (length log) (place_of s))
  unfolding step
  reads-Delivers h =
      let r = try_read-read_log log s.state d.tracks s.next (omega (arith, d.begun)) h in
      elim (Bool-cases (ltb (length log) s.next)) [
        | inl past ↦ (s, rw (r, past), d, rw past refl)
        | inr within ↦ elim (Bool-cases (leb s.next (dropped log))) [
          | inl lost ↦ (
            record s { lagged = some (gap s.next (dropped log + 1)) },
            rw (r, within, lost),
            record {
              tracks = d.tracks;
              begun = d.begun;
              reached = d.reached;
              received = d.received;
            },
            rw (within, lost) refl,
          )
          | inr kept ↦
              let (c, found) = get_elem?_lt log (s.next - 1) (ground (arith, d.begun)) in
              (
                record s { next = s.next + 1; delivered = s.delivered ++ c ∷ [] },
                rw (r, within, kept, found),
                record {
                  tracks = d.tracks;
                  begun = omega (arith, d.begun);
                  reached = ground arith;
                  received = received_next c found;
                },
                rw (within, kept) refl,
              )
        ]
      ]

-- the log after the events
abbrev pub log_after : List CaptureChange → List FeedEvent → List CaptureChange
log_after log [] = log
log_after log (publishes sequence revision kind ∷ es) =
    log_after (log ++ entry log sequence revision kind ∷ []) es
log_after log (reads ∷ es) = log_after log es

log_after_longer :
    (es : List FeedEvent) (log : List CaptureChange) → length log ≤ length (log_after log es)
log_after_longer [] log = omega arith
log_after_longer (publishes sequence revision kind ∷ es) log =
    let c = entry log sequence revision kind in
    omega (arith, length-append log (c ∷ []), log_after_longer es (log ++ c ∷ []))
log_after_longer (reads ∷ es) log = log_after_longer es log

log_after_bound :
    (es : List FeedEvent) (log : List CaptureChange)
    → length (log_after log es) ≤ length log + length es
log_after_bound [] log = omega arith
log_after_bound (publishes sequence revision kind ∷ es) log =
    let c = entry log sequence revision kind in
    omega (arith, length-append log (c ∷ []), log_after_bound es (log ++ c ∷ []))
log_after_bound (reads ∷ es) log = omega (arith, log_after_bound es log)

run-Delivers :
    (start : ℕ) (es : List FeedEvent) (log : List CaptureChange) (s : Session)
    → Delivers start log s
    → length (log_after log es) < u64_max
    → (s' : Session) × (run s es ≡ some s')
      × Delivers start (log_after log es) s'
      × (place_of s' ≡ follow (length log) (place_of s) es)
unfolding run
run-Delivers start [] log s d h = (s, refl, d, refl)
run-Delivers start (publishes sequence revision kind ∷ es) log s d h =
    let c = entry log sequence revision kind in
    let l = length-append log (c ∷ []) in
    let longer = log_after_longer es (log ++ c ∷ []) in
    let (s', e, d', at) =
      publishes-Delivers start log d sequence revision kind (omega (arith, l, longer)) in
    let (s'', e', d'', at') = run-Delivers start es (log ++ c ∷ []) s' d' h in
    (
      s'',
      rw e e',
      d'',
      at'
          ∙ ap (λ p. follow (length (log ++ c ∷ [])) p es) at
          ∙ ap (λ n. follow n (place_of s) es) l,
    )
run-Delivers start (reads ∷ es) log s d h =
    let longer = log_after_longer es log in
    let (s', e, d', at) = reads-Delivers start log d (omega (arith, longer)) in
    let (s'', e', d'', at') = run-Delivers start es log s' d' h in
    (s'', rw e e', d'', at' ∙ ap (λ p. follow (length log) p es) at)

-- some reads, with nothing published in between
abbrev pub reads_of : ℕ → List FeedEvent
reads_of zero = []
reads_of (suc n) = reads ∷ reads_of n

log_after-reads_of : (n : ℕ) (log : List CaptureChange) → log_after log (reads_of n) ≡ log
log_after-reads_of zero log = refl
log_after-reads_of (suc n) log = log_after-reads_of n log

follow_read_on :
    (len next : ℕ) (lagged : Option CaptureChangeError)
    → next ≤ len
    → len - 4096 < next
    → follow_read len (next, lagged) ≡ (next + 1, lagged)
follow_read_on len next lagged h k =
    let within : ltb len next ≡ false = ground arith in
    let kept : leb next (len - 4096) ≡ false = ground arith in rw (within, kept) refl

-- reads that stay within the ring go on by one each
follow-reads_of :
    (n len next : ℕ) (lagged : Option CaptureChangeError)
    → next + n ≤ len + 1
    → len - 4096 < next
    → follow len (next, lagged) (reads_of n) ≡ (next + n, lagged)
follow-reads_of zero len next lagged h k = ap {A = ℕ} {B = Place} (λ m. (m, lagged)) (omega arith)
follow-reads_of (suc n) len next lagged h k =
    ap {A = Place} (λ p. follow len p (reads_of n)) (follow_read_on len next lagged (omega arith) k)
    ∙ follow-reads_of n len (next + 1) lagged (omega arith) (omega arith)
    ∙ ap {A = ℕ} {B = Place} (λ m. (m, lagged)) (omega arith)

abbrev pub subscribed : ChangeState → ℕ → Session
subscribed state next = record { state = state; next = next; delivered = []; lagged = none }

begins :
    (log : List CaptureChange) (state : ChangeState)
    → Tracks log state
    → Delivers (length log) log (subscribed state (length log + 1))
begins log state t = record {
  tracks = t;
  begun = omega arith;
  reached = omega arith;
  received =
      let e : length log + 1 - 1 - length log ≡ 0 = omega arith in
      sym (ap (λ k. take k (drop (length log) log)) e);
}

-- reading on from a session that has not fallen out of the ring
catches_up :
    (start : ℕ) (log : List CaptureChange) (s : Session)
    → Delivers start log s
    → length log < u64_max
    → length log - 4096 < s.next
    → (s' : Session) × (run s (reads_of (length log + 1 - s.next)) ≡ some s')
      × (s'.delivered ≡ drop start log)
catches_up start log s d h k =
    let n = length log + 1 - s.next in
    let (s', e, d', at) =
      run-Delivers start (reads_of n) log s d (rw (log_after-reads_of n log) h) in
    let next_is : s'.next ≡ length log + 1 =
      ap {A = Place} (λ p. p.0)
        (at ∙ follow-reads_of n (length log) s.next s.lagged (omega (arith, d.reached)) k)
      ∙ omega (arith, d.reached) in
    (
      s',
      e,
      d'.received
          ∙ ap (λ l. take (s'.next - 1 - start) (drop start l)) (log_after-reads_of n log)
          ∙ take_all (s'.next - 1 - start) (drop start log)
              (omega (arith, next_is, length-drop start log)),
    )

-- From a subscription to a feed that tracks a log, over every order of publications and reads that
-- leaves the epoch unexhausted, nothing panics. The subscriber's next epoch, and the last gap it was
-- told of, are those of following the log: a read goes one change on unless it is at the end or its
-- change is no longer among the last 4096. It holds exactly the changes published after it subscribed,
-- in their order, each once, up to the one before its next epoch. And unless its next change has left
-- the ring, reading on gives it all the changes published after it subscribed.
pub subscription_delivers :
    (log : List CaptureChange) (state : ChangeState) (es : List FeedEvent)
    → Tracks log state
    → length log + length es + 1 < u64_max
    → (next : ℕ) × (s : Session) × (subscribe state ≡ some next)
      × (run (subscribed state next) es ≡ some s)
      × (s.next ≤ length (log_after log es) + 1)
      × (s.delivered ≡ take (s.next - next) (drop (length log) (log_after log es)))
      × (place_of s ≡ follow (length log) (length log + 1, none) es)
      × ((s.next ≤ length (log_after log es) - 4096)
          ⊎ ((s' : Session) × (run s (reads_of (length (log_after log es) + 1 - s.next)) ≡ some s')
              × (s'.delivered ≡ drop (length log) (log_after log es))))
unfolding subscribe
subscription_delivers log state es t h =
    let n = length log + 1 in
    let bound = log_after_bound es log in
    let (s, e, d, at) =
      run-Delivers (length log) es log (subscribed state n) (begins log state t)
        (omega (arith, bound)) in
    (
      n,
      s,
      ground (arith, t.epoch_is),
      e,
      d.reached,
      d.received ∙ ap (λ k. take k (drop (length log) (log_after log es))) (omega arith),
      at,
      elim (Bool-cases (leb s.next (length (log_after log es) - 4096))) [
        | inl lost ↦ inl (leb→le s.next (length (log_after log es) - 4096) lost)
        | inr kept ↦
            inr
              (catches_up (length log) (log_after log es) s d (omega (arith, bound)) (ground arith))
      ],
    )
