-- ===== src/Capture/Record/Announce.antt =====
-- Publishing by a record, src/capture/model.rs, over the log of all changes.
use fluxcope.Common.{
  ℕ, ◌+◌, ◌<◌, ◌≡◌, Bool, true, false, some, List, [], ◌∷◌, ◌++◌, inl, inr, arith, u64_max, length,
  wrap, Bool-cases,
}
use fluxcope.Capture.Feed.{CaptureChange, CaptureChangeKind, record_updated, ChangeState}
use fluxcope.Capture.Feed.Log.{Tracks, entry, publish-Tracks}
use fluxcope.Capture.Record.{CaptureRecord, announce}

-- the log after a change of `kind`, if the record is bound
abbrev pub noted : Bool → List CaptureChange → ℕ → ℕ → CaptureChangeKind → List CaptureChange
noted true log sequence revision kind = log ++ entry log sequence revision kind ∷ []
noted false log sequence revision kind = log

-- A mutation bumps the revision, and a bound record publishes it once, with the new revision.
pub announce-Tracks :
    (log : List CaptureChange) (r : CaptureRecord) (feed : ChangeState)
    → Tracks log feed
    → length log < u64_max
    → (feed' : ChangeState) × (announce r feed
        ≡ some (record r { revision = wrap (r.revision + 1) }, feed'))
      × Tracks (noted r.feed_bound log r.sequence (wrap (r.revision + 1)) record_updated) feed'
unfolding announce
announce-Tracks log r feed t h = elim (Bool-cases r.feed_bound) [
  | inl bound ↦
      let (feed', e, t') =
        publish-Tracks log feed r.sequence (wrap (r.revision + 1)) record_updated t h in
      (feed', ground (arith, e), ground (arith, t'))
  | inr loose ↦ (feed, ground arith, ground arith)
]
