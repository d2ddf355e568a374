-- ===== src/Capture/Record/Finish.antt =====
-- The end of a body's stream, `finish_body_at` of src/capture/model.rs.
use fluxcope.Common.{ℕ, ◌+◌, ◌<◌, ◌≡◌, false, some, List, u64_max, length, wrap}
use fluxcope.Capture.Feed.{CaptureChange, ChangeState, record_updated}
use fluxcope.Capture.Feed.Log.{Tracks}
use fluxcope.Capture.Budget.{MemoryBudget}
use fluxcope.Capture.Body.{Bytes, BodySide, request, response, BodyCapture, seal}
use fluxcope.Capture.Record.{
  CaptureRecord, BodyTerminal, terminate, body, set_body, set_terminal_at, announce, unchanged,
  append_body, finish_body_at,
}
use fluxcope.Capture.Record.Announce.{noted, announce-Tracks}

-- the body that a finish stores
abbrev pub sealed : BodyCapture → BodyTerminal → BodyCapture
sealed b terminal = seal (record b { status = terminate b.status terminal })

-- the record that a finish announces
abbrev pub finished : CaptureRecord → BodySide → BodyTerminal → ℕ → CaptureRecord
finished r side terminal at =
    set_terminal_at (set_body r side (sealed (body r side) terminal)) side at

pub announce-finished :
    (log : List CaptureChange) (r : CaptureRecord) (feed : ChangeState) (side : BodySide)
    (terminal : BodyTerminal) (at : ℕ)
    → Tracks log feed
    → length log < u64_max
    → (feed' : ChangeState) × (announce (finished r side terminal at) feed
        ≡ some (record (finished r side terminal at) { revision = wrap (r.revision + 1) }, feed'))
      × Tracks (noted r.feed_bound log r.sequence (wrap (r.revision + 1)) record_updated) feed'
announce-finished log r feed request terminal at t room =
    announce-Tracks log (finished r request terminal at) feed t room
announce-finished log r feed response terminal at t room =
    announce-Tracks log (finished r response terminal at) feed t room

-- A body whose stream has ended ignores every later event of it.
pub record Ignores (node_overhead : ℕ) (r : CaptureRecord) (side : BodySide) : Type 0 where
  pub append_ignored :
      (feed : ChangeState) (budget : MemoryBudget) (bytes : Bytes) (limit : ℕ)
      → append_body node_overhead r feed budget side bytes limit ≡ some (r, feed, budget, unchanged)
  pub finish_ignored :
      (feed : ChangeState) (terminal : BodyTerminal) (at : ℕ)
      → finish_body_at r feed side terminal at ≡ some (r, feed, false)
