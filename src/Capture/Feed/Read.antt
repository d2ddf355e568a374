-- ===== src/Capture/Feed/Read.antt =====
-- Reading the feed, src/capture/change.rs: `try_read` is a read of the log of all changes.
use fluxcope.Common.{
  ℕ, ◌+◌, ◌-◌, ◌≤◌, ◌<◌, ◌≡◌, ap, ◌∙◌, some, List, inl, inr, arith, u64_max, length, get_elem?, ltb,
  leb, Option-cases, Bool-cases, get_elem?-drop, get_elem?_lt, le_of_get_elem?-none,
}
use fluxcope.Capture.Feed.{CaptureChange, ChangeState, read_from, try_read}
use fluxcope.Capture.Feed.Log.{Tracks, epoch_of_Numbered, dropped, read_log}

module _ (log : List CaptureChange) (state : ChangeState) (t : Tracks log state) where
  ring_get : (i : ℕ) → get_elem? state.retained i ≡ get_elem? log (dropped log + i)
  ring_get i = rw t.ring (get_elem?-drop (dropped log) i log)

  log_get :
      (next : ℕ)
      → 1 ≤ next
      → next ≤ length log
      → (c : CaptureChange) × (get_elem? log (next - 1) ≡ some c) × (c.epoch ≡ next)
  log_get next h k =
      let (c, e) = get_elem?_lt log (next - 1) (omega arith) in
      (c, e, omega (arith, epoch_of_Numbered 1 log (next - 1) t.numbered e))

  read_from_log :
      (next : ℕ) (oldest : CaptureChange)
      → 1 ≤ next
      → length log < u64_max
      → oldest.epoch ≡ dropped log + 1
      → read_from state next oldest ≡ some (read_log log next)
  read_from_log next oldest h small e = elim (Bool-cases (ltb (length log) next)) [
    | inl past ↦ ground (arith, t.epoch_is)
    | inr within ↦ elim (Bool-cases (leb next (dropped log))) [
      | inl lost ↦ ground (arith, t.epoch_is)
      | inr kept ↦
          let (c, found, e') = log_get next h (ground arith) in
          let at : dropped log + (next - (dropped log + 1)) ≡ next - 1 = ground arith in
          let r = ring_get (next - (dropped log + 1)) ∙ ap (get_elem? log) at ∙ found in
          ground (arith, t.epoch_is, r)
    ]
  ]

  -- On a feed that tracks a log, with the epoch not exhausted and `next` at least 1, `try_read` does
  -- not panic, and it reads the log: nothing yet when `next` lies past its end, a gap when the entry
  -- has left the ring, and otherwise the entry of that epoch, with `next` moved on by one.
  pub try_read-read_log :
      (next : ℕ) → 1 ≤ next → length log < u64_max → try_read state next ≡ some (read_log log next)
  unfolding try_read
  try_read-read_log next h small = elim (Option-cases (get_elem? log (dropped log))) [
    | inl e ↦
        let short = le_of_get_elem?-none log (dropped log) e in
        let e₀ = ring_get 0 ∙ ap (get_elem? log) (omega arith) ∙ e in ground (arith, e₀, short)
    | inr (oldest, e) ↦
        let e₀ = ring_get 0 ∙ ap (get_elem? log) (omega arith) ∙ e in
        let ep : oldest.epoch ≡ dropped log + 1 =
          omega (arith, epoch_of_Numbered 1 log (dropped log) t.numbered e) in
        rw (e₀, try_read) (read_from_log next oldest h small ep)
  ]
