-- ===== src/Capture/Feed/Log.antt =====
-- The feed against the log of every change ever published, src/capture/change.rs: the ring is the
-- last `retained_changes` entries of the log, and a read is a read of the log.
use fluxcope.Common.{
  ℕ, zero, suc, ◌+◌, ◌-◌, ◌≤◌, ◌<◌, ◌≡◌, refl, sym, ap, ◌∙◌, none, some, List, [], ◌∷◌, ◌++◌, inl,
  inr, arith, u64_max, length, get_elem?, drop, ltb, leb, ◌==◌, if◌then◌else◌, Bool-cases,
  length-append, length-drop, drop-append, drop-suc,
}
use fluxcope.Common.Outcome.{ok, err}
use fluxcope.Capture.Feed.{
  CaptureChangeKind, CaptureChange, gap, retained_changes, ChangeState, make_room, publish,
  ReadResult,
}

-- consecutive epochs, from `n` on
abbrev pub Numbered : ℕ → List CaptureChange → Type 0
Numbered n [] = Unit
Numbered n (c ∷ cs) = (c.epoch ≡ n) × Numbered (suc n) cs

pub Numbered-concat :
    (n : ℕ) (cs : List CaptureChange) (c : CaptureChange)
    → Numbered n cs
    → c.epoch ≡ n + length cs
    → Numbered n (cs ++ c ∷ [])
Numbered-concat n [] c h e = (omega arith, tt)
Numbered-concat n (d ∷ cs) c h e = (h.0, Numbered-concat (suc n) cs c h.1 (omega arith))

pub epoch_of_Numbered :
    (n : ℕ) (cs : List CaptureChange) (i : ℕ) {c : CaptureChange}
    → Numbered n cs
    → get_elem? cs i ≡ some c
    → c.epoch ≡ n + i
epoch_of_Numbered n [] i h e = cc
epoch_of_Numbered n (d ∷ cs) zero {c} h e = ground (arith, h.0)
epoch_of_Numbered n (d ∷ cs) (suc i) h e = omega (arith, epoch_of_Numbered (suc n) cs i h.1 e)

-- entries that have left the ring
abbrev pub dropped : List CaptureChange → ℕ
dropped log = length log - retained_changes

pub record Tracks (log : List CaptureChange) (state : ChangeState) : Type 0 where
  pub epoch_is : state.epoch ≡ length log
  pub numbered : Numbered 1 log
  pub ring : state.retained ≡ drop (dropped log) log
  pub sent_is : state.sent ≡ length log

-- the change that `publish` appends to `log`
abbrev pub entry : List CaptureChange → ℕ → ℕ → CaptureChangeKind → CaptureChange
entry log sequence revision kind = record {
  epoch = length log + 1;
  sequence = sequence;
  revision = revision;
  kind = kind;
}

abbrev pub published : List CaptureChange → CaptureChange → ChangeState → ChangeState
published log c state = record {
  epoch = length log + 1;
  retained = make_room state.retained ++ c ∷ [];
  sent = length log + 1;
}

publish_lem :
    (log : List CaptureChange) (state : ChangeState) (sequence revision : ℕ)
    (kind : CaptureChangeKind)
    → state.epoch ≡ length log
    → length log < u64_max
    → publish sequence revision kind state
      ≡ some
          (entry log sequence revision kind, published log (entry log sequence revision kind) state)
unfolding publish
publish_lem log state sequence revision kind e h = ground arith

-- the entries that have left the ring after one more
dropped-concat :
    (log : List CaptureChange) (c : CaptureChange)
    → dropped (log ++ c ∷ []) ≡ length log + 1 - retained_changes
dropped-concat log c = omega (arith, length-append log (c ∷ []))

drop_next :
    (log : List CaptureChange)
    → retained_changes ≤ length log
    → drop 1 (drop (dropped log) log) ≡ drop (length log + 1 - retained_changes) log
drop_next log h =
    let e : length log + 1 - retained_changes ≡ suc (dropped log) = omega arith in
    rw e (sym (drop-suc (dropped log) log))

make_room-drop :
    (log : List CaptureChange)
    → make_room (drop (dropped log) log) ≡ drop (length log + 1 - retained_changes) log
make_room-drop log = elim (Bool-cases (length (drop (dropped log) log) == retained_changes)) [
  | inl full ↦ rw full (drop_next log (ground (arith, length-drop (dropped log) log)))
  | inr room ↦
      let h : length log < retained_changes = ground (arith, length-drop (dropped log) log) in
      let e : dropped log ≡ 0 = omega arith in
      let e' : length log + 1 - retained_changes ≡ 0 = omega arith in rw room (rw (e, e'))
]

ring-concat :
    (log : List CaptureChange) (c : CaptureChange)
    → make_room (drop (dropped log) log) ++ c ∷ [] ≡ drop (dropped (log ++ c ∷ [])) (log ++ c ∷ [])
ring-concat log c = rw (dropped-concat log c) (
    ap (λ l. l ++ c ∷ []) (make_room-drop log)
    ∙ sym (drop-append (length log + 1 - retained_changes) log (c ∷ []) (omega arith)))

published-Tracks :
    (log : List CaptureChange) (state : ChangeState) (c : CaptureChange)
    → c.epoch ≡ length log + 1
    → Tracks log state
    → Tracks (log ++ c ∷ []) (published log c state)
published-Tracks log state c e t = record {
  epoch_is = omega (arith, length-append log (c ∷ []));
  numbered = Numbered-concat 1 log c t.numbered (omega arith);
  ring = rw t.ring (ring-concat log c);
  sent_is = omega (arith, length-append log (c ∷ []));
}

-- On a feed that tracks a log, while the epoch is not exhausted, `publish` returns: the change has
-- the next epoch and is appended to the log, and the ring holds the last `retained_changes` entries
-- of the new log.
pub publish-Tracks :
    (log : List CaptureChange) (state : ChangeState) (sequence revision : ℕ)
    (kind : CaptureChangeKind)
    → Tracks log state
    → length log < u64_max
    → (state' : ChangeState) × (publish sequence revision kind state
        ≡ some (entry log sequence revision kind, state'))
      × Tracks (log ++ entry log sequence revision kind ∷ []) state'
publish-Tracks log state sequence revision kind t h =
    let c = entry log sequence revision kind in
    (
      published log c state,
      publish_lem log state sequence revision kind t.epoch_is h,
      published-Tracks log state c refl t,
    )

-- A read of the whole log at epoch `next`, which nothing has left, but for the report of a gap.
abbrev pub read_log : List CaptureChange → ℕ → ReadResult
read_log log next =
    if ltb (length log) next
    then (ok none, next)
    else if leb next (dropped log)
    then (err (gap next (dropped log + 1)), next)
    else (ok (get_elem? log (next - 1)), next + 1)
