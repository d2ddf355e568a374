-- ===== src/Capture/Feed.antt =====
-- The change feed, src/capture/change.rs: a bounded ring of changes and its subscriptions. The
-- mutex makes each operation one step on `ChangeState`; `none` is the panic of an exhausted epoch.
pub mod Log
pub mod Read
pub mod Delivery
use fluxcope.Common.{
  ℕ, suc, ◌+◌, ◌-◌, Bool, true, false, Option, none, some, List, [], ◌∷◌, ◌++◌, u64_max, length,
  get_elem?, drop, ltb, ◌==◌, if◌then◌else◌,
}
use fluxcope.Common.Outcome.Panic.{◌>>=◌}
use fluxcope.Common.Outcome.{Result, ok, err}

pub data CaptureChangeKind : Type 0 where
  admitted record_updated retention_eviction explicit_delete clear : CaptureChangeKind

pub record CaptureChange : Type 0 where
  pub epoch : ℕ
  pub sequence : ℕ
  pub revision : ℕ
  pub kind : CaptureChangeKind

pub data CaptureChangeError : Type 0 where
  gap : ℕ → ℕ → CaptureChangeError

abbrev pub retained_changes : ℕ
retained_changes = 4096

-- `ChangeState`, and the value last sent on the watch channel `epoch_tx`
pub record ChangeState : Type 0 where
  pub epoch : ℕ
  pub retained : List CaptureChange
  pub sent : ℕ

abbrev pub new : ChangeState
new = record { epoch = 0; retained = []; sent = 0 }

abbrev pub checked_add_one : ℕ → Option ℕ
checked_add_one n = if n == u64_max then none else some (n + 1)

-- `run_if_epoch`, the action being a step on a state of its own
unfoldable pub run_if_epoch {ℓ} : {S : Type ℓ} → ChangeState → ℕ → (S → S) → S → S × Bool
run_if_epoch state expected action s =
    if state.epoch == expected then (action s, true) else (s, false)

-- `subscribe`: the next epoch to read
unfoldable pub subscribe : ChangeState → Option ℕ
subscribe state = checked_add_one state.epoch

-- `pop_front` when the ring is full
abbrev pub make_room : List CaptureChange → List CaptureChange
make_room retained = if length retained == retained_changes then drop 1 retained else retained

unfoldable pub publish :
    ℕ → ℕ → CaptureChangeKind → ChangeState → Option (CaptureChange × ChangeState)
publish sequence revision kind state = do
  epoch ← checked_add_one state.epoch
  let change : CaptureChange = record {
    epoch = epoch;
    sequence = sequence;
    revision = revision;
    kind = kind;
  }
  some (
    change,
    record state {
      epoch = epoch;
      retained = make_room state.retained ++ change ∷ [];
      sent = epoch;
    },
  )

-- `try_read`: the result, and the subscription's next epoch
abbrev pub ReadResult : Type 0
ReadResult = Result CaptureChangeError (Option CaptureChange) × ℕ

abbrev read_from : ChangeState → ℕ → CaptureChange → Option ReadResult
read_from state next oldest =
    if ltb next oldest.epoch
    then some (err (gap next oldest.epoch), next)
    else if ltb state.epoch next
    then some (ok none, next)
    else elim (get_elem? state.retained (next - oldest.epoch)) [
      | none ↦ some (ok none, next)
      | some change ↦ do next' ← checked_add_one change.epoch; some (ok (some change), next')
    ]

unfoldable pub try_read : ChangeState → ℕ → Option ReadResult
try_read state next = elim (get_elem? state.retained 0) [
  | none ↦ some (ok none, next)
  | some oldest ↦ read_from state next oldest
]

-- `recv`, over the states that the loop finds at each wake-up: `none` of the inner option while it
-- still waits after the last of them
unfoldable pub recv : List ChangeState → ℕ → Option ReadResult
unfolding try_read
recv [] next = some (ok none, next)
recv (state ∷ states) next =
    let rest = recv states next in
    elim (try_read state next) [
      | none ↦ none
      | some (ok none, _) ↦ rest
      | some (r, next') ↦ some (r, next')
    ]
