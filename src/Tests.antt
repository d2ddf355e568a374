-- ===== src/Tests.antt =====
-- The theorems of the capture pipeline at concrete inputs.
mod Rules
mod Publishing
mod Rpc
mod Input
mod Search
mod Recording
use fluxcope.Common.{
  ◌⊎◌, ℕ, ◌+◌, ◌-◌, ◌≡◌, ◌≤◌, ◌<◌, refl, Bool, false, Option, none, some, List, [], ◌∷◌, ◌++◌,
  arith, u64_max, length, take, drop, if◌then◌else◌, ◌==◌,
}
use fluxcope.Common.Text.{text}
use fluxcope.Capture.Feed
use fluxcope.Capture.Feed.{CaptureChange, ChangeState, admitted, publish, try_read, subscribe}
use fluxcope.Capture.Feed.Log.{Tracks, entry, read_log, publish-Tracks}
use fluxcope.Capture.Feed.Read.{try_read-read_log}
use fluxcope.Capture.Feed.Delivery.{
  FeedEvent, publishes, reads, Session, run, subscribed, log_after, place_of, follow, reads_of,
  subscription_delivers,
}
use fluxcope.Capture.Budget.{MemoryBudget, body_prefix_charge, reserve_body_prefix}
use fluxcope.Capture.Budget.Charge.{IsBest, body_prefix_charge-IsBest}
use fluxcope.Capture.Budget.Linear.{Seen, at, reserve_body_prefix-linear}
use fluxcope.Capture.Budget.Reserve.{Reserves, reserve_body_prefix-Reserves}
use fluxcope.Capture.Body
use fluxcope.Capture.Body.{BodyCapture, append, seal, preview, flatten, request, response}
use fluxcope.Capture.Body.Content.{content, IsOpen, append-content}
use fluxcope.Capture.Body.Flatten.{flatten-preview, seal-content}
use fluxcope.Capture.Record
use fluxcope.Capture.Record.{CaptureRecord, RequestMetadata, MetadataTruncation}
use fluxcope.Capture.Record.Stream.{Holds}
use fluxcope.Capture.Record.Append.{IsFunded, Appended, append_body-Appended}
use fluxcope.Capture.Store
use fluxcope.Capture.Store.{CaptureStore, Shared, map_last_le, default_policy}
use fluxcope.Capture.Store.Ordered.{FindsNewest, map_last_le-FindsNewest}
use fluxcope.Capture.Store.Retention.{Room}
use fluxcope.Capture.Store.Remove.{RemovesSequences, remove_sequences-RemovesSequences}
use fluxcope.Capture.Store.Insert.{Inserted, insert-Inserted}

fresh_feed-Tracks : Tracks [] Feed.new
fresh_feed-Tracks = record { epoch_is = refl; numbered = tt; ring = refl; sent_is = refl }

abbrev metadata : RequestMetadata
metadata = record {
  method = text "GET";
  original_uri = text "http://a/";
  effective_uri = text "http://a/";
  local_path = none;
  headers = [];
}

abbrev truncation : MetadataTruncation
truncation = record { request_target = false; request_headers = false; response_headers = false }

abbrev fresh_record : CaptureRecord
fresh_record = Record.new 1 metadata truncation 10 10 0

abbrev budget : MemoryBudget
budget = record { limit = 100; used = 10 }

fresh_body-IsOpen : IsOpen Body.new
fresh_body-IsOpen = record { chain = tt; partial = omega arith; unsealed = refl }

fresh_body-Holds : Holds [] 1000 false Body.new
fresh_body-Holds = record {
  kept = refl;
  within = omega arith;
  bounded = omega arith;
  whole = λ _ _. refl;
  observed = refl;
  shape = λ _. fresh_body-IsOpen;
}

fresh-IsFunded : IsFunded fresh_record budget 1000
fresh-IsFunded = record {
  used_ok = omega arith;
  limit_ok = omega arith;
  reserved_ok = omega arith;
  retained_ok = omega arith;
  preview_ok = omega arith;
}

append_body-Appended_example :
    Appended 40 [] [] (1 ∷ 2 ∷ []) fresh_record Feed.new budget request 1000
unfolding Body.is_terminal
append_body-Appended_example =
    append_body-Appended 40 [] [] fresh_record Feed.new budget request (1 ∷ 2 ∷ []) 1000
      fresh_feed-Tracks (omega arith) fresh-IsFunded refl (λ e. absurd (omega arith))
      fresh_body-Holds

abbrev events : List FeedEvent
events = publishes 1 1 admitted ∷ reads ∷ reads ∷ []

subscription_delivers_example :
    (next : ℕ) × (s : Session) × (subscribe Feed.new ≡ some next)
    × (run (subscribed Feed.new next) events ≡ some s)
    × (s.next ≤ length (log_after [] events) + 1)
    × (s.delivered ≡ take (s.next - next) (drop 0 (log_after [] events)))
    × (place_of s ≡ follow 0 (1, none) events)
    × ((s.next ≤ length (log_after [] events) - 4096)
        ⊎ ((s' : Session) × (run s (reads_of (length (log_after [] events) + 1 - s.next)) ≡ some s')
            × (s'.delivered ≡ drop 0 (log_after [] events))))
subscription_delivers_example =
    subscription_delivers [] Feed.new events fresh_feed-Tracks (omega arith)

publish-Tracks_example :
    (state' : ChangeState) × (publish 1 1 admitted Feed.new ≡ some (entry [] 1 1 admitted, state'))
    × Tracks ([] ++ entry [] 1 1 admitted ∷ []) state'
publish-Tracks_example = publish-Tracks [] Feed.new 1 1 admitted fresh_feed-Tracks (omega arith)

try_read-read_log_example : try_read Feed.new 1 ≡ some (read_log [] 1)
try_read-read_log_example =
    try_read-read_log [] Feed.new fresh_feed-Tracks 1 (omega arith) (omega arith)

abbrev store : CaptureStore
store = Store.new default_policy

abbrev shared : Shared
shared = record { records = fresh_record ∷ []; feed = Feed.new }

insert-Inserted_example : Inserted fresh_record 0 store shared
insert-Inserted_example =
    insert-Inserted 1 0 fresh_record store shared
      (record { epochs = omega arith; allocated = refl }) tt (omega arith) refl tt

map_last_le-FindsNewest_example : FindsNewest 5 ((1, 7) ∷ (4, 8) ∷ (9, 9) ∷ []) (some 8)
unfolding map_last_le
map_last_le-FindsNewest_example =
    map_last_le-FindsNewest 5 ((1, 7) ∷ (4, 8) ∷ (9, 9) ∷ [])
      ((omega arith, (omega arith, tt)), ((omega arith, tt), (tt, tt)))

remove_sequences-RemovesSequences_example :
    RemovesSequences (1 ∷ 7 ∷ 1 ∷ []) (record store { captures = (1, 0) ∷ [] }) shared
remove_sequences-RemovesSequences_example =
    remove_sequences-RemovesSequences 1 (1 ∷ 7 ∷ 1 ∷ []) (record store { captures = (1, 0) ∷ [] })
      shared (record { epochs = omega arith; allocated = refl }) (omega arith, tt) (tt, tt)

reserve_body_prefix-Reserves_example :
    let r = reserve_body_prefix 40 budget 50 3 [] in Reserves 40 budget 50 3 r.0.0 r.0.1 r.1
reserve_body_prefix-Reserves_example =
    reserve_body_prefix-Reserves 40 budget 50 3 (omega arith) (omega arith) (omega arith)
      (omega arith)

reserve_body_prefix-linear_example :
    (v : ℕ) × Seen v budget.used (20 ∷ 30 ∷ [])
    × (reserve_body_prefix 40 budget 50 3 (20 ∷ 30 ∷ [])
        ≡ reserve_body_prefix 40 (at budget v) 50 3 [])
    × ((v ≡ 30) ⊎ ((reserve_body_prefix 40 budget 50 3 (20 ∷ 30 ∷ [])).0 ≡ (0, 0)))
reserve_body_prefix-linear_example = reserve_body_prefix-linear 40 budget 50 3 (20 ∷ 30 ∷ [])

append-content_example :
    (after : BodyCapture) × (append Body.new (1 ∷ 2 ∷ []) ≡ some after)
    × IsOpen after
    × (content after ≡ content Body.new ++ (1 ∷ 2 ∷ []))
    × (after.status ≡ Body.new.status)
append-content_example = append-content Body.new (1 ∷ 2 ∷ []) fresh_body-IsOpen

abbrev held : BodyCapture
held = record Body.new { trailing = 1 ∷ 2 ∷ [] }

held-IsOpen : IsOpen held
held-IsOpen = record { chain = tt; partial = omega arith; unsealed = refl }

flatten-preview_example : flatten (preview held) ≡ content held
flatten-preview_example = flatten-preview held

seal-content_example : (content (seal held) ≡ content held) × ((seal held).status ≡ held.status)
seal-content_example = seal-content held held-IsOpen

body_prefix_charge-IsBest_example :
    IsBest 40 50 3 90 (body_prefix_charge 40 50 3 90).0 (body_prefix_charge 40 50 3 90).1
body_prefix_charge-IsBest_example =
    body_prefix_charge-IsBest 40 50 3 90 (omega arith) (omega arith) (omega arith)
