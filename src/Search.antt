-- ===== src/Search.antt =====
-- The search service, src/request_search/mod.rs and src/request_search/service.rs: one task that runs
-- the latest request on a worker and cancels it when a newer one comes. Each event is one step; a watch
-- channel of tokio is the value last sent and whether its receiver has seen it. The client outlives the
-- service. A tree of requests and the results of a search are parameters.
pub mod Answers
pub mod Runs
use fluxcope.Common.{ℕ, Bool, true, false, Option, none, some, List, [], ◌∷◌}
use fluxcope.Common.Text.{Text}
use fluxcope.Common.Outcome.Panic.{◌>>=◌}

pub record SearchRequestKey : Type 0 where
  pub generation : ℕ
  pub tree_revision : ℕ

module _ (Tree Results : Type 0) where
  pub record SearchRequest : Type 0 where
    pub key : SearchRequestKey
    pub query : Text
    pub tree : Tree

  pub data SearchJobOutcome : Type 0 where
    completed : SearchRequestKey → Results → SearchJobOutcome
    cancelled : SearchRequestKey → SearchJobOutcome
    failed : SearchRequestKey → Text → SearchJobOutcome

  abbrev pub outcome_key : SearchJobOutcome → SearchRequestKey
  outcome_key (completed key _) = key
  outcome_key (cancelled key) = key
  outcome_key (failed key _) = key

  -- how a worker ended: its search, or the error of joining it
  pub data WorkerEnd : Type 0 where
    searched : Results → WorkerEnd
    gave_up : WorkerEnd
    panicked : Text → WorkerEnd

  -- `RequestSearchDispatch`, as it stands in the channel of requests
  pub record Requests : Type 0 where
    pub latest : Option SearchRequest
    pub unseen : Bool

  -- where the task stands: in the outer `select!`, or in the inner one, with the cancellation flag of
  -- the worker
  pub data Phase : Type 0 where
    waiting : Phase
    running : SearchRequest → Bool → Phase
    stopped : Phase

  pub record SearchService : Type 0 where
    pub requests : Requests
    pub results : Option SearchJobOutcome
    pub pending : Option SearchRequest
    pub phase : Phase

  abbrev pub start_request_search_service : SearchService
  start_request_search_service = record {
    requests = record { latest = none; unseen = false };
    results = none;
    pending = none;
    phase = waiting;
  }

  abbrev pub send_replace : SearchService → Option SearchRequest → SearchService
  send_replace s value = record s { requests = record { latest = value; unseen = true } }

  unfoldable pub submit : SearchService → SearchRequest → SearchService
  submit s request = send_replace s (some request)

  unfoldable pub cancel : SearchService → SearchService
  cancel s = send_replace s none

  -- `borrow_and_update`
  abbrev pub seen : SearchService → SearchService
  seen s = record s { requests = record { latest = s.requests.latest; unseen = false } }

  abbrev pub run_or_wait : Option SearchRequest → Phase
  run_or_wait none = waiting
  run_or_wait (some request) = running request false

  -- the outer `requests.changed()`
  unfoldable pub wake : SearchService → SearchService
  wake s = record (seen s) { results = none; phase = run_or_wait s.requests.latest }

  -- the inner `requests.changed()`
  unfoldable pub supersede : SearchService → SearchRequest → SearchService
  supersede s request = record (seen s) {
    results = none;
    pending = s.requests.latest;
    phase = running request true;
  }

  -- the top of the loop: a pending request gives way to a newer one, and is taken
  abbrev pub take_pending : SearchService → SearchService
  take_pending s = elim (s.pending) [
    | none ↦ record s { phase = waiting }
    | some request ↦ elim (s.requests.unseen) [
      | true ↦ record (seen s) { pending = none; phase = run_or_wait s.requests.latest }
      | false ↦ record s { pending = none; phase = running request false }
    ]
  ]

  abbrev pub outcome_of : SearchRequestKey → WorkerEnd → SearchJobOutcome
  outcome_of key (searched results) = completed key results
  outcome_of key gave_up = cancelled key
  outcome_of key (panicked message) = failed key message

  -- the worker is joined
  unfoldable pub join : SearchService → SearchRequest → WorkerEnd → SearchService
  join s request ended = take_pending (record s { results = some (outcome_of request.key ended) })

  pub data ServiceEvent : Type 0 where
    notices_change : ServiceEvent
    joins_worker : WorkerEnd → ServiceEvent
    shuts_down : ServiceEvent

  -- the task's reaction to an event in a phase; `none` where the event cannot happen there
  unfoldable pub react : SearchService → Phase → ServiceEvent → Option SearchService
  unfolding wake supersede join
  react s waiting notices_change = elim (s.requests.unseen) [ true ↦ some (wake s) | false ↦ none ]
  react s (running request _) notices_change = elim (s.requests.unseen) [
    | true ↦ some (supersede s request)
    | false ↦ none
  ]
  react s (running request _) (joins_worker ended) = some (join s request ended)
  react s waiting shuts_down = some (record s { phase = stopped })
  react s (running _ _) shuts_down = some (record s { phase = stopped })
  react s _ _ = none

  unfoldable pub step : SearchService → ServiceEvent → Option SearchService
  unfolding react
  step s event = react s s.phase event

  -- the task's events, one after the other
  unfoldable pub steps : SearchService → List ServiceEvent → Option SearchService
  unfolding step
  steps s [] = some s
  steps s (event ∷ events) = do s' ← step s event; steps s' events
