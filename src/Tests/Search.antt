-- ===== src/Tests/Search.antt =====
-- The theorem of the search service at a concrete input.
use fluxcope.Common.{ℕ, ◌≡◌, ◌≤◌, refl, true, false, none, some, List, [], ◌∷◌, length}
use fluxcope.Search.{
  SearchRequest, SearchService, ServiceEvent, gave_up, searched, completed, waiting, running,
  notices_change, joins_worker, start_request_search_service, submit, step, steps, react, wake,
  supersede, join,
}
use fluxcope.Search.Runs.{Action, submits, meets, act, acts, Stands, steps-Stands}

-- requests over trees and results that are numbers
abbrev request : ℕ → SearchRequest ℕ ℕ
request n = record { key = record { generation = n; tree_revision = 0 }; query = []; tree = n }

-- the first request runs, and a newer one comes
abbrev actions : List (Action ℕ ℕ)
actions = submits (request 1) ∷ meets notices_change ∷ submits (request 2) ∷ []

abbrev superseded : SearchService ℕ ℕ
superseded = record {
  requests = record { latest = some (request 2); unseen = true };
  results = none;
  pending = none;
  phase = running (request 1) false;
}

-- the first worker is cancelled, and the second one finds
abbrev events : List (ServiceEvent ℕ ℕ)
events = notices_change ∷ joins_worker gave_up ∷ joins_worker (searched 5) ∷ []

abbrev answered : SearchService ℕ ℕ
answered = record {
  requests = record { latest = some (request 2); unseen = false };
  results = some (completed (request 2).key 5);
  pending = none;
  phase = waiting;
}

superseded_reached : acts ℕ ℕ (start_request_search_service ℕ ℕ) actions ≡ some superseded
unfolding acts act submit step react wake
superseded_reached = refl

answered_reached : steps ℕ ℕ superseded events ≡ some answered
unfolding steps step react supersede join
answered_reached = refl

steps-Stands_example : (length events ≤ 4) × Stands ℕ ℕ answered waiting false gave_up
steps-Stands_example =
    steps-Stands ℕ ℕ actions events superseded answered gave_up superseded_reached answered_reached
