-- ===== src/Search/Answers.antt =====
-- What the search service answers, src/request_search/service.rs.
use fluxcope.Common.{
  ℕ, ◌<◌, ◌≡◌, ◌≢◌, refl, sym, ◌⊎◌, inl, inr, Bool, true, false, Option, none, some, arith,
}
use fluxcope.Search.{
  SearchRequestKey, SearchRequest, SearchJobOutcome, outcome_key, WorkerEnd, searched, gave_up,
  panicked, Phase, waiting, running, stopped, SearchService, start_request_search_service,
  ServiceEvent, notices_change, joins_worker, shuts_down, wake, supersede, join, take_pending,
  outcome_of, run_or_wait, react,
}

module _ (Tree Results : Type 0) where
  abbrev pub Service : Type 0
  Service = SearchService Tree Results

  -- a result for the request
  abbrev pub Answers :
      Option (SearchRequest Tree Results) → Option (SearchJobOutcome Tree Results) → Type 0
  Answers none results = Unit {0}
  Answers (some request) none = ⊥
  Answers (some request) (some outcome) = outcome_key Tree Results outcome ≡ request.key

  -- what the task will still run, in a phase, when it has seen the latest request
  abbrev pub Serves : Service → Phase Tree Results → Type 0
  Serves s waiting = (s.pending ≡ none) × Answers s.requests.latest s.results
  Serves s (running request flag) =
      (s.pending ≡ s.requests.latest) ⊎ ((s.pending ≡ none) × (s.requests.latest ≡ some request))
  Serves s stopped = Unit {0}

  -- With a request unseen, nothing is claimed but that a waiting task has none pending.
  abbrev pub Pends : Service → Phase Tree Results → Type 0
  Pends s waiting = s.pending ≡ none
  Pends s _ = Unit {0}

  pub record IsServing (s : Service) : Type 0 where
    pub serves : s.requests.unseen ≡ false → Serves s s.phase
    pub pends : Pends s s.phase

  pub start-IsServing : IsServing (start_request_search_service Tree Results)
  start-IsServing = record { serves = λ _. (refl, tt); pends = refl }

  -- the client's calls
  pub send-IsServing :
      (s : Service) (value : Option (SearchRequest Tree Results))
      → IsServing s
      → IsServing (record s { requests = record { latest = value; unseen = true } })
  send-IsServing s value i = record { serves = λ u. absurd (cc (u)); pends = i.pends }

  outcome_of-key :
      (key : SearchRequestKey) (ended : WorkerEnd Tree Results)
      → outcome_key Tree Results (outcome_of Tree Results key ended) ≡ key
  outcome_of-key key (searched results) = refl
  outcome_of-key key gave_up = refl
  outcome_of-key key (panicked message) = refl

  wake-IsServing : (s : Service) → s.pending ≡ none → IsServing (wake Tree Results s)
  unfolding wake
  wake-IsServing s p = on s.requests.latest
    where
      on :
          (latest : Option (SearchRequest Tree Results))
          → IsServing (record {
            requests = record { latest = latest; unseen = false };
            results = none;
            pending = s.pending;
            phase = run_or_wait Tree Results latest;
          })
      on none = record { serves = λ _. (p, tt); pends = p }
      on (some request) = record { serves = λ _. inr (p, refl); pends = tt }

  supersede-IsServing :
      (s : Service) (request : SearchRequest Tree Results)
      → IsServing (supersede Tree Results s request)
  unfolding supersede
  supersede-IsServing s request = record { serves = λ _. inl refl; pends = tt }

  take_pending-IsServing :
      (request : SearchRequest Tree Results) (outcome : SearchJobOutcome Tree Results)
      → outcome_key Tree Results outcome ≡ request.key
      → (pending latest : Option (SearchRequest Tree Results)) (unseen : Bool)
        (phase : Phase Tree Results)
      → (unseen ≡ false → (pending ≡ latest) ⊎ ((pending ≡ none) × (latest ≡ some request)))
      → IsServing (
          take_pending Tree Results (record {
            requests = record { latest = latest; unseen = unseen };
            results = some outcome;
            pending = pending;
            phase = phase;
          }))
  take_pending-IsServing request outcome k none none unseen phase h = record {
    serves = λ _. (refl, tt);
    pends = refl;
  }
  take_pending-IsServing request outcome k none (some r) unseen phase h = record {
    serves = λ u. (refl, elim (h u) [ inl e ↦ absurd (cc (e)) | inr e ↦ cc (k, e.1) ]);
    pends = refl;
  }
  take_pending-IsServing request outcome k (some r) none true phase h = record {
    serves = λ _. (refl, tt);
    pends = refl;
  }
  take_pending-IsServing request outcome k (some r) (some newer) true phase h = record {
    serves = λ _. inr (refl, refl);
    pends = tt;
  }
  take_pending-IsServing request outcome k (some r) latest false phase h = record {
    serves = λ u. elim (h u) [ inl e ↦ inr (refl, sym e) | inr e ↦ absurd (cc (e.0)) ];
    pends = tt;
  }

  join-IsServing :
      (s : Service) (request : SearchRequest Tree Results) (flag : Bool)
      (ended : WorkerEnd Tree Results)
      → (s.requests.unseen ≡ false → Serves s (running request flag))
      → IsServing (join Tree Results s request ended)
  unfolding join
  join-IsServing s request flag ended h =
      take_pending-IsServing request (outcome_of Tree Results request.key ended)
        (outcome_of-key request.key ended) s.pending s.requests.latest s.requests.unseen s.phase h

  -- the events the task can still react to, at most
  abbrev pub weight_in : Phase Tree Results → Bool → Option (SearchRequest Tree Results) → ℕ
  weight_in waiting false pending = 1
  weight_in waiting true pending = 3
  weight_in (running request flag) true pending = 4
  weight_in (running request flag) false (some r) = 3
  weight_in (running request flag) false none = 2
  weight_in stopped unseen pending = 0

  abbrev pub weight : Service → ℕ
  weight s = weight_in s.phase s.requests.unseen s.pending

  -- One event keeps the service serving and leaves fewer events.
  abbrev pub Advances : ℕ → Option Service → Type 0
  Advances n none = Unit {0}
  Advances n (some s) = IsServing s × (weight s < n)

  wake-Advances : (s : Service) → s.pending ≡ none → Advances 3 (some (wake Tree Results s))
  unfolding wake
  wake-Advances s p = (wake-IsServing s p, on s.requests.latest s.pending p)
    where
      on :
          (latest pending : Option (SearchRequest Tree Results))
          → pending ≡ none
          → weight_in (run_or_wait Tree Results latest) false pending < 3
      on none pending e = omega arith
      on (some request) none e = omega arith
      on (some request) (some r) e = absurd (cc (e))

  positive :
      (phase : Phase Tree Results) (unseen : Bool) (pending : Option (SearchRequest Tree Results))
      → (phase ≢ stopped)
      → 0 < weight_in phase unseen pending
  positive waiting false pending _ = omega arith
  positive waiting true pending _ = omega arith
  positive (running request flag) true pending _ = omega arith
  positive (running request flag) false (some r) _ = omega arith
  positive (running request flag) false none _ = omega arith
  positive stopped unseen pending n = absurd (n refl)

  join-weight :
      (request : SearchRequest Tree Results) (flag : Bool)
      (results : Option (SearchJobOutcome Tree Results))
      → (pending latest : Option (SearchRequest Tree Results)) (unseen : Bool)
        (phase : Phase Tree Results)
      → weight (
          take_pending Tree Results (record {
            requests = record { latest = latest; unseen = unseen };
            results = results;
            pending = pending;
            phase = phase;
          }))
        < weight_in (running request flag) unseen pending
  join-weight request flag results none latest false phase = omega arith
  join-weight request flag results none latest true phase = omega arith
  join-weight request flag results (some r) none true phase = omega arith
  join-weight request flag results (some r) (some newer) true phase = omega arith
  join-weight request flag results (some r) latest false phase = omega arith

  supersede-weight :
      (request : SearchRequest Tree Results) (flag : Bool)
      (latest : Option (SearchRequest Tree Results))
      → weight_in (running request flag) false latest < 4
  supersede-weight request flag none = omega arith
  supersede-weight request flag (some r) = omega arith

  pub react-Advances :
      (s : Service) (phase : Phase Tree Results) (event : ServiceEvent Tree Results)
      → (s.requests.unseen ≡ false → Serves s phase)
      → Pends s phase
      → Advances (weight_in phase s.requests.unseen s.pending) (react Tree Results s phase event)
  unfolding react
  react-Advances s waiting notices_change h p = on s.requests.unseen
    where
      on :
          (unseen : Bool)
          → Advances
              (weight_in waiting unseen s.pending)
              (elim unseen [ true ↦ some (wake Tree Results s) | false ↦ none ])
      on true = wake-Advances s p
      on false = tt
  react-Advances s (running request flag) notices_change h p = on s.requests.unseen
    where
      on :
          (unseen : Bool)
          → Advances
              (weight_in (running request flag) unseen s.pending)
              (elim unseen [ true ↦ some (supersede Tree Results s request) | false ↦ none ])
      on true = (
        supersede-IsServing s request,
        unfold supersede in supersede-weight request true s.requests.latest,
      )
      on false = tt
  react-Advances s (running request flag) (joins_worker ended) h p = (
    join-IsServing s request flag ended h,
    unfold join in
        join-weight request flag (some (outcome_of Tree Results request.key ended)) s.pending
          s.requests.latest s.requests.unseen s.phase,
  )
  react-Advances s waiting shuts_down h p = (
    record { serves = λ _. tt; pends = tt },
    positive waiting s.requests.unseen s.pending (λ e. absurd (cc (e))),
  )
  react-Advances s (running request flag) shuts_down h p = (
    record { serves = λ _. tt; pends = tt },
    positive (running request flag) s.requests.unseen s.pending (λ e. absurd (cc (e))),
  )
  react-Advances s waiting (joins_worker ended) h p = tt
  react-Advances s stopped event h p = tt
