-- ===== src/Search/Runs.antt =====
-- Runs of the search service and its client, src/request_search/service.rs: the client's calls and the
-- task's events in any order.
use fluxcope.Common.{
  ◌+◌, ◌≤◌, ◌≡◌, ◌≢◌, refl, ap, Bool, true, false, Option, none, some, List, [], ◌∷◌, arith, length,
  subst,
}
use fluxcope.Common.Outcome.Panic.{◌>>=◌, bind-some}
use fluxcope.Search.{
  wake, SearchRequest, WorkerEnd, Phase, waiting, running, stopped, start_request_search_service,
  submit, cancel, ServiceEvent, notices_change, joins_worker, react, step, steps,
}
use fluxcope.Search.Answers.{
  Service, Answers, Serves, IsServing, start-IsServing, send-IsServing, weight, weight_in, Advances,
  react-Advances,
}

module _ (Tree Results : Type 0) where
  -- a call of the client, or an event of the task
  pub data Action : Type 0 where
    submits : SearchRequest Tree Results → Action
    cancels : Action
    meets : ServiceEvent Tree Results → Action

  unfoldable pub act : Service Tree Results → Action → Option (Service Tree Results)
  unfolding submit cancel step
  act s (submits request) = some (submit Tree Results s request)
  act s cancels = some (cancel Tree Results s)
  act s (meets event) = step Tree Results s event

  unfoldable pub acts : Service Tree Results → List Action → Option (Service Tree Results)
  unfolding act
  acts s [] = some s
  acts s (action ∷ actions) = do s' ← act s action; acts s' actions

  step-Advances :
      (s : Service Tree Results) (event : ServiceEvent Tree Results)
      → IsServing Tree Results s
      → Advances Tree Results (weight Tree Results s) (step Tree Results s event)
  unfolding step
  step-Advances s event i = react-Advances Tree Results s s.phase event i.serves i.pends

  act-IsServing :
      (s : Service Tree Results) (action : Action) (s' : Service Tree Results)
      → act s action ≡ some s'
      → IsServing Tree Results s
      → IsServing Tree Results s'
  unfolding act
  act-IsServing s (submits request) s' e i =
      subst (IsServing Tree Results) (unfold submit in cc (e))
        (send-IsServing Tree Results s (some request) i)
  act-IsServing s cancels s' e i =
      subst (IsServing Tree Results) (unfold cancel in cc (e))
        (send-IsServing Tree Results s none i)
  act-IsServing s (meets event) s' e i =
      (subst (Advances Tree Results (weight Tree Results s)) e (step-Advances s event i)).0

  acts-IsServing :
      (s : Service Tree Results) (actions : List Action) (s' : Service Tree Results)
      → acts s actions ≡ some s'
      → IsServing Tree Results s
      → IsServing Tree Results s'
  unfolding acts
  acts-IsServing s [] s' e i = subst (IsServing Tree Results) (cc (e)) i
  acts-IsServing s (action ∷ actions) s' e i =
      let (t, f, g) = bind-some (act s action) (λ s. acts s actions) s' e in
      acts-IsServing t actions s' g (act-IsServing s action t f i)

  steps-Advances :
      (s : Service Tree Results) (events : List (ServiceEvent Tree Results))
      (s' : Service Tree Results)
      → steps Tree Results s events ≡ some s'
      → IsServing Tree Results s
      → IsServing Tree Results s' × (length events + weight Tree Results s' ≤ weight Tree Results s)
  unfolding steps
  steps-Advances s [] s' e i =
      subst (λ t. IsServing Tree Results t × (0 + weight Tree Results t ≤ weight Tree Results s))
        (cc (e)) (i, omega arith)
  steps-Advances s (event ∷ events) s' e i =
      let (t, f, g) =
        bind-some (step Tree Results s event) (λ s. steps Tree Results s events) s' e in
      let (j, less) =
        subst (Advances Tree Results (weight Tree Results s)) f (step-Advances s event i) in
      let (l, rest) = steps-Advances t events s' g j in (l, omega (arith, less, rest))

  -- the client's last request, with no result or another's, keeps the task from resting
  abbrev pub Stands :
      Service Tree Results → Phase Tree Results → Bool → WorkerEnd Tree Results → Type 0
  Stands s waiting false ended = Answers Tree Results s.requests.latest s.results
  Stands s waiting true ended = step Tree Results s notices_change ≢ none
  Stands s (running request flag) unseen ended = step Tree Results s (joins_worker ended) ≢ none
  Stands s stopped unseen ended = Unit {0}

  Stands-IsServing :
      (s : Service Tree Results) (ended : WorkerEnd Tree Results)
      → IsServing Tree Results s
      → Stands s s.phase s.requests.unseen ended
  unfolding step react
  Stands-IsServing s ended i = on s.phase s.requests.unseen refl refl i.serves
    where
      on :
          (phase : Phase Tree Results) (unseen : Bool)
          → s.phase ≡ phase
          → s.requests.unseen ≡ unseen
          → (unseen ≡ false → Serves Tree Results s phase)
          → Stands s phase unseen ended
      on waiting false p u h = (h refl).1
      on waiting true p u h = λ n. absurd (
          cc (
            n,
            ap (λ p. react Tree Results s p notices_change) p,
            ap {B = Option (Service Tree Results)}
                (λ u. elim u [ true ↦ some (wake Tree Results s) | false ↦ none ]) u,
          ))
      on (running request flag) unseen p u h =
          λ n. absurd (cc (n, ap (λ p. react Tree Results s p (joins_worker ended)) p))
      on stopped unseen p u h = tt

  weight_in-bound :
      (phase : Phase Tree Results) (unseen : Bool) (pending : Option (SearchRequest Tree Results))
      → weight_in Tree Results phase unseen pending ≤ 4
  weight_in-bound waiting false pending = omega arith
  weight_in-bound waiting true pending = omega arith
  weight_in-bound (running request flag) true pending = omega arith
  weight_in-bound (running request flag) false (some r) = omega arith
  weight_in-bound (running request flag) false none = omega arith
  weight_in-bound stopped unseen pending = omega arith

  -- After any calls of the client and events of the task, at most four events of the task follow before
  -- the client's next call. Wherever the task stands after some of these: waiting with the channel seen,
  -- its result has the key of the latest request if there is one; waiting with a value unseen, it can
  -- take that; and running, it can join its worker, however that ends. So, when each worker ends, the
  -- latest request is answered after at most four events, unless the service is shut down.
  pub steps-Stands :
      (actions : List Action) (events : List (ServiceEvent Tree Results))
      → (s s' : Service Tree Results) (ended : WorkerEnd Tree Results)
      → acts (start_request_search_service Tree Results) actions ≡ some s
      → steps Tree Results s events ≡ some s'
      → (length events ≤ 4) × Stands s' s'.phase s'.requests.unseen ended
  steps-Stands actions events s s' ended a b =
      let i =
        acts-IsServing (start_request_search_service Tree Results) actions s a
          (start-IsServing Tree Results) in
      let (j, l) = steps-Advances s events s' b i in
      (
        omega (arith, l, weight_in-bound s.phase s.requests.unseen s.pending),
        Stands-IsServing s' ended j,
      )
