-- ===== src/Mapping/Engine/Agree.antt =====
-- `map_request`, which the proxy calls, against `trace_request`, which explains it, src/mapping.rs.
use fluxcope.Common.{
  ◌≡◌, refl, Option, none, some, true, [], ◌∷◌, Bool-cases, Option-cases, inl, inr, arith, ◌&&◌,
}
use fluxcope.Common.Text.{Text}
use fluxcope.Mapping.Url.{UrlLibrary, request_from_uri, RequestUrl, RemoteTarget}
use fluxcope.Mapping.Rules.{is_empty, match_target, origin_get, CompiledRules}
use fluxcope.Mapping.Engine.{
  MappingEngine, MappingDecision, MappingTrace, map_request, trace_request, local_match_of,
  match_request, decision_of, trace_of, unmapped, untraced, LocatedTarget,
}

module _ (lib : UrlLibrary) (home : Option Text) where
  open lib use {Uri}

  -- a decision against a trace of the same request
  pub record Agrees (decision : MappingDecision lib home) (trace : MappingTrace lib home)
      : Type 0 where
    pub same_path : decision.local_path ≡ trace.local_path
    pub unmapped : trace.remote_match ≡ none → decision.mapped_uri ≡ none
    pub mapped :
        (location : _)
        → trace.remote_match ≡ some location
        → decision.mapped_uri ≡ trace.effective_uri
    pub located : trace.local_match ≡ none → decision.local_path ≡ none
    pub placed :
        (location : _)
        → trace.local_match ≡ some location
        → (p : Text) × (decision.local_path ≡ some p)

  match_request_empty :
      {T : Type 0} (rules : CompiledRules T) (request : RequestUrl lib)
      → is_empty rules ≡ true
      → match_request lib home rules request ≡ none
  unfolding match_target origin_get
  match_request_empty [] request h = refl
  match_request_empty (_ ∷ _) request h = cc

  decision_of-trace_of :
      (remote_match : Option (LocatedTarget RemoteTarget)) (matched : Option (LocatedTarget Text))
      (original : RequestUrl lib)
      → Agrees
          (decision_of lib home remote_match matched original)
          (trace_of lib home remote_match matched original)
  decision_of-trace_of none none original = ground arith
  decision_of-trace_of none (some m) original = ground arith
  decision_of-trace_of (some r) none original = ground arith
  decision_of-trace_of (some r) (some m) original = ground arith

  unmapped-untraced : Agrees (unmapped lib home) (untraced lib home)
  unmapped-untraced = ground arith

  -- engines with no rules
  local_match_of_empty :
      (engine : MappingEngine lib home) (original : RequestUrl lib) (u : Option lib.Url)
      → is_empty engine.local_rules ≡ true
      → local_match_of lib home engine original u ≡ none
  unfolding local_match_of
  local_match_of_empty engine original u h = rw h

  -- For every engine and request, the decision and the trace name the same local path; the decision
  -- has no mapped URI when the trace reports no remote rule, and the trace's effective URI when it
  -- reports one; and the decision has a local path just when the trace reports a local rule.
  pub map_request-trace_request :
      (engine : MappingEngine lib home) (uri : Uri)
      → Agrees (map_request lib home engine uri) (trace_request lib home engine uri)
  unfolding map_request trace_request local_match_of
  map_request-trace_request engine uri = elim (Option-cases (request_from_uri lib uri)) [
    | inl e ↦ elim (Bool-cases (is_empty engine.remote_rules && is_empty engine.local_rules)) [
      | inl h ↦ rw (map_request, trace_request, h, e) unmapped-untraced
      | inr h ↦ rw (map_request, trace_request, h, e) unmapped-untraced
    ]
    | inr (original, e) ↦
        elim (Bool-cases (is_empty engine.remote_rules && is_empty engine.local_rules)) [
          | inl h ↦
              let r = match_request_empty engine.remote_rules original (ground arith) in
              rw
                (
                  map_request,
                  trace_request,
                  h,
                  e,
                  r,
                  local_match_of_empty engine original none (ground arith),
                )
                (decision_of-trace_of none none original)
          | inr h ↦ rw (map_request, trace_request, h, e) (decision_of-trace_of _ _ original)
        ]
  ]
