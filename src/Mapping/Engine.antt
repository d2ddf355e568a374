-- ===== src/Mapping/Engine.antt =====
-- The mapping engine, src/mapping.rs: compiling the active preset's rules, and mapping a request.
pub mod Agree
pub mod Compile
use fluxcope.Common.{
  ℕ, suc, Option, none, some, Bool, true, false, ◌&&◌, not, List, [], ◌∷◌, ◌++◌, if◌then◌else◌,
}
use fluxcope.Common.Text.{Text, trim}
use fluxcope.Common.Outcome.{Result, ok, err}
use fluxcope.Settings.{ProxySettings, ProxyPresetSettings, ProxyMapRemoteRule, ProxyMapLocalRule}
use fluxcope.Mapping.Url.{
  UrlLibrary, MappingValueError, RulePattern, RemoteTarget, Checked, parse_rule_url,
  parse_remote_target, expand_home_path, apply_to, RequestUrl, request_from_url, request_from_uri,
}
use fluxcope.Mapping.Diagnostics.{
  MappingDiagnostic, MappingRuleLocation, MappingTable, MappingField, MappingDiagnosticCode, remote,
  local, from_field, to_field, warning, invalid_rule_source, invalid_rule_target, skipped,
  rule_diagnostic, active_preset,
}
use fluxcope.Mapping.Rules.{CompiledRules, insert, is_empty, match_target}

-- `LocatedTarget`
pub record LocatedTarget (T : Type 0) : Type 0 where
  pub target : T
  pub location : MappingRuleLocation

-- one entry of a rule table, as either compiling loop reads it
pub record RuleValues : Type 0 where
  pub from : Text
  pub to : Text
  pub enable : Bool

abbrev pub remote_values : List ProxyMapRemoteRule → List RuleValues
remote_values [] = []
remote_values (rule ∷ rules) =
    record { from = rule.from; to = rule.to; enable = rule.enable } ∷ remote_values rules

abbrev pub local_values : List ProxyMapLocalRule → List RuleValues
local_values [] = []
local_values (rule ∷ rules) =
    record { from = rule.from; to = rule.to; enable = rule.enable } ∷ local_values rules

abbrev pub option_map {ℓ} : {A B : Type ℓ} → (A → B) → Option A → Option B
option_map f none = none
option_map f (some a) = some (f a)

module _ (lib : UrlLibrary) (home : Option Text) where
  open lib use {Url, ParseError, Uri}

  pub record Table (T : Type 0) : Type 0 where
    pub rules : CompiledRules (LocatedTarget T)
    pub diagnostics : List (MappingDiagnostic ParseError)

  abbrev diagnose :
      {T : Type 0}
      → MappingTable
      → ℕ
      → ℕ
      → MappingDiagnosticCode
      → MappingField
      → MappingValueError ParseError
      → Table T
      → Table T
  diagnose table preset_index index code field e done = record done {
    diagnostics =
        done.diagnostics
        ++ rule_diagnostic warning code preset_index table index field (skipped table index field e)
          ∷ [];
  }

  -- one turn of the loop of `compile_remote_rules` and of `compile_local_rules`, which differ in the
  -- table's name and in how the target is parsed
  unfoldable pub compile_rule :
      {T : Type 0} → MappingTable → (Text → Checked lib T) → ℕ → ℕ → RuleValues → Table T → Table T
  unfolding insert parse_rule_url
  compile_rule table parse preset_index index rule done =
      if not rule.enable then done else elim (parse_rule_url lib rule.from) [
        | err e ↦ diagnose table preset_index index invalid_rule_source from_field e done
        | ok pattern_ ↦ elim (parse rule.to) [
          | err e ↦ diagnose table preset_index index invalid_rule_target to_field e done
          | ok target ↦ record done {
            rules =
                insert pattern_
                  (record {
                    target = target;
                    location = record {
                      preset_index = preset_index;
                      table = table;
                      rule_index = index;
                    };
                  })
                  done.rules;
          }
        ]
      ]

  -- the loop, from a rule's index on
  unfoldable pub compile_rules :
      {T : Type 0}
      → MappingTable
      → (Text → Checked lib T)
      → ℕ
      → ℕ
      → List RuleValues
      → Table T
      → Table T
  unfolding compile_rule
  compile_rules table parse preset_index index [] done = done
  compile_rules table parse preset_index index (rule ∷ rules) done =
      compile_rules table parse preset_index (suc index) rules
        (compile_rule table parse preset_index index rule done)

  pub record MappingEngine : Type 0 where
    pub remote_rules : CompiledRules (LocatedTarget RemoteTarget)
    pub local_rules : CompiledRules (LocatedTarget Text)
    pub diagnostics : List (MappingDiagnostic ParseError)

  abbrev pub default_engine : MappingEngine
  default_engine = record { remote_rules = []; local_rules = []; diagnostics = [] }

  abbrev pub parse_local : Text → Checked lib Text
  parse_local to = expand_home_path lib home (trim to)

  unfoldable pub compile_remote_rules : ℕ → List ProxyMapRemoteRule → MappingEngine → MappingEngine
  unfolding compile_rules
  compile_remote_rules preset_index rules engine =
      let done =
        compile_rules remote (parse_remote_target lib) preset_index 0 (remote_values rules)
          (record { rules = engine.remote_rules; diagnostics = engine.diagnostics }) in
      record engine { remote_rules = done.rules; diagnostics = done.diagnostics }

  unfoldable pub compile_local_rules : ℕ → List ProxyMapLocalRule → MappingEngine → MappingEngine
  unfolding compile_rules
  compile_local_rules preset_index rules engine =
      let done =
        compile_rules local parse_local preset_index 0 (local_values rules)
          (record { rules = engine.local_rules; diagnostics = engine.diagnostics }) in
      record engine { local_rules = done.rules; diagnostics = done.diagnostics }

  unfoldable pub compile_preset : ℕ → ProxyPresetSettings → MappingEngine → MappingEngine
  unfolding compile_remote_rules compile_local_rules
  compile_preset preset_index preset engine =
      let first =
        if preset.map_remote.enable
        then compile_remote_rules preset_index preset.map_remote.rules engine
        else engine in
      if preset.map_local.enable
      then compile_local_rules preset_index preset.map_local.rules first
      else first

  -- `compile` after `active_preset`, whose diagnostics are in the engine
  abbrev pub compile_active :
      List (MappingDiagnostic ParseError) × Option (ℕ × ProxyPresetSettings) → MappingEngine
  compile_active (found, none) = record default_engine { diagnostics = found }
  compile_active (found, some (preset_index, preset)) =
      compile_preset preset_index preset (record default_engine { diagnostics = found })

  unfoldable pub compile : Option ProxySettings → MappingEngine
  unfolding compile_preset active_preset
  compile none = default_engine
  compile (some proxy) =
      if not proxy.enable then default_engine else compile_active (active_preset proxy)

  pub record MappingDecision : Type 0 where
    pub mapped_uri : Option Uri
    pub local_path : Option Text

  pub record MappingTrace : Type 0 where
    pub local_path : Option Text
    pub effective_uri : Option Uri
    pub remote_match : Option MappingRuleLocation
    pub local_match : Option MappingRuleLocation

  abbrev pub match_request : {T : Type 0} → CompiledRules T → RequestUrl lib → Option T
  match_request rules request = match_target rules request.origin request.path

  -- the local rule that matches the request or, when a remote rule has mapped it, the mapped URL
  unfoldable pub local_match_of :
      MappingEngine → RequestUrl lib → Option Url → Option (LocatedTarget Text)
  unfolding request_from_url match_target
  local_match_of engine original remote_url =
      if is_empty engine.local_rules then none else elim remote_url [
        | none ↦ match_request engine.local_rules original
        | some mapped ↦ elim (request_from_url lib mapped) [
          | none ↦ none
          | some request ↦ match_request engine.local_rules request
        ]
      ]

  -- the URL that a matched remote rule makes of the request
  abbrev pub remote_url_of : Option (LocatedTarget RemoteTarget) → RequestUrl lib → Option Url
  remote_url_of remote_match original =
      option_map (λ matched. apply_to lib matched.target original.request_url) remote_match

  -- the default decision, and that for a request whose URL is read
  abbrev pub unmapped : MappingDecision
  unmapped = record { mapped_uri = none; local_path = none }

  abbrev pub decision_of :
      Option (LocatedTarget RemoteTarget)
      → Option (LocatedTarget Text)
      → RequestUrl lib
      → MappingDecision
  decision_of remote_match matched original = record {
    mapped_uri = elim (remote_url_of remote_match original) [
      | none ↦ none
      | some u ↦ lib.parse_uri (lib.as_str u)
    ];
    local_path = option_map (λ m. m.target) matched;
  }

  unfoldable pub map_request : MappingEngine → Uri → MappingDecision
  unfolding local_match_of request_from_uri apply_to match_target
  map_request engine uri =
      if is_empty engine.remote_rules && is_empty engine.local_rules
      then unmapped
      else elim (request_from_uri lib uri) [
        | none ↦ unmapped
        | some original ↦
            let remote_match = match_request engine.remote_rules original in
            decision_of remote_match
              (local_match_of engine original (remote_url_of remote_match original)) original
      ]

  abbrev pub untraced : MappingTrace
  untraced = record {
    local_path = none;
    effective_uri = none;
    remote_match = none;
    local_match = none;
  }

  abbrev pub trace_of :
      Option (LocatedTarget RemoteTarget)
      → Option (LocatedTarget Text)
      → RequestUrl lib
      → MappingTrace
  trace_of remote_match matched original = record {
    local_path = option_map (λ m. m.target) matched;
    effective_uri = lib.parse_uri (
        lib.as_str (elim (remote_url_of remote_match original) [
          | none ↦ original.request_url
          | some u ↦ u
        ]));
    remote_match = option_map (λ m. m.location) remote_match;
    local_match = option_map (λ m. m.location) matched;
  }

  unfoldable pub trace_request : MappingEngine → Uri → MappingTrace
  unfolding local_match_of request_from_uri apply_to match_target
  trace_request engine uri = elim (request_from_uri lib uri) [
    | none ↦ untraced
    | some original ↦
        let remote_match = match_request engine.remote_rules original in
        trace_of remote_match (local_match_of engine original (remote_url_of remote_match original))
          original
  ]
