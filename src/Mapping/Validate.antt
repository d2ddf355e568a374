-- ===== src/Mapping/Validate.antt =====
-- Validating proxy settings, src/mapping.rs. A diagnostic is made only when it is kept; in the model
-- every diagnostic is a value.
pub mod Capped
use fluxcope.Common.{
  ℕ, suc, min, ◌+◌, Option, none, some, Bool, true, false, List, [], ◌∷◌, ◌++◌, length, ltb,
  sat_add, if◌then◌else◌,
}
use fluxcope.Common.Text.{Text, text_eq, is_empty, trim}
use fluxcope.Common.Outcome.{Result, ok, err}
use fluxcope.Settings.{ProxySettings, ProxyPresetSettings}
use fluxcope.Mapping.Url.{
  UrlLibrary, MappingValueError, parse_rule_url, parse_remote_target, expand_home_path,
}
use fluxcope.Mapping.Diagnostics.{
  MappingDiagnostic, MappingDiagnosticCode, MappingTable, MappingField, Message, remote, local,
  from_field, to_field, error, invalid_rule_source, invalid_rule_target, empty_preset_name,
  duplicate_preset_name, preset_names_empty, duplicate_name, invalid, error_of, rule_diagnostic,
  active_preset_diagnostic,
}
use fluxcope.Mapping.Engine.{RuleValues, remote_values, local_values}

pub record DiagnosticCollector (E : Type 0) : Type 0 where
  pub diagnostics : List (MappingDiagnostic E)
  pub total : ℕ
  pub limit : ℕ

module _ {E : Type 0} where
  abbrev pub new_collector : ℕ → DiagnosticCollector E
  new_collector limit = record { diagnostics = []; total = 0; limit = limit }

  unfoldable pub push : MappingDiagnostic E → DiagnosticCollector E → DiagnosticCollector E
  push diagnostic c = record c {
    total = sat_add c.total 1;
    diagnostics =
        if ltb (length c.diagnostics) c.limit
        then c.diagnostics ++ diagnostic ∷ []
        else c.diagnostics;
  }

-- whether a set of names has the name
unfoldable pub name_seen : Text → List Text → Bool
name_seen name [] = false
name_seen name (n ∷ names) = if text_eq name n then true else name_seen name names

module _ (lib : UrlLibrary) (home : Option Text) where
  open lib use {ParseError}

  abbrev Collector : Type 0
  Collector = DiagnosticCollector ParseError

  -- what is wrong with the target of a table's rule
  unfoldable pub target_error : MappingTable → Text → Option (MappingValueError ParseError)
  unfolding parse_remote_target expand_home_path trim
  target_error remote to = elim (parse_remote_target lib to) [ ok _ ↦ none | err e ↦ some e ]
  target_error local to = elim (expand_home_path lib home (trim to)) [
    | ok _ ↦ none
    | err e ↦ some e
  ]

  unfoldable pub source_error : Text → Option (MappingValueError ParseError)
  unfolding parse_rule_url
  source_error from = elim (parse_rule_url lib from) [ ok _ ↦ none | err e ↦ some e ]

  unfoldable pub validate_rule_values :
      MappingTable → Text → Text → List (MappingField × Message ParseError)
  unfolding source_error target_error
  validate_rule_values table from to =
      (elim (source_error from) [ none ↦ [] | some e ↦ (from_field, invalid from_field e) ∷ [] ])
      ++ (elim (target_error table to) [ none ↦ [] | some e ↦ (to_field, invalid to_field e) ∷ [] ])

  -- pushing the diagnostic of an error, if there is one
  unfoldable pub report :
      Option (MappingValueError ParseError)
      → (MappingValueError ParseError → MappingDiagnostic ParseError)
      → Collector
      → Collector
  unfolding push
  report none diagnostic c = c
  report (some e) diagnostic c = push (diagnostic e) c

  abbrev pub source_diagnostic :
      ℕ → MappingTable → ℕ → MappingValueError ParseError → MappingDiagnostic ParseError
  source_diagnostic preset_index table index e =
      rule_diagnostic error invalid_rule_source preset_index table index from_field
        (invalid from_field e)

  abbrev pub target_diagnostic :
      ℕ → MappingTable → ℕ → MappingValueError ParseError → MappingDiagnostic ParseError
  target_diagnostic preset_index table index e =
      rule_diagnostic error invalid_rule_target preset_index table index to_field
        (invalid to_field e)

  -- the loop of `validate_rules`, from a rule's index on
  unfoldable pub validate_rules : ℕ → MappingTable → ℕ → List RuleValues → Collector → Collector
  unfolding report source_error target_error
  validate_rules preset_index table index [] c = c
  validate_rules preset_index table index (rule ∷ rules) c =
      let first = report (source_error rule.from) (source_diagnostic preset_index table index) c in
      let second =
        report (target_error table rule.to) (target_diagnostic preset_index table index) first in
      validate_rules preset_index table (suc index) rules second

  -- the name of a preset, with the names seen before it; the names seen after it
  unfoldable pub validate_name : Text → List Text → Collector → Collector × List Text
  unfolding push name_seen trim
  validate_name raw names c =
      if is_empty (trim raw)
      then (push (error_of empty_preset_name preset_names_empty) c, names)
      else if name_seen (trim raw) names
      then (push (error_of duplicate_preset_name (duplicate_name raw)) c, names)
      else (c, trim raw ∷ names)

  -- the loop over the presets, from a preset's index on
  unfoldable pub validate_presets : ℕ → List ProxyPresetSettings → List Text → Collector → Collector
  unfolding validate_name validate_rules
  validate_presets preset_index [] names c = c
  validate_presets preset_index (preset ∷ presets) names c =
      let named = validate_name preset.name names c in
      let remotes =
        validate_rules preset_index remote 0 (remote_values preset.map_remote.rules) named.0 in
      let locals =
        validate_rules preset_index local 0 (local_values preset.map_local.rules) remotes in
      validate_presets (suc preset_index) presets named.1 locals

  unfoldable pub validate_proxy_settings_capped :
      ProxySettings → ℕ → List (MappingDiagnostic ParseError) × ℕ
  unfolding validate_presets active_preset_diagnostic push
  validate_proxy_settings_capped proxy limit =
      let presets = validate_presets 0 proxy.presets [] (new_collector limit) in
      let c : Collector = elim (active_preset_diagnostic proxy) [
        | none ↦ presets
        | some diagnostic ↦ push (record diagnostic { severity = error }) presets
      ] in
      (c.diagnostics, c.total)
