-- ===== src/Mapping/Diagnostics.antt =====
-- The diagnostics of mapping rules, src/mapping.rs. A message is data: which text the source formats,
-- with the values it puts in.
use fluxcope.Common.{ℕ, suc, Option, none, some, Bool, true, false, List, [], ◌∷◌, if◌then◌else◌}
use fluxcope.Common.Text.{Text, text_eq, is_empty, trim}
use fluxcope.Mapping.Url.{MappingValueError}
use fluxcope.Settings.{ProxySettings, ProxyPresetSettings}

pub data DiagnosticSeverity : Type 0 where
  warning error : DiagnosticSeverity

pub data MappingDiagnosticCode : Type 0 where
  invalid_request_url missing_active_preset active_preset_not_found : MappingDiagnosticCode
  invalid_rule_source invalid_rule_target : MappingDiagnosticCode
  empty_preset_name duplicate_preset_name : MappingDiagnosticCode

pub data MappingTable : Type 0 where
  remote local : MappingTable

pub data MappingField : Type 0 where
  from_field to_field : MappingField

pub record MappingLocation : Type 0 where
  pub preset_index : ℕ
  pub table : MappingTable
  pub rule_index : ℕ
  pub field : MappingField

pub record MappingRuleLocation : Type 0 where
  pub preset_index : ℕ
  pub table : MappingTable
  pub rule_index : ℕ

pub data Message (E : Type 0) : Type 0 where
  no_active_preset : Message E
  active_preset_missing : Text → Message E
  preset_names_empty : Message E
  duplicate_name : Text → Message E
  -- "map_remote rule {index} skipped: invalid from URL: {error}" and its three siblings
  skipped : MappingTable → ℕ → MappingField → MappingValueError E → Message E
  -- "mapping source {error}" and "mapping target {error}"
  invalid : MappingField → MappingValueError E → Message E

pub record MappingDiagnostic (E : Type 0) : Type 0 where
  pub severity : DiagnosticSeverity
  pub code : MappingDiagnosticCode
  pub location : Option MappingLocation
  pub message : Message E

-- `active_preset.as_deref().unwrap_or("").trim()`
unfoldable pub active_name : ProxySettings → Text
unfolding trim
active_name proxy = trim (elim proxy.active_preset [ none ↦ [] | some name ↦ name ])

unfoldable pub has_preset : Text → List ProxyPresetSettings → Bool
has_preset name [] = false
has_preset name (preset ∷ presets) =
    if text_eq (trim preset.name) name then true else has_preset name presets

abbrev no_presets : List ProxyPresetSettings → Bool
no_presets [] = true
no_presets (_ ∷ _) = false

-- `enumerate().find(..)`, from an index on
unfoldable pub find_preset : Text → ℕ → List ProxyPresetSettings → Option (ℕ × ProxyPresetSettings)
find_preset name index [] = none
find_preset name index (preset ∷ presets) =
    if text_eq (trim preset.name) name
    then some (index, preset)
    else find_preset name (suc index) presets

module _ {E : Type 0} where
  abbrev pub warning_of : MappingDiagnosticCode → Message E → MappingDiagnostic E
  warning_of code message = record {
    severity = warning;
    code = code;
    location = none;
    message = message;
  }

  abbrev pub error_of : MappingDiagnosticCode → Message E → MappingDiagnostic E
  error_of code message = record {
    severity = error;
    code = code;
    location = none;
    message = message;
  }

  abbrev pub rule_diagnostic :
      DiagnosticSeverity
      → MappingDiagnosticCode
      → ℕ
      → MappingTable
      → ℕ
      → MappingField
      → Message E
      → MappingDiagnostic E
  rule_diagnostic severity code preset_index table rule_index field message = record {
    severity = severity;
    code = code;
    location = some (record {
      preset_index = preset_index;
      table = table;
      rule_index = rule_index;
      field = field;
    });
    message = message;
  }

  unfoldable pub active_preset_diagnostic : ProxySettings → Option (MappingDiagnostic E)
  unfolding active_name has_preset
  active_preset_diagnostic proxy =
      let name = active_name proxy in
      if is_empty name
      then (if no_presets proxy.presets
          then none
          else some (warning_of missing_active_preset no_active_preset))
      else if has_preset name proxy.presets
      then none
      else some (warning_of active_preset_not_found (active_preset_missing name))

  -- the diagnostic pushed, if any, and the preset found
  unfoldable pub active_preset :
      ProxySettings → List (MappingDiagnostic E) × Option (ℕ × ProxyPresetSettings)
  unfolding active_preset_diagnostic find_preset
  active_preset proxy = elim (active_preset_diagnostic proxy) [
    | some diagnostic ↦ (diagnostic ∷ [], none)
    | none ↦
        if is_empty (active_name proxy)
        then ([], none)
        else ([], find_preset (active_name proxy) 0 proxy.presets)
  ]
