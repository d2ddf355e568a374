-- ===== src/Settings/Mutation.antt =====
-- The mutations of the mapping settings, src/settings/mapping_ops.rs: their data. The application's
-- settings are modelled by the one field that the mutations read and write, `proxy`.
pub mod Checks
pub mod Tables
pub mod Presets
pub mod Apply
pub mod Effect
pub mod Move
use fluxcope.Common.{ℕ, Option, none, some, Bool, true, false, List}
use fluxcope.Common.Text.{Text}
use fluxcope.Common.Outcome.{Result}
use fluxcope.Settings.{ProxySettings, ProxyPresetSettings, ProxyMapRemoteRule, ProxyMapLocalRule}
use fluxcope.Mapping.Diagnostics.{MappingTable, MappingField, Message}

-- `ProxyRuleTable` and `MappingRuleField` have the cases of `MappingTable` and `MappingField`, to which
-- the source converts them case by case.
abbrev pub ProxyRuleTable : Type 0
ProxyRuleTable = MappingTable

abbrev pub MappingRuleField : Type 0
MappingRuleField = MappingField

pub data MappingMutation : Type 0 where
  create_preset : Text → Option ProxyPresetSettings → MappingMutation
  rename_preset : Text → Text → MappingMutation
  delete_preset : Text → MappingMutation
  set_active_preset : Option Text → MappingMutation
  set_global_enabled : Bool → MappingMutation
  set_table_enabled : Text → ProxyRuleTable → Bool → MappingMutation
  append_remote_rule : Text → ProxyMapRemoteRule → MappingMutation
  insert_remote_rule : Text → ℕ → ProxyMapRemoteRule → MappingMutation
  update_remote_rule : Text → ℕ → Text → Text → MappingMutation
  append_local_rule : Text → ProxyMapLocalRule → MappingMutation
  insert_local_rule : Text → ℕ → ProxyMapLocalRule → MappingMutation
  update_local_rule : Text → ℕ → Text → Text → MappingMutation
  delete_rule : Text → ProxyRuleTable → ℕ → MappingMutation
  move_rule : Text → ProxyRuleTable → ℕ → ℕ → MappingMutation
  set_rule_enabled : Text → ProxyRuleTable → ℕ → Bool → MappingMutation

pub data MutationEffect : Type 0 where
  changed unchanged : MutationEffect

pub data MappingObjectRef : Type 0 where
  proxy_ref active_preset_ref : MappingObjectRef
  preset_ref preset_name_ref : Text → MappingObjectRef
  table_ref : Text → ProxyRuleTable → MappingObjectRef
  rule_ref : Text → ProxyRuleTable → ℕ → MappingObjectRef
  rule_field_ref : Text → ProxyRuleTable → ℕ → MappingRuleField → MappingObjectRef

pub record MappingMutationResult : Type 0 where
  pub affected : MappingObjectRef
  pub effect : MutationEffect

pub data MappingMutationErrorKind : Type 0 where
  proxy_not_found preset_not_found duplicate_preset_name rule_not_found invalid_field :
      MappingMutationErrorKind

-- the messages, by what they are formatted of
pub data MutationMessage (E : Type 0) : Type 0 where
  name_cannot_be_empty proxy_does_not_exist name_already_exists : MutationMessage E
  preset_was_not_found : Text → MutationMessage E
  rule_was_not_found : ℕ → MutationMessage E
  of_diagnostic : Message E → MutationMessage E

pub record MappingMutationError (E : Type 0) : Type 0 where
  pub kind : MappingMutationErrorKind
  pub location : MappingObjectRef
  pub message : MutationMessage E
