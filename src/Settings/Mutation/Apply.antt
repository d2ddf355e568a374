-- ===== src/Settings/Mutation/Apply.antt =====
-- Applying a mutation, src/settings/mapping_ops.rs: `apply_to_candidate` and the two functions that
-- call it.
use fluxcope.Common.{Option, none, some}
use fluxcope.Common.Text.{Text}
use fluxcope.Common.Outcome.{ok, err}
use fluxcope.Mapping.Url.{UrlLibrary}
use fluxcope.Settings.Mutation.{
  MappingMutation, create_preset, rename_preset, delete_preset, set_active_preset,
  set_global_enabled, set_table_enabled, append_remote_rule, insert_remote_rule, update_remote_rule,
  append_local_rule, insert_local_rule, update_local_rule, delete_rule, move_rule, set_rule_enabled,
  changed, unchanged, MappingMutationResult,
}
use fluxcope.Settings.Mutation.Checks.{Checked, Settings, Applied}
use fluxcope.Settings.Mutation.Tables.{
  insert_remote, insert_local, update_remote, update_local, delete_rule_at, move_rule_to,
  set_enabled,
}
use fluxcope.Settings.Mutation.Presets.{create, rename, delete, set_active, set_global, set_table}

module _ (lib : UrlLibrary) (home : Option Text) where
  open lib use {ParseError}

  unfoldable pub apply_to_candidate : Settings → MappingMutation → Applied ParseError
  unfolding create rename delete set_active set_global set_table insert_remote insert_local
      update_remote update_local delete_rule_at move_rule_to set_enabled
  apply_to_candidate settings (create_preset name initial) = create lib home settings name initial
  apply_to_candidate settings (rename_preset name new_name) = rename lib home settings name new_name
  apply_to_candidate settings (delete_preset name) = delete lib home settings name
  apply_to_candidate settings (set_active_preset name) = set_active lib home settings name
  apply_to_candidate settings (set_global_enabled enabled) = set_global lib home settings enabled
  apply_to_candidate settings (set_table_enabled preset table enabled) =
      set_table lib home settings preset table enabled
  apply_to_candidate settings (append_remote_rule preset rule) =
      insert_remote lib home settings preset none rule
  apply_to_candidate settings (insert_remote_rule preset index rule) =
      insert_remote lib home settings preset (some index) rule
  apply_to_candidate settings (update_remote_rule preset index from to) =
      update_remote lib home settings preset index from to
  apply_to_candidate settings (append_local_rule preset rule) =
      insert_local lib home settings preset none rule
  apply_to_candidate settings (insert_local_rule preset index rule) =
      insert_local lib home settings preset (some index) rule
  apply_to_candidate settings (update_local_rule preset index from to) =
      update_local lib home settings preset index from to
  apply_to_candidate settings (delete_rule preset table index) =
      delete_rule_at lib home settings preset table index
  apply_to_candidate settings (move_rule preset table from to) =
      move_rule_to lib home settings preset table from to
  apply_to_candidate settings (set_rule_enabled preset table index enabled) =
      set_enabled lib home settings preset table index enabled

  -- `apply_mapping_mutation`: the settings after it, and what it returns
  unfoldable pub apply_mapping_mutation :
      Settings → MappingMutation → Settings × Checked ParseError MappingMutationResult
  unfolding apply_to_candidate
  apply_mapping_mutation settings mutation = elim (apply_to_candidate settings mutation) [
    | err e ↦ (settings, err e)
    | ok (candidate, result) ↦
        (elim result.effect [ changed ↦ candidate | unchanged ↦ settings ], ok result)
  ]

  abbrev pub apply_mapping_mutation_owned : Settings → MappingMutation → Applied ParseError
  apply_mapping_mutation_owned settings mutation = apply_to_candidate settings mutation
