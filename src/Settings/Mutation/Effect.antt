-- ===== src/Settings/Mutation/Effect.antt =====
-- The reported effect against the settings, src/settings/mapping_ops.rs.
pub mod Lookup
pub mod Presets
pub mod Rules
use fluxcope.Common.{
  ◌++◌, leb, ltb, length, ◌⊎◌, ℕ, zero, suc, ◌+◌, ◌≡◌, refl, sym, ap, Option, none, some, Bool,
  true, false, not, ◌&&◌, ◌||◌, ◌==◌, List, [], ◌∷◌, get_elem?, set, Bool-cases, Option-cases, inl,
  inr, arith, if◌then◌else◌,
}
use fluxcope.Common.Text.{Text, text_eq, trim}
use fluxcope.Common.Text.Equality.{text_eq_iff}
use fluxcope.Common.Outcome.{ok, err, ◌>>=◌, Result-cases}
use fluxcope.Settings.{
  ProxySettings, ProxyPresetSettings, ProxyMapRemoteRule, ProxyMapLocalRule, default_proxy,
}
use fluxcope.Mapping.Url.{UrlLibrary}
use fluxcope.Mapping.Diagnostics.{MappingTable, remote, local, find_preset}
use fluxcope.Settings.Mutation.{
  MappingMutation, MutationEffect, changed, unchanged, MappingObjectRef, MappingMutationResult,
  MappingMutationError, proxy_not_found, proxy_does_not_exist, table_ref, rule_ref, preset_ref,
  create_preset, rename_preset, delete_preset, set_active_preset, set_global_enabled,
  set_table_enabled, append_remote_rule, insert_remote_rule, update_remote_rule, append_local_rule,
  insert_local_rule, update_local_rule, delete_rule, move_rule, set_rule_enabled,
}
use fluxcope.Settings.Mutation.Checks.{
  other_has_name, index_or, preset_not_found_error, locate, name_eq, trimmed, bool_eq, Checked,
  Settings, Applied, normalized_name, require_proxy, find_mapping_preset_index,
  require_preset_index, validate_rule_fields, put_preset, mutation_result,
}
use fluxcope.Settings.Mutation.Tables.{
  set_remote_enabled_in, set_local_enabled_in, insert_remote, insert_local, update_remote,
  update_local, update_remote_in, update_local_in, delete_rule_at, move_item, move_rule_to,
  set_enabled,
}
use fluxcope.Settings.Mutation.Presets.{create, rename, delete, set_active, set_global, set_table}
use fluxcope.Settings.Mutation.Apply.{
  apply_to_candidate, apply_mapping_mutation, apply_mapping_mutation_owned,
}
use fluxcope.Settings.Mutation.Effect.Lookup.{
  set_same, name_eq_iff, bool_eq_iff, Settled, preset_cases, locate_cases, not-true, or_false,
  result_unchanged, MutationEffect-cases, put_same,
}
use fluxcope.Settings.Mutation.Effect.Presets.{
  create-Settled, rename-Settled, delete-Settled, set_active-Settled, set_global-Settled,
  set_table-Settled,
}
use fluxcope.Settings.Mutation.Effect.Rules.{
  insert_remote-Settled, insert_local-Settled, update_remote-Settled, update_local-Settled,
  delete_rule_at-Settled, move_rule_to-Settled, set_enabled-Settled,
}

module _ (lib : UrlLibrary) (home : Option Text) where
  open lib use {ParseError}

  apply_to_candidate-Settled :
      (s : Settings) (m : MappingMutation) → Settled s (apply_to_candidate lib home s m)
  unfolding apply_to_candidate
  apply_to_candidate-Settled s (create_preset name initial) = create-Settled lib home s name initial
  apply_to_candidate-Settled s (rename_preset name new_name) =
      rename-Settled lib home s name new_name
  apply_to_candidate-Settled s (delete_preset name) = delete-Settled lib home s name
  apply_to_candidate-Settled s (set_active_preset name) = set_active-Settled lib home s name
  apply_to_candidate-Settled s (set_global_enabled enabled) = set_global-Settled lib home s enabled
  apply_to_candidate-Settled s (set_table_enabled name table enabled) =
      set_table-Settled lib home s name table enabled
  apply_to_candidate-Settled s (append_remote_rule name rule) =
      insert_remote-Settled lib home s name none rule
  apply_to_candidate-Settled s (insert_remote_rule name index rule) =
      insert_remote-Settled lib home s name (some index) rule
  apply_to_candidate-Settled s (update_remote_rule name index from to) =
      update_remote-Settled lib home s name index from to
  apply_to_candidate-Settled s (append_local_rule name rule) =
      insert_local-Settled lib home s name none rule
  apply_to_candidate-Settled s (insert_local_rule name index rule) =
      insert_local-Settled lib home s name (some index) rule
  apply_to_candidate-Settled s (update_local_rule name index from to) =
      update_local-Settled lib home s name index from to
  apply_to_candidate-Settled s (delete_rule name table index) =
      delete_rule_at-Settled lib home s name table index
  apply_to_candidate-Settled s (move_rule name table from to) =
      move_rule_to-Settled lib home s name table from to
  apply_to_candidate-Settled s (set_rule_enabled name table index enabled) =
      set_enabled-Settled lib home s name table index enabled

  -- what `apply_mapping_mutation` would do if it always kept the candidate
  abbrev pub kept :
      Settings → Applied ParseError → Settings × Checked ParseError MappingMutationResult
  kept settings (err e) = (settings, err e)
  kept settings (ok (after, result)) = (after, ok result)

  -- For all settings and every mutation, applying the mutation in place, which keeps the changed copy
  -- only when the reported effect is a change, ends in the settings that the owned variant returns and
  -- reports what it reports; and when the mutation fails, the settings are as before.
  pub apply_mapping_mutation-owned :
      (settings : Settings) (mutation : MappingMutation)
      → apply_mapping_mutation lib home settings mutation
        ≡ kept settings (apply_mapping_mutation_owned lib home settings mutation)
  unfolding apply_mapping_mutation
  apply_mapping_mutation-owned settings mutation =
      elim (Result-cases (apply_to_candidate lib home settings mutation)) [
        | inr (e, f) ↦ rw (apply_mapping_mutation, f)
        | inl ((after, result), f) ↦
            let settled = rw f at (apply_to_candidate-Settled settings mutation) in
            elim (MutationEffect-cases result.effect) [
              | inl c ↦ rw (apply_mapping_mutation, f, c)
              | inr u ↦
                  rw (apply_mapping_mutation, f, u)
                    (ap (λ s. (s, ok (record result { effect = unchanged }))) (sym (settled u)))
            ]
      ]
