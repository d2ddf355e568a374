-- ===== src/Settings/Mutation/Presets.antt =====
-- The mutations of the presets and the switches, src/settings/mapping_ops.rs: the cases of
-- `apply_to_candidate` that it does itself.
use fluxcope.Common.{Option, none, some, Bool, true, not, ◌&&◌, ◌||◌, [], ◌∷◌, ◌++◌, if◌then◌else◌}
use fluxcope.Common.Text.{Text, text_eq}
use fluxcope.Common.Outcome.{ok, err, ◌>>=◌}
use fluxcope.Settings.{ProxyPresetSettings, default_preset, default_proxy}
use fluxcope.Mapping.Url.{UrlLibrary}
use fluxcope.Mapping.Diagnostics.{remote, local}
use fluxcope.Settings.Mutation.{
  ProxyRuleTable, proxy_ref, active_preset_ref, preset_ref, preset_name_ref, table_ref,
}
use fluxcope.Settings.Mutation.Checks.{
  locate, remove_at, name_eq, trimmed, bool_eq, other_has_name, mutation_result, Settings, Applied,
  normalized_name, require_proxy, find_mapping_preset_index, require_preset_index,
  duplicate_name_error, validate_initial_preset, put_preset,
}

module _ (lib : UrlLibrary) (home : Option Text) where
  open lib use {ParseError}

  unfoldable pub create : Settings → Text → Option ProxyPresetSettings → Applied ParseError
  unfolding normalized_name find_mapping_preset_index validate_initial_preset
  create settings raw initial = do
    name ← normalized_name raw
    _ ← elim settings [
      | none ↦ ok tt
      | some proxy ↦ elim (find_mapping_preset_index proxy name) [
        | none ↦ ok tt
        | some _ ↦ err (duplicate_name_error name)
      ]
    ]
    preset ← ok (record (elim initial [ none ↦ default_preset | some p ↦ p ]) { name = name })
    _ ← validate_initial_preset lib home preset
    proxy ← ok (elim settings [ none ↦ default_proxy | some proxy ↦ proxy ])
    ok (
      some (record proxy { presets = proxy.presets ++ preset ∷ [] }),
      mutation_result (preset_ref name) true,
    )

  unfoldable pub rename : Settings → Text → Text → Applied ParseError
  unfolding locate normalized_name require_proxy require_preset_index other_has_name name_eq
  rename settings raw raw_new = do
    name ← normalized_name raw
    new_name ← normalized_name raw_new
    proxy ← require_proxy settings (preset_ref name)
    (i, p) ← require_preset_index proxy name
    _ ←
        if not (text_eq name new_name) && other_has_name new_name i 0 proxy.presets
        then err (duplicate_name_error new_name)
        else ok tt
    active_matches ← ok (name_eq (trimmed proxy.active_preset) (some name))
    renamed ← ok (put_preset i (record p { name = new_name }) proxy)
    ok (
      some (if active_matches then record renamed { active_preset = some new_name } else renamed),
      mutation_result (preset_name_ref new_name) (
          not (text_eq p.name new_name)
          || (active_matches && not (name_eq proxy.active_preset (some new_name)))),
    )

  unfoldable pub delete : Settings → Text → Applied ParseError
  unfolding locate normalized_name require_proxy require_preset_index name_eq
  delete settings raw = do
    (name, proxy, i, p) ← locate settings raw (λ name. preset_ref name)
    rest ← ok (record proxy { presets = remove_at i proxy.presets })
    ok (
      some (
          if name_eq (trimmed proxy.active_preset) (some name)
          then record rest { active_preset = none }
          else rest),
      mutation_result (preset_ref name) true,
    )

  unfoldable pub set_active : Settings → Option Text → Applied ParseError
  unfolding locate normalized_name require_proxy require_preset_index name_eq
  set_active settings name = do
    proxy ← require_proxy settings active_preset_ref
    next ← elim name [
      | none ↦ ok none
      | some raw ↦
          normalized_name raw >>= λ name. require_preset_index proxy name >>= λ _. ok (some name)
    ]
    ok (
      some (record proxy { active_preset = next }),
      mutation_result active_preset_ref (not (name_eq proxy.active_preset next)),
    )

  unfoldable pub set_global : Settings → Bool → Applied ParseError
  unfolding require_proxy
  set_global settings enabled = do
    proxy ← require_proxy settings proxy_ref
    ok (
      some (record proxy { enable = enabled }),
      mutation_result proxy_ref (not (bool_eq proxy.enable enabled)),
    )

  unfoldable pub set_table : Settings → Text → ProxyRuleTable → Bool → Applied ParseError
  unfolding locate normalized_name require_proxy require_preset_index
  set_table settings raw table enabled = do
    (preset, proxy, i, p) ← locate settings raw (λ preset. table_ref preset table)
    elim table [
      | remote ↦ ok (
        some (
            put_preset i (record p { map_remote = record p.map_remote { enable = enabled } })
              proxy),
        mutation_result (table_ref preset remote) (not (bool_eq p.map_remote.enable enabled)),
      )
      | local ↦ ok (
        some
            (put_preset i (record p { map_local = record p.map_local { enable = enabled } }) proxy),
        mutation_result (table_ref preset local) (not (bool_eq p.map_local.enable enabled)),
      )
    ]
