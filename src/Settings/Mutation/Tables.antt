-- ===== src/Settings/Mutation/Tables.antt =====
-- The mutations of one rule table, src/settings/mapping_ops.rs.
use fluxcope.Common.{
  ℕ, Option, none, some, Bool, true, not, ◌||◌, ◌==◌, ltb, leb, List, length, get_elem?, set,
  if◌then◌else◌,
}
use fluxcope.Common.Text.{Text, text_eq}
use fluxcope.Common.Outcome.{ok, err, ◌>>=◌}
use fluxcope.Settings.{ProxySettings, ProxyPresetSettings, ProxyMapRemoteRule, ProxyMapLocalRule}
use fluxcope.Mapping.Url.{UrlLibrary}
use fluxcope.Mapping.Diagnostics.{remote, local}
use fluxcope.Settings.Mutation.{ProxyRuleTable, table_ref, rule_ref}
use fluxcope.Settings.Mutation.Checks.{
  locate, insert_at, remove_at, bool_eq, mutation_result, Checked, Settings, Applied,
  normalized_name, require_proxy, require_preset_index, rule_not_found_error, validate_rule_fields,
  put_preset, with_remote, with_local, index_or,
}

module _ (lib : UrlLibrary) (home : Option Text) where
  open lib use {ParseError}

  unfoldable pub insert_remote :
      Settings → Text → Option ℕ → ProxyMapRemoteRule → Applied ParseError
  unfolding locate normalized_name require_proxy require_preset_index validate_rule_fields
  insert_remote settings raw at rule = do
    (preset, proxy, i, p) ← locate settings raw (λ preset. table_ref preset remote)
    index ← ok (index_or at (length p.map_remote.rules))
    _ ← validate_rule_fields lib home preset remote index rule.from rule.to
    if ltb (length p.map_remote.rules) index
        then err (rule_not_found_error preset remote index)
        else ok (
          some (put_preset i (with_remote (insert_at index rule p.map_remote.rules) p) proxy),
          mutation_result (rule_ref preset remote index) true,
        )

  unfoldable pub insert_local : Settings → Text → Option ℕ → ProxyMapLocalRule → Applied ParseError
  unfolding locate normalized_name require_proxy require_preset_index validate_rule_fields
  insert_local settings raw at rule = do
    (preset, proxy, i, p) ← locate settings raw (λ preset. table_ref preset local)
    index ← ok (index_or at (length p.map_local.rules))
    _ ← validate_rule_fields lib home preset local index rule.from rule.to
    if ltb (length p.map_local.rules) index
        then err (rule_not_found_error preset local index)
        else ok (
          some (put_preset i (with_local (insert_at index rule p.map_local.rules) p) proxy),
          mutation_result (rule_ref preset local index) true,
        )

  -- `update_remote_rule` once the preset is found
  unfoldable pub update_remote_in :
      ProxySettings → Text → ℕ → Text → Text → ℕ → ProxyPresetSettings → Applied ParseError
  update_remote_in proxy preset index from to i p = elim (get_elem? p.map_remote.rules index) [
    | none ↦ err (rule_not_found_error preset remote index)
    | some rule ↦ ok (
      some (
          put_preset i
            (with_remote (set p.map_remote.rules index (record rule { from = from; to = to })) p)
            proxy),
      mutation_result (rule_ref preset remote index)
          (not (text_eq rule.from from) || not (text_eq rule.to to)),
    )
  ]

  unfoldable pub update_remote : Settings → Text → ℕ → Text → Text → Applied ParseError
  unfolding normalized_name require_proxy require_preset_index validate_rule_fields update_remote_in
  update_remote settings raw index from to = do
    preset ← normalized_name raw
    _ ← validate_rule_fields lib home preset remote index from to
    proxy ← require_proxy settings (rule_ref preset remote index)
    (i, p) ← require_preset_index proxy preset
    update_remote_in proxy preset index from to i p

  -- `update_local_rule` once the preset is found
  unfoldable pub update_local_in :
      ProxySettings → Text → ℕ → Text → Text → ℕ → ProxyPresetSettings → Applied ParseError
  update_local_in proxy preset index from to i p = elim (get_elem? p.map_local.rules index) [
    | none ↦ err (rule_not_found_error preset local index)
    | some rule ↦ ok (
      some (
          put_preset i
            (with_local (set p.map_local.rules index (record rule { from = from; to = to })) p)
            proxy),
      mutation_result (rule_ref preset local index)
          (not (text_eq rule.from from) || not (text_eq rule.to to)),
    )
  ]

  unfoldable pub update_local : Settings → Text → ℕ → Text → Text → Applied ParseError
  unfolding normalized_name require_proxy require_preset_index validate_rule_fields update_local_in
  update_local settings raw index from to = do
    preset ← normalized_name raw
    _ ← validate_rule_fields lib home preset local index from to
    proxy ← require_proxy settings (rule_ref preset local index)
    (i, p) ← require_preset_index proxy preset
    update_local_in proxy preset index from to i p

  unfoldable pub delete_rule_at : Settings → Text → ProxyRuleTable → ℕ → Applied ParseError
  unfolding locate normalized_name require_proxy require_preset_index
  delete_rule_at settings raw table index = do
    (preset, proxy, i, p) ← locate settings raw (λ preset. rule_ref preset table index)
    elim table [
      | remote ↦
          if leb (length p.map_remote.rules) index
          then err (rule_not_found_error preset remote index)
          else ok (
            some (put_preset i (with_remote (remove_at index p.map_remote.rules) p) proxy),
            mutation_result (rule_ref preset remote index) true,
          )
      | local ↦
          if leb (length p.map_local.rules) index
          then err (rule_not_found_error preset local index)
          else ok (
            some (put_preset i (with_local (remove_at index p.map_local.rules) p) proxy),
            mutation_result (rule_ref preset local index) true,
          )
    ]

  unfoldable pub move_item :
      {A : Type 0} → List A → Text → ProxyRuleTable → ℕ → ℕ → Checked ParseError (List A)
  move_item rules preset table from to =
      if leb (length rules) from
      then err (rule_not_found_error preset table from)
      else if leb (length rules) to
      then err (rule_not_found_error preset table to)
      else if from == to
      then ok rules
      else elim (get_elem? rules from) [
        | none ↦ ok rules
        | some rule ↦ ok (insert_at to rule (remove_at from rules))
      ]

  unfoldable pub move_rule_to : Settings → Text → ProxyRuleTable → ℕ → ℕ → Applied ParseError
  unfolding locate normalized_name require_proxy require_preset_index move_item
  move_rule_to settings raw table from to = do
    (preset, proxy, i, p) ← locate settings raw (λ preset. rule_ref preset table from)
    moved ← elim table [
      | remote ↦
          move_item p.map_remote.rules preset remote from to >>= λ rules. ok (with_remote rules p)
      | local ↦
          move_item p.map_local.rules preset local from to >>= λ rules. ok (with_local rules p)
    ]
    ok (
      some (put_preset i moved proxy),
      mutation_result (rule_ref preset table to) (not (from == to)),
    )

  unfoldable pub set_remote_enabled_in :
      ProxySettings → Text → ℕ → Bool → ℕ → ProxyPresetSettings → Applied ParseError
  set_remote_enabled_in proxy preset index enabled i p = elim (get_elem? p.map_remote.rules index) [
    | none ↦ err (rule_not_found_error preset remote index)
    | some rule ↦ ok (
      some (
          put_preset i
            (with_remote (set p.map_remote.rules index (record rule { enable = enabled })) p)
            proxy),
      mutation_result (rule_ref preset remote index) (not (bool_eq rule.enable enabled)),
    )
  ]

  unfoldable pub set_local_enabled_in :
      ProxySettings → Text → ℕ → Bool → ℕ → ProxyPresetSettings → Applied ParseError
  set_local_enabled_in proxy preset index enabled i p = elim (get_elem? p.map_local.rules index) [
    | none ↦ err (rule_not_found_error preset local index)
    | some rule ↦ ok (
      some (
          put_preset i
            (with_local (set p.map_local.rules index (record rule { enable = enabled })) p) proxy),
      mutation_result (rule_ref preset local index) (not (bool_eq rule.enable enabled)),
    )
  ]

  unfoldable pub set_enabled : Settings → Text → ProxyRuleTable → ℕ → Bool → Applied ParseError
  unfolding locate set_remote_enabled_in set_local_enabled_in
  set_enabled settings raw table index enabled = do
    (preset, proxy, i, p) ← locate settings raw (λ preset. rule_ref preset table index)
    elim table [
      | remote ↦ set_remote_enabled_in proxy preset index enabled i p
      | local ↦ set_local_enabled_in proxy preset index enabled i p
    ]
