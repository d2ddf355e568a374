-- ===== src/Settings/Mutation/Checks.antt =====
-- What the mutations share, src/settings/mapping_ops.rs: names, lookups, checks of fields, errors.
use fluxcope.Common.{
  ℕ, zero, suc, Option, none, some, Bool, true, false, not, ◌&&◌, ◌||◌, ◌==◌, List, [], ◌∷◌, set,
  if◌then◌else◌,
}
use fluxcope.Common.Text.{Text, text_eq, is_empty, trim}
use fluxcope.Common.Outcome.{Result, ok, err, ◌>>=◌}
use fluxcope.Settings.{
  ProxySettings, ProxyPresetSettings, ProxyMapRemoteRule, ProxyMapLocalRule, default_proxy,
}
use fluxcope.Mapping.Url.{UrlLibrary}
use fluxcope.Mapping.Diagnostics.{find_preset, MappingLocation}
use fluxcope.Mapping.Validate.{validate_rule_values, validate_proxy_settings_capped}
use fluxcope.Settings.Mutation.{
  ProxyRuleTable, changed, unchanged, MappingObjectRef, preset_ref, preset_name_ref, rule_ref,
  rule_field_ref, MappingMutationResult, proxy_not_found, preset_not_found, duplicate_preset_name,
  rule_not_found, invalid_field, name_cannot_be_empty, proxy_does_not_exist, name_already_exists,
  preset_was_not_found, rule_was_not_found, of_diagnostic, MappingMutationError,
}

-- `Vec::insert` at an index within the length
abbrev pub insert_at {ℓ} : {A : Type ℓ} → ℕ → A → List A → List A
insert_at zero v xs = v ∷ xs
insert_at (suc i) v [] = v ∷ []
insert_at (suc i) v (x ∷ xs) = x ∷ insert_at i v xs

-- `Vec::remove` of an index within the length
abbrev pub remove_at {ℓ} : {A : Type ℓ} → ℕ → List A → List A
remove_at i [] = []
remove_at zero (x ∷ xs) = xs
remove_at (suc i) (x ∷ xs) = x ∷ remove_at i xs

-- the equality of two optional names
unfoldable pub name_eq : Option Text → Option Text → Bool
name_eq none none = true
name_eq (some a) (some b) = text_eq a b
name_eq _ _ = false

abbrev pub trimmed : Option Text → Option Text
trimmed none = none
trimmed (some name) = some (trim name)

abbrev pub bool_eq : Bool → Bool → Bool
bool_eq true b = b
bool_eq false b = not b

-- whether another preset than that at `index` has the trimmed name, from a preset's index on
unfoldable pub other_has_name : Text → ℕ → ℕ → List ProxyPresetSettings → Bool
other_has_name name index candidate [] = false
other_has_name name index candidate (preset ∷ presets) =
    (not (candidate == index) && text_eq (trim preset.name) name)
    || other_has_name name index (suc candidate) presets

abbrev pub mutation_result : MappingObjectRef → Bool → MappingMutationResult
mutation_result affected was_changed = record {
  affected = affected;
  effect = if was_changed then changed else unchanged;
}

abbrev pub Settings : Type 0
Settings = Option ProxySettings

abbrev pub Checked : Type 0 → Type 0 → Type 0
Checked E A = Result (MappingMutationError E) A

-- the settings after a mutation, and what it reports
abbrev pub Applied : Type 0 → Type 0
Applied E = Checked E (Settings × MappingMutationResult)

abbrev pub put_preset : ℕ → ProxyPresetSettings → ProxySettings → ProxySettings
put_preset index preset proxy = record proxy { presets = set proxy.presets index preset }

abbrev pub with_remote : List ProxyMapRemoteRule → ProxyPresetSettings → ProxyPresetSettings
with_remote rules preset = record preset { map_remote = record preset.map_remote { rules = rules } }

abbrev pub with_local : List ProxyMapLocalRule → ProxyPresetSettings → ProxyPresetSettings
with_local rules preset = record preset { map_local = record preset.map_local { rules = rules } }

abbrev pub index_or : Option ℕ → ℕ → ℕ
index_or none n = n
index_or (some i) n = i

-- the index with the preset there
unfoldable pub find_mapping_preset_index : ProxySettings → Text → Option (ℕ × ProxyPresetSettings)
unfolding find_preset trim
find_mapping_preset_index proxy name = find_preset (trim name) 0 proxy.presets

abbrev location_of : Text → Option MappingLocation → MappingObjectRef
location_of name none = preset_name_ref name
location_of name (some location) =
    rule_field_ref name location.table location.rule_index location.field

module _ {E : Type 0} where
  unfoldable pub normalized_name : Text → Checked E Text
  unfolding trim
  normalized_name raw =
      if is_empty (trim raw)
      then err (record {
        kind = invalid_field;
        location = preset_name_ref (trim raw);
        message = name_cannot_be_empty;
      })
      else ok (trim raw)

  unfoldable pub require_proxy : Settings → MappingObjectRef → Checked E ProxySettings
  require_proxy none location =
      err (record { kind = proxy_not_found; location = location; message = proxy_does_not_exist })
  require_proxy (some proxy) location = ok proxy

  abbrev pub preset_not_found_error : Text → MappingMutationError E
  preset_not_found_error name = record {
    kind = preset_not_found;
    location = preset_ref name;
    message = preset_was_not_found name;
  }

  unfoldable pub require_preset_index : ProxySettings → Text → Checked E (ℕ × ProxyPresetSettings)
  unfolding find_mapping_preset_index
  require_preset_index proxy name = elim (find_mapping_preset_index proxy name) [
    | some found ↦ ok found
    | none ↦ err (preset_not_found_error name)
  ]

  -- the checks that most mutations begin with: of the name, of the proxy's presence, of the preset's
  unfoldable pub locate :
      Settings
      → Text
      → (Text → MappingObjectRef)
      → Checked E (Text × ProxySettings × ℕ × ProxyPresetSettings)
  unfolding normalized_name require_proxy require_preset_index
  locate settings raw location = do
    preset ← normalized_name raw
    proxy ← require_proxy settings (location preset)
    (i, p) ← require_preset_index proxy preset
    ok (preset, proxy, i, p)

  abbrev pub duplicate_name_error : Text → MappingMutationError E
  duplicate_name_error name = record {
    kind = duplicate_preset_name;
    location = preset_name_ref name;
    message = name_already_exists;
  }

  abbrev pub rule_not_found_error : Text → ProxyRuleTable → ℕ → MappingMutationError E
  rule_not_found_error preset table index = record {
    kind = rule_not_found;
    location = rule_ref preset table index;
    message = rule_was_not_found index;
  }

module _ (lib : UrlLibrary) (home : Option Text) where
  open lib use {ParseError}

  unfoldable pub validate_rule_fields :
      Text → ProxyRuleTable → ℕ → Text → Text → Checked ParseError (Unit {0})
  unfolding validate_rule_values
  validate_rule_fields preset table index from to =
      elim (validate_rule_values lib home table from to) [
        | [] ↦ ok tt
        | (field, message) ∷ _ ↦ err (record {
          kind = invalid_field;
          location = rule_field_ref preset table index field;
          message = of_diagnostic message;
        })
      ]

  unfoldable pub validate_initial_preset : ProxyPresetSettings → Checked ParseError (Unit {0})
  unfolding validate_proxy_settings_capped
  validate_initial_preset preset =
      let proxy = record default_proxy {
        active_preset = some preset.name;
        presets = preset ∷ [];
      } in
      elim ((validate_proxy_settings_capped lib home proxy 1).0) [
        | [] ↦ ok tt
        | diagnostic ∷ _ ↦ err (record {
          kind = invalid_field;
          location = location_of preset.name diagnostic.location;
          message = of_diagnostic diagnostic.message;
        })
      ]
