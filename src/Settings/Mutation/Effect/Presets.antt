-- ===== src/Settings/Mutation/Effect/Presets.antt =====
-- The effect that the mutations of the presets report, src/settings/mapping_ops.rs.
use fluxcope.Common.{
  ◌++◌, ℕ, ◌≡◌, refl, sym, Option, none, some, Bool, true, not, ◌&&◌, ◌||◌, [], ◌∷◌, get_elem?,
  Bool-cases, Option-cases, inl, inr, if◌then◌else◌,
}
use fluxcope.Common.Text.{Text, text_eq}
use fluxcope.Common.Text.Equality.{text_eq_iff}
use fluxcope.Common.Outcome.{ok, err, ◌>>=◌, Result-cases}
use fluxcope.Settings.{ProxySettings, ProxyPresetSettings, default_proxy}
use fluxcope.Mapping.Url.{UrlLibrary}
use fluxcope.Mapping.Diagnostics.{MappingTable, remote, local}
use fluxcope.Settings.Mutation.{changed, unchanged, table_ref, preset_ref}
use fluxcope.Settings.Mutation.Checks.{
  other_has_name, name_eq, trimmed, Checked, Settings, normalized_name, find_mapping_preset_index,
  put_preset, mutation_result,
}
use fluxcope.Settings.Mutation.Presets.{create, rename, delete, set_active, set_global, set_table}
use fluxcope.Settings.Mutation.Effect.Lookup.{
  name_eq_iff, bool_eq_iff, Settled, preset_cases, locate_cases, not-true, or_false,
  result_unchanged, put_same,
}

module _ (lib : UrlLibrary) (home : Option Text) where
  open lib use {ParseError}

  pub set_global-Settled :
      (s : Settings) (enabled : Bool) → Settled s (set_global lib home s enabled)
  unfolding set_global
  set_global-Settled none enabled = tt
  set_global-Settled (some proxy) enabled = λ h.
      let same = bool_eq_iff proxy.enable enabled (not-true _ (result_unchanged _ h)) in
      rw (sym same)

  pub set_active-Settled :
      (s : Settings) (name : Option Text) → Settled s (set_active lib home s name)
  unfolding set_active
  set_active-Settled none name = tt
  set_active-Settled (some proxy) none = λ h.
      let same = name_eq_iff proxy.active_preset none (not-true _ (result_unchanged _ h)) in
      rw (sym same)
  set_active-Settled (some proxy) (some raw) =
      elim (Result-cases (normalized_name {E = ParseError} raw)) [
        | inr (e, f) ↦ rw (set_active, f) tt
        | inl (name, f) ↦ elim (preset_cases {E = ParseError} proxy name) [
          | inr (e, g) ↦ rw (set_active, f, g) tt
          | inl (found, g, _) ↦
              rw (set_active, f, g)
                (λ h.
                  let same =
                    name_eq_iff proxy.active_preset (some name)
                      (not-true _ (result_unchanged _ h)) in
                  rw (sym same))
        ]
      ]

  pub set_table-Settled :
      (s : Settings) (raw : Text) (table : MappingTable) (enabled : Bool)
      → Settled s (set_table lib home s raw table enabled)
  unfolding set_table
  set_table-Settled s raw remote enabled =
      elim (locate_cases {E = ParseError} s raw (λ name. table_ref name remote)) [
        | inr (e, f) ↦ rw (set_table, f) tt
        | inl ((name, proxy, i, p), f, e, at) ↦
            rw (set_table, f)
              (λ h.
                let same =
                  bool_eq_iff p.map_remote.enable enabled (not-true _ (result_unchanged _ h)) in
                put_same s proxy i p _ e at (rw (sym same)))
      ]
  set_table-Settled s raw local enabled =
      elim (locate_cases {E = ParseError} s raw (λ name. table_ref name local)) [
        | inr (e, f) ↦ rw (set_table, f) tt
        | inl ((name, proxy, i, p), f, e, at) ↦
            rw (set_table, f)
              (λ h.
                let same =
                  bool_eq_iff p.map_local.enable enabled (not-true _ (result_unchanged _ h)) in
                put_same s proxy i p _ e at (rw (sym same)))
      ]

  pub delete-Settled : (s : Settings) (raw : Text) → Settled s (delete lib home s raw)
  unfolding delete
  delete-Settled s raw = elim (locate_cases {E = ParseError} s raw (λ name. preset_ref name)) [
    | inr (e, f) ↦ rw (delete, f) tt
    | inl ((name, proxy, i, p), f, e, at) ↦ rw (delete, f) (λ h. absurd cc)
  ]

  -- the end of `create`, which always reports a change
  pub appended :
      (s : Settings) (name : Text) (m : Checked ParseError (Unit {0})) (proxy : ProxySettings)
      (preset : ProxyPresetSettings)
      → Settled s (
          m >>= λ _. ok (
            some (record proxy { presets = proxy.presets ++ preset ∷ [] }),
            mutation_result (preset_ref name) true,
          ))
  appended s name (err e) proxy preset = tt
  appended s name (ok _) proxy preset = λ h. absurd cc

  pub create-Settled :
      (s : Settings) (raw : Text) (initial : Option ProxyPresetSettings)
      → Settled s (create lib home s raw initial)
  unfolding create
  create-Settled s raw initial = elim (Result-cases (normalized_name {E = ParseError} raw)) [
    | inr (e, f) ↦ rw (create, f) tt
    | inl (name, f) ↦ elim s as (λ s. Settled s (create lib home s raw initial)) [
      | none ↦ rw (create, f) (appended none name _ default_proxy _)
      | some proxy ↦ elim (Option-cases (find_mapping_preset_index proxy name)) [
        | inl g ↦ rw (create, f, g) (appended (some proxy) name _ proxy _)
        | inr (found, g) ↦ rw (create, f, g) tt
      ]
    ]
  ]

  pub renamed_same :
      (name new_name : Text) (proxy : ProxySettings) (i : ℕ) (p : ProxyPresetSettings)
      → get_elem? proxy.presets i ≡ some p
      → let matches = name_eq (trimmed proxy.active_preset) (some name) in
        let renamed = put_preset i (record p { name = new_name }) proxy in
        (if not (text_eq p.name new_name)
              || (matches && not (name_eq proxy.active_preset (some new_name)))
            then changed
            else unchanged)
          ≡ unchanged
        → some (if matches then record renamed { active_preset = some new_name } else renamed)
          ≡ some proxy
  renamed_same name new_name proxy i p at h =
      let (x, y) = or_false _ _ (result_unchanged _ h) in
      let a = (text_eq_iff p.name new_name).0 (not-true _ x) in
      let same =
        put_same (some proxy) proxy i p (record p { name = new_name }) refl at (rw (sym a)) in
      elim (Bool-cases (name_eq (trimmed proxy.active_preset) (some name))) [
        | inr m ↦ rw m same
        | inl m ↦
            let b = name_eq_iff proxy.active_preset (some new_name) (not-true _ (rw m at y)) in
            rw (m, sym b) same
      ]

  pub rename-Settled :
      (s : Settings) (raw raw_new : Text) → Settled s (rename lib home s raw raw_new)
  unfolding rename
  rename-Settled s raw raw_new = elim (Result-cases (normalized_name {E = ParseError} raw)) [
    | inr (e, f) ↦ rw (rename, f) tt
    | inl (name, f) ↦ elim (Result-cases (normalized_name {E = ParseError} raw_new)) [
      | inr (e, v) ↦ rw (rename, f, v) tt
      | inl (new_name, v) ↦ elim s as (λ s. Settled s (rename lib home s raw raw_new)) [
        | none ↦ rw (rename, f, v) tt
        | some proxy ↦ elim (preset_cases {E = ParseError} proxy name) [
          | inr (e, g) ↦ rw (rename, f, v, g) tt
          | inl ((i, p), g, at) ↦
              elim (Bool-cases
                (not (text_eq name new_name) && other_has_name new_name i 0 proxy.presets)) [
                  | inl c ↦ rw (rename, f, v, g, c) tt
                  | inr c ↦ rw (rename, f, v, g, c) (renamed_same name new_name proxy i p at)
                ]
        ]
      ]
    ]
  ]
