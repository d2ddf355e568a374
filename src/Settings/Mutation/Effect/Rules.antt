-- ===== src/Settings/Mutation/Effect/Rules.antt =====
-- The effect that the mutations of the rules report, src/settings/mapping_ops.rs.
use fluxcope.Common.{
  leb, ltb, length, ℕ, ◌≡◌, refl, sym, Option, none, some, Bool, true, ◌==◌, List, get_elem?,
  Bool-cases, Option-cases, inl, inr, arith,
}
use fluxcope.Common.Text.{Text}
use fluxcope.Common.Text.Equality.{text_eq_iff}
use fluxcope.Common.Outcome.{ok, Result-cases}
use fluxcope.Settings.{ProxySettings, ProxyPresetSettings, ProxyMapRemoteRule, ProxyMapLocalRule}
use fluxcope.Mapping.Url.{UrlLibrary}
use fluxcope.Mapping.Diagnostics.{MappingTable, remote, local}
use fluxcope.Settings.Mutation.{table_ref, rule_ref}
use fluxcope.Settings.Mutation.Checks.{
  index_or, Settings, normalized_name, require_proxy, validate_rule_fields,
}
use fluxcope.Settings.Mutation.Tables.{
  set_remote_enabled_in, set_local_enabled_in, insert_remote, insert_local, update_remote,
  update_local, update_remote_in, update_local_in, delete_rule_at, move_item, move_rule_to,
  set_enabled,
}
use fluxcope.Settings.Mutation.Effect.Lookup.{
  set_same, bool_eq_iff, Settled, preset_cases, locate_cases, not-true, or_false, result_unchanged,
  put_same,
}

module _ (lib : UrlLibrary) (home : Option Text) where
  open lib use {ParseError}

  pub delete_rule_at-Settled :
      (s : Settings) (raw : Text) (table : MappingTable) (index : ℕ)
      → Settled s (delete_rule_at lib home s raw table index)
  unfolding delete_rule_at
  delete_rule_at-Settled s raw remote index =
      elim (locate_cases {E = ParseError} s raw (λ name. rule_ref name remote index)) [
        | inr (e, f) ↦ rw (delete_rule_at, f) tt
        | inl ((name, proxy, i, p), f, e, at) ↦
            elim (Bool-cases (leb (length p.map_remote.rules) index)) [
              | inl b ↦ rw (delete_rule_at, f, b) tt
              | inr b ↦ rw (delete_rule_at, f, b) (λ h. absurd cc)
            ]
      ]
  delete_rule_at-Settled s raw local index =
      elim (locate_cases {E = ParseError} s raw (λ name. rule_ref name local index)) [
        | inr (e, f) ↦ rw (delete_rule_at, f) tt
        | inl ((name, proxy, i, p), f, e, at) ↦
            elim (Bool-cases (leb (length p.map_local.rules) index)) [
              | inl b ↦ rw (delete_rule_at, f, b) tt
              | inr b ↦ rw (delete_rule_at, f, b) (λ h. absurd cc)
            ]
      ]

  pub set_remote_enabled_in-Settled :
      (s : Settings) (name : Text) (index : ℕ) (enabled : Bool) (proxy : ProxySettings) (i : ℕ)
      (p : ProxyPresetSettings)
      → s ≡ some proxy
      → get_elem? proxy.presets i ≡ some p
      → Settled s (set_remote_enabled_in lib home proxy name index enabled i p)
  unfolding set_remote_enabled_in
  set_remote_enabled_in-Settled s name index enabled proxy i p e at =
      elim (Option-cases (get_elem? p.map_remote.rules index)) [
        | inl b ↦ rw (set_remote_enabled_in, b) tt
        | inr (rule, b) ↦
            rw (set_remote_enabled_in, b)
              (λ h.
                let same = bool_eq_iff rule.enable enabled (not-true _ (result_unchanged _ h)) in
                put_same s proxy i p _ e at (rw (sym same, set_same p.map_remote.rules index b)))
      ]

  pub set_local_enabled_in-Settled :
      (s : Settings) (name : Text) (index : ℕ) (enabled : Bool) (proxy : ProxySettings) (i : ℕ)
      (p : ProxyPresetSettings)
      → s ≡ some proxy
      → get_elem? proxy.presets i ≡ some p
      → Settled s (set_local_enabled_in lib home proxy name index enabled i p)
  unfolding set_local_enabled_in
  set_local_enabled_in-Settled s name index enabled proxy i p e at =
      elim (Option-cases (get_elem? p.map_local.rules index)) [
        | inl b ↦ rw (set_local_enabled_in, b) tt
        | inr (rule, b) ↦
            rw (set_local_enabled_in, b)
              (λ h.
                let same = bool_eq_iff rule.enable enabled (not-true _ (result_unchanged _ h)) in
                put_same s proxy i p _ e at (rw (sym same, set_same p.map_local.rules index b)))
      ]

  pub set_enabled-Settled :
      (s : Settings) (raw : Text) (table : MappingTable) (index : ℕ) (enabled : Bool)
      → Settled s (set_enabled lib home s raw table index enabled)
  unfolding set_enabled
  set_enabled-Settled s raw remote index enabled =
      elim (locate_cases {E = ParseError} s raw (λ name. rule_ref name remote index)) [
        | inr (e, f) ↦ rw (set_enabled, f) tt
        | inl ((name, proxy, i, p), f, e, at) ↦
            rw (set_enabled, f) (set_remote_enabled_in-Settled s name index enabled proxy i p e at)
      ]
  set_enabled-Settled s raw local index enabled =
      elim (locate_cases {E = ParseError} s raw (λ name. rule_ref name local index)) [
        | inr (e, f) ↦ rw (set_enabled, f) tt
        | inl ((name, proxy, i, p), f, e, at) ↦
            rw (set_enabled, f) (set_local_enabled_in-Settled s name index enabled proxy i p e at)
      ]

  pub move_item_same :
      {A : Type 0} (rules : List A) (preset : Text) (table : MappingTable) (from to : ℕ)
      {moved : List A}
      → move_item lib home rules preset table from to ≡ ok moved
      → from == to ≡ true
      → moved ≡ rules
  unfolding move_item
  move_item_same rules preset table from to h same = ground arith

  pub move_rule_to-Settled :
      (s : Settings) (raw : Text) (table : MappingTable) (from to : ℕ)
      → Settled s (move_rule_to lib home s raw table from to)
  unfolding move_rule_to
  move_rule_to-Settled s raw remote from to =
      elim (locate_cases {E = ParseError} s raw (λ name. rule_ref name remote from)) [
        | inr (e, f) ↦ rw (move_rule_to, f) tt
        | inl ((name, proxy, i, p), f, e, at) ↦
            elim (Result-cases (move_item lib home p.map_remote.rules name remote from to)) [
              | inr (error, b) ↦ rw (move_rule_to, f, b) tt
              | inl (moved, b) ↦
                  rw (move_rule_to, f, b)
                    (λ h.
                      let same = not-true _ (result_unchanged _ h) in
                      put_same s proxy i p _ e at
                        (rw (move_item_same p.map_remote.rules name remote from to b same)))
            ]
      ]
  move_rule_to-Settled s raw local from to =
      elim (locate_cases {E = ParseError} s raw (λ name. rule_ref name local from)) [
        | inr (e, f) ↦ rw (move_rule_to, f) tt
        | inl ((name, proxy, i, p), f, e, at) ↦
            elim (Result-cases (move_item lib home p.map_local.rules name local from to)) [
              | inr (error, b) ↦ rw (move_rule_to, f, b) tt
              | inl (moved, b) ↦
                  rw (move_rule_to, f, b)
                    (λ h.
                      let same = not-true _ (result_unchanged _ h) in
                      put_same s proxy i p _ e at
                        (rw (move_item_same p.map_local.rules name local from to b same)))
            ]
      ]

  pub insert_remote-Settled :
      (s : Settings) (raw : Text) (index : Option ℕ) (rule : ProxyMapRemoteRule)
      → Settled s (insert_remote lib home s raw index rule)
  unfolding insert_remote
  insert_remote-Settled s raw index rule =
      elim (locate_cases {E = ParseError} s raw (λ name. table_ref name remote)) [
        | inr (e, f) ↦ rw (insert_remote, f) tt
        | inl ((name, proxy, i, p), f, e, at) ↦
            let at_index = index_or index (length p.map_remote.rules) in
            elim (Result-cases
              (validate_rule_fields lib home name remote at_index rule.from rule.to)) [
                | inr (error, b) ↦ rw (insert_remote, f, b) tt
                | inl (_, b) ↦ elim (Bool-cases (ltb (length p.map_remote.rules) at_index)) [
                  | inl c ↦ rw (insert_remote, f, b, c) tt
                  | inr c ↦ rw (insert_remote, f, b, c) (λ h. absurd cc)
                ]
              ]
      ]

  pub insert_local-Settled :
      (s : Settings) (raw : Text) (index : Option ℕ) (rule : ProxyMapLocalRule)
      → Settled s (insert_local lib home s raw index rule)
  unfolding insert_local
  insert_local-Settled s raw index rule =
      elim (locate_cases {E = ParseError} s raw (λ name. table_ref name local)) [
        | inr (e, f) ↦ rw (insert_local, f) tt
        | inl ((name, proxy, i, p), f, e, at) ↦
            let at_index = index_or index (length p.map_local.rules) in
            elim (Result-cases
              (validate_rule_fields lib home name local at_index rule.from rule.to)) [
                | inr (error, b) ↦ rw (insert_local, f, b) tt
                | inl (_, b) ↦ elim (Bool-cases (ltb (length p.map_local.rules) at_index)) [
                  | inl c ↦ rw (insert_local, f, b, c) tt
                  | inr c ↦ rw (insert_local, f, b, c) (λ h. absurd cc)
                ]
              ]
      ]

  pub update_remote_rule-Settled :
      (s : Settings) (name : Text) (index : ℕ) (from to : Text) (proxy : ProxySettings) (i : ℕ)
      (p : ProxyPresetSettings)
      → s ≡ some proxy
      → get_elem? proxy.presets i ≡ some p
      → Settled s (update_remote_in lib home proxy name index from to i p)
  unfolding update_remote_in
  update_remote_rule-Settled s name index from to proxy i p e at =
      elim (Option-cases (get_elem? p.map_remote.rules index)) [
        | inl b ↦ rw (update_remote_in, b) tt
        | inr (rule, b) ↦
            rw (update_remote_in, b)
              (λ h.
                let (x, y) = or_false _ _ (result_unchanged _ h) in
                let a = (text_eq_iff rule.from from).0 (not-true _ x) in
                let c = (text_eq_iff rule.to to).0 (not-true _ y) in
                put_same s proxy i p _ e at
                  (rw (sym a, sym c, set_same p.map_remote.rules index b)))
      ]

  pub update_remote-Settled :
      (s : Settings) (raw : Text) (index : ℕ) (from to : Text)
      → Settled s (update_remote lib home s raw index from to)
  unfolding update_remote require_proxy
  update_remote-Settled s raw index from to =
      elim (Result-cases (normalized_name {E = ParseError} raw)) [
        | inr (e, f) ↦ rw (update_remote, f) tt
        | inl (name, f) ↦
            elim (Result-cases (validate_rule_fields lib home name remote index from to)) [
              | inr (e, v) ↦ rw (update_remote, f, v) tt
              | inl (_, v) ↦
                  elim s as (λ s. Settled s (update_remote lib home s raw index from to)) [
                    | none ↦ rw (update_remote, f, v) tt
                    | some proxy ↦ elim (preset_cases {E = ParseError} proxy name) [
                      | inr (e, g) ↦ rw (update_remote, f, v, g) tt
                      | inl ((i, p), g, at) ↦
                          rw (update_remote, f, v, g)
                            (update_remote_rule-Settled (some proxy) name index from to proxy i p
                              refl at)
                    ]
                  ]
            ]
      ]

  pub update_local_rule-Settled :
      (s : Settings) (name : Text) (index : ℕ) (from to : Text) (proxy : ProxySettings) (i : ℕ)
      (p : ProxyPresetSettings)
      → s ≡ some proxy
      → get_elem? proxy.presets i ≡ some p
      → Settled s (update_local_in lib home proxy name index from to i p)
  unfolding update_local_in
  update_local_rule-Settled s name index from to proxy i p e at =
      elim (Option-cases (get_elem? p.map_local.rules index)) [
        | inl b ↦ rw (update_local_in, b) tt
        | inr (rule, b) ↦
            rw (update_local_in, b)
              (λ h.
                let (x, y) = or_false _ _ (result_unchanged _ h) in
                let a = (text_eq_iff rule.from from).0 (not-true _ x) in
                let c = (text_eq_iff rule.to to).0 (not-true _ y) in
                put_same s proxy i p _ e at (rw (sym a, sym c, set_same p.map_local.rules index b)))
      ]

  pub update_local-Settled :
      (s : Settings) (raw : Text) (index : ℕ) (from to : Text)
      → Settled s (update_local lib home s raw index from to)
  unfolding update_local require_proxy
  update_local-Settled s raw index from to =
      elim (Result-cases (normalized_name {E = ParseError} raw)) [
        | inr (e, f) ↦ rw (update_local, f) tt
        | inl (name, f) ↦
            elim (Result-cases (validate_rule_fields lib home name local index from to)) [
              | inr (e, v) ↦ rw (update_local, f, v) tt
              | inl (_, v) ↦
                  elim s as (λ s. Settled s (update_local lib home s raw index from to)) [
                    | none ↦ rw (update_local, f, v) tt
                    | some proxy ↦ elim (preset_cases {E = ParseError} proxy name) [
                      | inr (e, g) ↦ rw (update_local, f, v, g) tt
                      | inl ((i, p), g, at) ↦
                          rw (update_local, f, v, g)
                            (update_local_rule-Settled (some proxy) name index from to proxy i p
                              refl at)
                    ]
                  ]
            ]
      ]
