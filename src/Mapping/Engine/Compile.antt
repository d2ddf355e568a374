-- ===== src/Mapping/Engine/Compile.antt =====
-- What compiling a preset's rules makes, src/mapping.rs: a table of the enabled rules that parse, in
-- their order, and a diagnostic for each enabled rule that does not.
use fluxcope.Common.{
  ℕ, suc, ◌+◌, ◌≡◌, refl, sym, ap, ◌∙◌, Option, some, true, false, List, [], ◌∷◌, ◌++◌, length,
  length-append, append-nil, append_assoc, Bool-cases, inl, inr, arith, if◌then◌else◌,
}
use fluxcope.Common.Text.{Text}
use fluxcope.Common.Outcome.{ok, err, Result-cases}
use fluxcope.Settings.{ProxySettings, ProxyPresetSettings}
use fluxcope.Mapping.Url.{
  MappingValueError, UrlLibrary, OriginKey, RemoteTarget, Checked, parse_rule_url,
  parse_remote_target,
}
use fluxcope.Mapping.Diagnostics.{
  MappingDiagnostic, MappingDiagnosticCode, MappingField, from_field, to_field, warning,
  invalid_rule_source, invalid_rule_target, skipped, MappingTable, remote, local, active_preset,
}
use fluxcope.Mapping.Rules.{match_target, or_else}
use fluxcope.Mapping.Rules.Resolve.{
  RuleEntry, insert_all, path_is, is_host, last_match, match_target-insert_all, insert_all-append,
}
use fluxcope.Mapping.Engine.{
  LocatedTarget, RuleValues, compile_rule, remote_values, local_values, Table, compile_rules,
  compile, compile_preset, compile_remote_rules, compile_local_rules, MappingEngine, parse_local,
  default_engine,
}

-- how many of the rules are enabled
abbrev pub enabled_count : List RuleValues → ℕ
enabled_count [] = 0
enabled_count (rule ∷ rules) = (if rule.enable then 1 else 0) + enabled_count rules

module _ (lib : UrlLibrary) (home : Option Text) where
  module _ {T : Type 0} (table : MappingTable) (parse : Text → Checked lib T)
      (preset_index : ℕ) where
    -- the pattern and located target of one rule, if it is enabled and both its URLs parse
    abbrev pub entry_of : ℕ → RuleValues → List (RuleEntry (LocatedTarget T))
    entry_of index rule = elim rule.enable [
      | false ↦ []
      | true ↦ elim (parse_rule_url lib rule.from) [
        | err e ↦ []
        | ok pattern_ ↦ elim (parse rule.to) [
          | err e ↦ []
          | ok target ↦
              (
                pattern_,
                record {
                  target = target;
                  location = record {
                    preset_index = preset_index;
                    table = table;
                    rule_index = index;
                  };
                },
              )
              ∷ []
        ]
      ]
    ]

    abbrev pub entries_of : ℕ → List RuleValues → List (RuleEntry (LocatedTarget T))
    entries_of index [] = []
    entries_of index (rule ∷ rules) = entry_of index rule ++ entries_of (suc index) rules

    -- the diagnostic of one rule at its own index, if it is enabled and one of its URLs does not parse:
    -- that of `from`, or else that of `to`
    abbrev pub fault_at :
        ℕ
        → MappingDiagnosticCode
        → MappingField
        → MappingValueError lib.ParseError
        → MappingDiagnostic lib.ParseError
    fault_at index code field e = record {
      severity = warning;
      code = code;
      location = some (record {
        preset_index = preset_index;
        table = table;
        rule_index = index;
        field = field;
      });
      message = skipped table index field e;
    }

    abbrev pub fault_of : ℕ → RuleValues → List (MappingDiagnostic lib.ParseError)
    fault_of index rule = elim rule.enable [
      | false ↦ []
      | true ↦ elim (parse_rule_url lib rule.from) [
        | err e ↦ fault_at index invalid_rule_source from_field e ∷ []
        | ok pattern_ ↦ elim (parse rule.to) [
          | err e ↦ fault_at index invalid_rule_target to_field e ∷ []
          | ok target ↦ []
        ]
      ]
    ]

    abbrev pub faults_of : ℕ → List RuleValues → List (MappingDiagnostic lib.ParseError)
    faults_of index [] = []
    faults_of index (rule ∷ rules) = fault_of index rule ++ faults_of (suc index) rules

    record Compiles (index : ℕ) (rules : List RuleValues) (before after : Table lib home T)
        : Type 0 where
      entries : after.rules ≡ insert_all before.rules (entries_of index rules)
      diagnosed : after.diagnostics ≡ before.diagnostics ++ faults_of index rules
      counted :
          length after.diagnostics + length (entries_of index rules)
          ≡ length before.diagnostics + enabled_count rules

    compile_rule-Compiles :
        (index : ℕ) (rule : RuleValues) (before : Table lib home T)
        → Compiles index
            (rule ∷ [])
            before
            (compile_rule lib home table parse preset_index index rule before)
    unfolding compile_rule
    compile_rule-Compiles index rule before = elim (Bool-cases rule.enable) [
      | inr h ↦ record {
        entries = rw (compile_rule, h);
        diagnosed = rw (compile_rule, fault_of, h) (sym (append-nil before.diagnostics));
        counted = rw (compile_rule, h);
      }
      | inl h ↦ elim (Result-cases (parse_rule_url lib rule.from)) [
        | inr (e, f) ↦ record {
          entries = rw (compile_rule, entry_of, h, f);
          diagnosed = rw (compile_rule, fault_of, h, f) refl;
          counted =
              rw (compile_rule, entry_of, h, f) (omega (arith, length-append before.diagnostics));
        }
        | inl (p, f) ↦ elim (Result-cases (parse rule.to)) [
          | inr (e, g) ↦ record {
            entries = rw (compile_rule, entry_of, h, f, g);
            diagnosed = rw (compile_rule, fault_of, h, f, g) refl;
            counted =
                rw (compile_rule, entry_of, h, f, g)
                  (omega (arith, length-append before.diagnostics));
          }
          | inl (t, g) ↦ record {
            entries = rw (compile_rule, entry_of, h, f, g);
            diagnosed = rw (compile_rule, fault_of, h, f, g) (sym (append-nil before.diagnostics));
            counted = rw (compile_rule, entry_of, h, f, g);
          }
        ]
      ]
    ]

    compile_rules-Compiles :
        (index : ℕ) (rules : List RuleValues) (before : Table lib home T)
        → Compiles index rules before
            (compile_rules lib home table parse preset_index index rules before)
    unfolding compile_rules
    compile_rules-Compiles index [] before = record {
      entries = refl;
      diagnosed = sym (append-nil before.diagnostics);
      counted = refl;
    }
    compile_rules-Compiles index (rule ∷ rules) before =
        let next = compile_rule lib home table parse preset_index index rule before in
        let one = compile_rule-Compiles index rule before in
        let rest = compile_rules-Compiles (suc index) rules next in
        let es = entry_of index rule in
        let a = insert_all-append before.rules es (entries_of (suc index) rules) in
        let single : entries_of index (rule ∷ []) ≡ es = append-nil es in
        record {
          entries =
              rest.entries
              ∙ ap (λ r. insert_all r (entries_of (suc index) rules))
                  (rw one.entries (ap (insert_all before.rules) single))
              ∙ sym a;
          diagnosed =
              rest.diagnosed
              ∙ ap (λ d. d ++ faults_of (suc index) rules)
                  (one.diagnosed
                    ∙ ap (λ d. before.diagnostics ++ d) (append-nil (fault_of index rule)))
              ∙ append_assoc before.diagnostics (fault_of index rule) (faults_of (suc index) rules);
          counted =
              let l = length-append es (entries_of (suc index) rules) in
              let k = ap length single in omega (arith, one.counted, rest.counted, l, k);
        }

  -- the entries that the preset's tables stand for, a table switched off having none
  abbrev pub remote_entries :
      ℕ → ProxyPresetSettings → List (RuleEntry (LocatedTarget RemoteTarget))
  remote_entries i preset =
      if preset.map_remote.enable
      then entries_of remote (parse_remote_target lib) i 0 (remote_values preset.map_remote.rules)
      else []

  abbrev pub local_entries : ℕ → ProxyPresetSettings → List (RuleEntry (LocatedTarget Text))
  local_entries i preset =
      if preset.map_local.enable
      then entries_of local (parse_local lib home) i 0 (local_values preset.map_local.rules)
      else []

  -- the diagnostics of the preset's rules, those of the remote table first
  abbrev pub preset_faults : ℕ → ProxyPresetSettings → List (MappingDiagnostic lib.ParseError)
  preset_faults i preset =
      (if preset.map_remote.enable
        then faults_of remote (parse_remote_target lib) i 0 (remote_values preset.map_remote.rules)
        else [])
      ++ (if preset.map_local.enable
          then faults_of local (parse_local lib home) i 0 (local_values preset.map_local.rules)
          else [])

  -- the rules that are enabled in the tables that are
  abbrev pub enabled_rules : ProxyPresetSettings → ℕ
  enabled_rules preset =
      (if preset.map_remote.enable
        then enabled_count (remote_values preset.map_remote.rules)
        else 0)
      + (if preset.map_local.enable then enabled_count (local_values preset.map_local.rules) else 0)

  abbrev pub last_entry : {T : Type 0} → Text → OriginKey → List (RuleEntry T) → Option T
  last_entry path origin es =
      or_else (last_match (path_is path) origin es) (last_match is_host origin es)

  pub record CompilesPreset (i : ℕ) (preset : ProxyPresetSettings) (engine : MappingEngine lib home)
      : Type 0 where
    pub remotes :
        (origin : OriginKey) (path : Text)
        → match_target engine.remote_rules origin path
          ≡ last_entry path origin (remote_entries i preset)
    pub locals :
        (origin : OriginKey) (path : Text)
        → match_target engine.local_rules origin path
          ≡ last_entry path origin (local_entries i preset)
    pub diagnosed : engine.diagnostics ≡ preset_faults i preset
    pub accounted :
        length engine.diagnostics
          + length (remote_entries i preset)
          + length (local_entries i preset)
        ≡ enabled_rules preset

  record PresetTables (i : ℕ) (preset : ProxyPresetSettings) (engine : MappingEngine lib home)
      : Type 0 where
    remote_table : engine.remote_rules ≡ insert_all [] (remote_entries i preset)
    local_table : engine.local_rules ≡ insert_all [] (local_entries i preset)
    all_diagnosed : engine.diagnostics ≡ preset_faults i preset
    all_counted :
        length engine.diagnostics
          + length (remote_entries i preset)
          + length (local_entries i preset)
        ≡ enabled_rules preset

  compile_preset-PresetTables :
      (i : ℕ) (preset : ProxyPresetSettings)
      → PresetTables i preset (compile_preset lib home i preset (default_engine lib home))
  unfolding compile_preset compile_remote_rules compile_local_rules
  compile_preset-PresetTables i preset =
      let none_yet : Table lib home RemoteTarget = record { rules = []; diagnostics = [] } in
      let remotes = remote_values preset.map_remote.rules in
      let locals = local_values preset.map_local.rules in
      let r = compile_rules-Compiles remote (parse_remote_target lib) i 0 remotes none_yet in
      let l = compile_rules-Compiles local (parse_local lib home) i 0 locals in
      let first = compile_rules lib home remote (parse_remote_target lib) i 0 remotes none_yet in
      let only = l (record { rules = []; diagnostics = [] }) in
      let both = l (record { rules = []; diagnostics = first.diagnostics }) in
      elim (Bool-cases preset.map_remote.enable) [
        | inl a ↦ elim (Bool-cases preset.map_local.enable) [
          | inl b ↦
              rw (compile_preset, a, b)
                (record {
                  remote_table = r.entries;
                  local_table = both.entries;
                  all_diagnosed =
                      both.diagnosed
                      ∙ ap (λ d. d ++ faults_of local (parse_local lib home) i 0 locals)
                          r.diagnosed;
                  all_counted = omega (arith, r.counted, both.counted);
                })
          | inr b ↦
              rw (compile_preset, a, b)
                (record {
                  remote_table = r.entries;
                  local_table = refl;
                  all_diagnosed =
                      r.diagnosed
                      ∙ sym (append-nil (faults_of remote (parse_remote_target lib) i 0 remotes));
                  all_counted = omega (arith, r.counted);
                })
        ]
        | inr a ↦ elim (Bool-cases preset.map_local.enable) [
          | inl b ↦
              rw (compile_preset, a, b)
                (record {
                  remote_table = refl;
                  local_table = only.entries;
                  all_diagnosed = only.diagnosed;
                  all_counted = omega (arith, only.counted);
                })
          | inr b ↦
              rw (compile_preset, a, b)
                (record {
                  remote_table = refl;
                  local_table = refl;
                  all_diagnosed = refl;
                  all_counted = refl;
                })
        ]
      ]

  -- Compiling proxy settings that are enabled and whose active preset is found with no diagnostic makes
  -- an engine in which the rule that matches a path of an origin, in either table, is the preset's last
  -- enabled and valid rule for exactly that path of that origin, or else its last one for the whole
  -- origin, or else none, a table switched off having no rules; and its diagnostics
  -- are, for each enabled rule of such a table that is not in it, in order, one that names the rule by
  -- its own preset, table and index, and the URL that does not parse with its error.
  pub compile-CompilesPreset :
      (proxy : ProxySettings) (i : ℕ) (preset : ProxyPresetSettings)
      → proxy.enable ≡ true
      → active_preset {E = lib.ParseError} proxy ≡ ([], some (i, preset))
      → CompilesPreset i preset (compile lib home (some proxy))
  unfolding compile
  compile-CompilesPreset proxy i preset h f =
      let t = compile_preset-PresetTables i preset in
      rw (compile, f, h)
        (record {
          remotes = λ origin path.
              rw t.remote_table (match_target-insert_all (remote_entries i preset) origin path);
          locals = λ origin path.
              rw t.local_table (match_target-insert_all (local_entries i preset) origin path);
          diagnosed = t.all_diagnosed;
          accounted = t.all_counted;
        })
