-- ===== src/Tests/Rules.antt =====
-- The theorems of the mapping rules and their mutations at concrete inputs.
use fluxcope.Common.{
  ℕ, ◌≡◌, ◌≤◌, refl, true, none, some, List, [], ◌∷◌, arith, u64_max, length, take,
}
use fluxcope.Common.Text.{Text, text, text_eq, is_whitespace, trim, trim_start}
use fluxcope.Common.Outcome.{ok}
use fluxcope.Settings.{ProxySettings, ProxyPresetSettings, ProxyMapRemoteRule, default_local}
use fluxcope.Settings.Mutation.{set_rule_enabled}
use fluxcope.Settings.Mutation.Apply.{apply_mapping_mutation, apply_mapping_mutation_owned}
use fluxcope.Settings.Mutation.Effect.{kept, apply_mapping_mutation-owned}
use fluxcope.Settings.Mutation.Move.{Moves, move_item-Moves}
use fluxcope.Mapping.Url.{UrlLibrary, OriginKey}
use fluxcope.Mapping.Diagnostics.{
  remote, active_preset, active_preset_diagnostic, active_name, has_preset, find_preset,
}
use fluxcope.Mapping.Rules.{match_target, or_else}
use fluxcope.Mapping.Rules.Resolve.{
  RuleEntry, insert_all, path_is, is_host, last_match, match_target-insert_all,
}
use fluxcope.Mapping.Engine.{compile, map_request, trace_request}
use fluxcope.Mapping.Engine.Agree.{Agrees, map_request-trace_request}
use fluxcope.Mapping.Engine.Compile.{CompilesPreset, compile-CompilesPreset}
use fluxcope.Mapping.Validate.{validate_proxy_settings_capped}
use fluxcope.Mapping.Validate.Capped.{validate_proxy_settings_capped-take}

-- a library whose URLs are texts, each read as one of host `a`
abbrev lib : UrlLibrary
lib = record {
  Url = Text;
  ParseError = Text;
  Uri = Text;
  parse = λ t. ok t;
  scheme = λ _. text "http";
  has_host = λ _. true;
  host_str = λ _. some (text "a");
  port = λ _. none;
  port_or_known_default = λ _. some 80;
  path = λ _. text "/";
  username = λ _. [];
  password = λ _. none;
  query = λ _. none;
  fragment = λ _. none;
  as_str = λ u. u;
  set_scheme = λ u _. u;
  set_host = λ u _. u;
  set_port = λ u _. u;
  set_path = λ u _. u;
  clear_fragment = λ u. u;
  uri_to_string = λ u. u;
  parse_uri = λ t. some t;
}

abbrev rule : ProxyMapRemoteRule
rule = record { from = text "http://a/"; to = text "http://b"; enable = true }

abbrev preset : ProxyPresetSettings
preset = record {
  name = text "p";
  map_remote = record { enable = true; rules = rule ∷ [] };
  map_local = default_local;
}

abbrev proxy : ProxySettings
proxy = record { enable = true; active_preset = some (text "p"); presets = preset ∷ [] }

compile-CompilesPreset_example : CompilesPreset lib none 0 preset (compile lib none (some proxy))
unfolding active_preset active_preset_diagnostic active_name has_preset find_preset trim trim_start
    is_whitespace text_eq
compile-CompilesPreset_example = compile-CompilesPreset lib none proxy 0 preset refl refl

map_request-trace_request_example :
    Agrees lib none
      (map_request lib none (compile lib none (some proxy)) (text "http://a/"))
      (trace_request lib none (compile lib none (some proxy)) (text "http://a/"))
map_request-trace_request_example =
    map_request-trace_request lib none (compile lib none (some proxy)) (text "http://a/")

abbrev origin : OriginKey
origin = record { scheme = text "http"; host = text "a"; port = 80 }

abbrev entries : List (RuleEntry ℕ)
entries =
    (record { origin = origin; path = none }, 1)
    ∷ (record { origin = origin; path = some (text "/x") }, 2)
    ∷ (record { origin = origin; path = some (text "/x") }, 3)
    ∷ []

match_target-insert_all_example :
    match_target (insert_all [] entries) origin (text "/x")
    ≡ or_else (last_match (path_is (text "/x")) origin entries) (last_match is_host origin entries)
match_target-insert_all_example = match_target-insert_all entries origin (text "/x")

validate_proxy_settings_capped-take_example :
    let capped = validate_proxy_settings_capped lib none proxy 1 in
    let uncapped = validate_proxy_settings_capped lib none proxy u64_max in
    (capped.0 ≡ take 1 uncapped.0) × (capped.1 ≡ uncapped.1) × (length capped.0 ≤ capped.1)
validate_proxy_settings_capped-take_example =
    validate_proxy_settings_capped-take lib none proxy 1 (omega arith)

apply_mapping_mutation-owned_example :
    apply_mapping_mutation lib none (some proxy) (set_rule_enabled (text " p ") remote 0 true)
    ≡ kept lib none (some proxy) (
        apply_mapping_mutation_owned lib none
          (some proxy)
          (set_rule_enabled (text " p ") remote 0 true))
apply_mapping_mutation-owned_example =
    apply_mapping_mutation-owned lib none (some proxy) (set_rule_enabled (text " p ") remote 0 true)

abbrev numbers : List ℕ
numbers = 5 ∷ 6 ∷ 7 ∷ []

move_item-Moves_example : Moves lib none numbers (text "p") remote 0 2
move_item-Moves_example =
    move_item-Moves lib none numbers (text "p") remote 0 2 (omega arith) (omega arith)
