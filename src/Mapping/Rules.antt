-- ===== src/Mapping/Rules.antt =====
-- The compiled rules, `CompiledRules` of src/mapping.rs. A hash map is an association list whose
-- insertion replaces the value of a key that is there.
pub mod Resolve
use fluxcope.Common.{ℕ, Bool, true, false, Option, none, some, List, [], ◌∷◌, if◌then◌else◌}
use fluxcope.Common.Text.{Text, text_eq}
use fluxcope.Mapping.Url.{OriginKey, origin_eq, RulePattern}

module _ {A : Type 0} where
  -- `HashMap<String, T>`
  unfoldable pub path_insert : Text → A → List (Text × A) → List (Text × A)
  path_insert key value [] = (key, value) ∷ []
  path_insert key value ((k, v) ∷ m) =
      if text_eq key k then (k, value) ∷ m else (k, v) ∷ path_insert key value m

  unfoldable pub path_get : Text → List (Text × A) → Option A
  path_get key [] = none
  path_get key ((k, v) ∷ m) = if text_eq key k then some v else path_get key m

pub record OriginRules (T : Type 0) : Type 0 where
  pub host_rule : Option T
  pub path_rules : List (Text × T)

abbrev pub no_rules : {T : Type 0} → OriginRules T
no_rules = record { host_rule = none; path_rules = [] }

abbrev pub CompiledRules : Type 0 → Type 0
CompiledRules T = List (OriginKey × OriginRules T)

module _ {T : Type 0} where
  -- `by_origin.entry(origin).or_default()`, and the update of what is there
  unfoldable pub update_origin :
      OriginKey → (OriginRules T → OriginRules T) → CompiledRules T → CompiledRules T
  update_origin origin update [] = (origin, update no_rules) ∷ []
  update_origin origin update ((k, rules) ∷ m) =
      if origin_eq origin k
      then (k, update rules) ∷ m
      else (k, rules) ∷ update_origin origin update m

  abbrev pub put_rule : Option Text → T → OriginRules T → OriginRules T
  put_rule (some path) target rules = record rules {
    path_rules = path_insert path target rules.path_rules;
  }
  put_rule none target rules = record rules { host_rule = some target }

  unfoldable pub insert : RulePattern → T → CompiledRules T → CompiledRules T
  insert pattern_ target rules = update_origin pattern_.origin (put_rule pattern_.path target) rules

  abbrev pub is_empty : CompiledRules T → Bool
  is_empty [] = true
  is_empty (_ ∷ _) = false

  unfoldable pub origin_get : OriginKey → CompiledRules T → Option (OriginRules T)
  origin_get origin [] = none
  origin_get origin ((k, rules) ∷ m) =
      if origin_eq origin k then some rules else origin_get origin m

  abbrev pub or_else : Option T → Option T → Option T
  or_else (some t) other = some t
  or_else none other = other

  -- the rule of the whole path has the higher priority
  abbrev pub best_of : Text → OriginRules T → Option T
  best_of path rules = or_else (path_get path rules.path_rules) rules.host_rule

  unfoldable pub match_target : CompiledRules T → OriginKey → Text → Option T
  match_target rules origin path = elim (origin_get origin rules) [
    | none ↦ none
    | some found ↦ best_of path found
  ]
