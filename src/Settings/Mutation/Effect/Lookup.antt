-- ===== src/Settings/Mutation/Effect/Lookup.antt =====
-- What it takes for an operation to report its effect truly, src/settings/mapping_ops.rs: lemmas on
-- the lookups and tests that the operations share.
use fluxcope.Common.{
  ◌⊎◌, ℕ, zero, suc, ◌+◌, ◌≡◌, refl, sym, ap, Option, none, some, Bool, true, false, not, ◌||◌,
  List, [], ◌∷◌, get_elem?, set, Bool-cases, Option-cases, inl, inr, arith, if◌then◌else◌,
}
use fluxcope.Common.Text.{Text, text_eq, trim}
use fluxcope.Common.Text.Equality.{text_eq_iff}
use fluxcope.Common.Outcome.{ok, err, Result-cases}
use fluxcope.Settings.{ProxySettings, ProxyPresetSettings}
use fluxcope.Mapping.Diagnostics.{find_preset}
use fluxcope.Settings.Mutation.{
  MutationEffect, changed, unchanged, MappingObjectRef, MappingMutationError, proxy_not_found,
  proxy_does_not_exist,
}
use fluxcope.Settings.Mutation.Checks.{
  preset_not_found_error, locate, name_eq, bool_eq, Settings, Applied, normalized_name,
  require_proxy, find_mapping_preset_index, require_preset_index, put_preset,
}

module _ {ℓ} {A : Type ℓ} where
  pub set_same : (xs : List A) (i : ℕ) {x : A} → get_elem? xs i ≡ some x → set xs i x ≡ xs
  set_same [] i h = refl
  set_same (x ∷ xs) zero h = ground arith
  set_same (x ∷ xs) (suc i) h = ap (◌∷◌ x) (set_same xs i h)

pub name_eq_iff : (a b : Option Text) → name_eq a b ≡ true → a ≡ b
unfolding name_eq
name_eq_iff none none h = refl
name_eq_iff none (some b) h = cc
name_eq_iff (some a) none h = cc
name_eq_iff (some a) (some b) h = ap some ((text_eq_iff a b).0 h)

pub bool_eq_iff : (a b : Bool) → bool_eq a b ≡ true → a ≡ b
bool_eq_iff true true h = refl
bool_eq_iff true false h = cc
bool_eq_iff false true h = cc
bool_eq_iff false false h = refl

-- `find_preset` gives an index, counted from `start`, with the preset there
pub find_preset-get_elem? :
    (name : Text) (start : ℕ) (presets : List ProxyPresetSettings) {i : ℕ} {p : ProxyPresetSettings}
    → find_preset name start presets ≡ some (i, p)
    → (j : ℕ) × (i ≡ start + j)
      × (get_elem? presets j ≡ some p)
      × (text_eq (trim p.name) name ≡ true)
unfolding find_preset
find_preset-get_elem? name start [] h = cc
find_preset-get_elem? name start (q ∷ presets) {i} {p} h =
    elim (Bool-cases (text_eq (trim q.name) name)) [
      | inl e ↦ (0, ground arith, ground arith, ground arith)
      | inr e ↦
          let (j, a, b, c) = find_preset-get_elem? name (suc start) presets (rw e at h) in
          (suc j, omega arith, b, c)
    ]

module _ {E : Type 0} where
  -- an operation that reports no change gives back the settings
  abbrev pub Settled : Settings → Applied E → Type 0
  Settled settings (err e) = Unit
  Settled settings (ok (after, result)) = result.effect ≡ unchanged → after ≡ settings

  -- a preset looked up is there, or it is an error
  pub preset_cases :
      (proxy : ProxySettings) (name : Text)
      → ((found : ℕ × ProxyPresetSettings) × (require_preset_index {E = E} proxy name ≡ ok found)
          × (get_elem? proxy.presets found.0 ≡ some found.1))
        ⊎ ((e : _) × (require_preset_index {E = E} proxy name ≡ err e))
  unfolding require_preset_index find_mapping_preset_index
  preset_cases proxy name = elim (Option-cases (find_preset (trim name) 0 proxy.presets)) [
    | inl e ↦
        inr (preset_not_found_error name, rw (require_preset_index, find_mapping_preset_index, e))
    | inr ((i, p), e) ↦
        let (j, a, b, c) = find_preset-get_elem? (trim name) 0 proxy.presets e in
        let k : i ≡ j = omega (arith, a) in
        inl ((i, p), rw (require_preset_index, find_mapping_preset_index, e), rw k b)
  ]

  pub with_name :
      (s : Settings) (raw : Text) (location : Text → MappingObjectRef) (name : Text)
      → normalized_name {E = E} raw ≡ ok name
      → ((found : Text × ProxySettings × ℕ × ProxyPresetSettings) × (locate {E = E} s raw location
            ≡ ok found)
          × (s ≡ some found.1)
          × (get_elem? found.1.presets found.2 ≡ some found.3))
        ⊎ ((e : MappingMutationError E) × (locate {E = E} s raw location ≡ err e))
  unfolding locate require_proxy
  with_name none raw location name f = inr (
    record { kind = proxy_not_found; location = location name; message = proxy_does_not_exist },
    rw (locate, f),
  )
  with_name (some proxy) raw location name f = elim (preset_cases proxy name) [
    | inr (e, g) ↦ inr (e, rw (locate, f, g))
    | inl ((i, p), g, at) ↦ inl ((name, proxy, i, p), rw (locate, f, g), refl, at)
  ]

  pub locate_cases :
      (s : Settings) (raw : Text) (location : Text → MappingObjectRef)
      → ((found : Text × ProxySettings × ℕ × ProxyPresetSettings) × (locate {E = E} s raw location
            ≡ ok found)
          × (s ≡ some found.1)
          × (get_elem? found.1.presets found.2 ≡ some found.3))
        ⊎ ((e : MappingMutationError E) × (locate {E = E} s raw location ≡ err e))
  unfolding locate
  locate_cases s raw location = elim (Result-cases (normalized_name {E = E} raw)) [
    | inr (e, f) ↦ inr (e, rw (locate, f))
    | inl (name, f) ↦ with_name s raw location name f
  ]

pub not-true : (b : Bool) → not b ≡ false → b ≡ true
not-true true h = refl
not-true false h = cc

pub or_false : (a b : Bool) → a || b ≡ false → (a ≡ false) × (b ≡ false)
or_false a b h = (ground arith, ground arith)

-- a result that is not a change comes of a test that failed
pub result_unchanged : (b : Bool) → (if b then changed else unchanged) ≡ unchanged → b ≡ false
result_unchanged true h = cc
result_unchanged false h = refl

pub MutationEffect-cases : (e : MutationEffect) → (e ≡ changed) ⊎ (e ≡ unchanged)
MutationEffect-cases changed = inl refl
MutationEffect-cases unchanged = inr refl

-- the settings found, put back as they were
pub put_same :
    (s : Settings) (proxy : ProxySettings) (i : ℕ) (p q : ProxyPresetSettings)
    → s ≡ some proxy
    → get_elem? proxy.presets i ≡ some p
    → q ≡ p
    → some (put_preset i q proxy) ≡ s
put_same s proxy i p q e at same = rw (same, set_same proxy.presets i at) (sym e)
