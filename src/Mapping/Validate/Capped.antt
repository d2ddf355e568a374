-- ===== src/Mapping/Validate/Capped.antt =====
-- Capped validation against uncapped validation, src/mapping.rs.
use fluxcope.Common.{
  ℕ, zero, suc, min, ◌≡◌, ◌≤◌, refl, sym, ap, ◌∙◌, Option, none, some, true, false, List, [], ◌∷◌,
  ◌++◌, length, take, length-append, length-take, ltb, u64_max, Bool-cases, Option-cases, inl, inr,
  arith, if◌then◌else◌,
}
use fluxcope.Common.Text.{Text, is_empty, trim}
use fluxcope.Settings.{ProxySettings, ProxyPresetSettings}
use fluxcope.Mapping.Url.{UrlLibrary, MappingValueError}
use fluxcope.Mapping.Diagnostics.{
  MappingDiagnostic, MappingTable, remote, local, active_preset_diagnostic,
}
use fluxcope.Mapping.Engine.{RuleValues, remote_values, local_values}
use fluxcope.Mapping.Validate.{
  report, source_diagnostic, target_diagnostic, DiagnosticCollector, new_collector, push, name_seen,
  source_error, target_error, validate_rules, validate_name, validate_presets,
  validate_proxy_settings_capped,
}

module _ {A : Type 0} where
  take_nil : (n : ℕ) → take {A = A} n [] ≡ []
  take_nil zero = refl
  take_nil (suc n) = refl

  -- one more element, under a limit
  take-snoc :
      (n : ℕ) (xs : List A) (x : A)
      → take n (xs ++ x ∷ [])
        ≡ (if ltb (length (take n xs)) n then take n xs ++ x ∷ [] else take n xs)
  take-snoc zero xs x = refl
  take-snoc (suc n) [] x = let k : ltb 0 (suc n) ≡ true = ground arith in rw (take_nil n, k)
  take-snoc (suc n) (y ∷ xs) x = elim (Bool-cases (ltb (length (take n xs)) n)) [
    | inl h ↦
        let k : ltb (suc (length (take n xs))) (suc n) ≡ true = ground arith in
        rw k (ap (◌∷◌ y) (rw h at (take-snoc n xs x)))
    | inr h ↦
        let k : ltb (suc (length (take n xs))) (suc n) ≡ false = ground arith in
        rw k (ap (◌∷◌ y) (rw h at (take-snoc n xs x)))
  ]

  take-take : (m n : ℕ) (xs : List A) → m ≤ n → take m (take n xs) ≡ take m xs
  take-take zero n xs h = refl
  take-take (suc m) zero xs h = absurd (omega arith)
  take-take (suc m) (suc n) [] h = refl
  take-take (suc m) (suc n) (x ∷ xs) h = ap (◌∷◌ x) (take-take m n xs (omega arith))

module _ {E : Type 0} where
  -- a collector that was pushed just these diagnostics
  record Collects (limit : ℕ) (c : DiagnosticCollector E) (all : List (MappingDiagnostic E))
      : Type 0 where
    bounded_by : c.limit ≡ limit
    kept : c.diagnostics ≡ take limit all
    counted : c.total ≡ min (length all) u64_max

  push-Collects :
      {limit : ℕ} (d : MappingDiagnostic E) (c : DiagnosticCollector E)
      (all : List (MappingDiagnostic E))
      → Collects limit c all
      → Collects limit (push d c) (all ++ d ∷ [])
  unfolding push
  push-Collects {limit} d c all h = record {
    bounded_by = h.bounded_by;
    kept = rw (h.kept, h.bounded_by) (sym (take-snoc limit all d));
    counted = omega (arith, h.counted, length-append all (d ∷ []));
  }

  -- two collectors, of any limits, that were pushed the same
  abbrev Alike : ℕ → ℕ → DiagnosticCollector E → DiagnosticCollector E → Type 0
  Alike m n c d = (all : List (MappingDiagnostic E)) × Collects m c all × Collects n d all

  push-Alike :
      {m n : ℕ} (x : MappingDiagnostic E) (c d : DiagnosticCollector E)
      → Alike m n c d
      → Alike m n (push x c) (push x d)
  push-Alike x c d (all, a, b) = (all ++ x ∷ [], push-Collects x c all a, push-Collects x d all b)

  fresh_Alike : (m n : ℕ) → Alike m n (new_collector m) (new_collector n)
  fresh_Alike m n = (
    [],
    record { bounded_by = refl; kept = sym (take_nil m); counted = omega arith },
    record { bounded_by = refl; kept = sym (take_nil n); counted = omega arith },
  )

  Alike-take :
      (limit : ℕ)
      → limit ≤ u64_max
      → (c d : DiagnosticCollector E) → Alike limit u64_max c d
      → (c.diagnostics ≡ take limit d.diagnostics)
        × (c.total ≡ d.total)
        × (length c.diagnostics ≤ c.total)
  Alike-take limit h c d (all, a, b) = (
    rw (a.kept, b.kept) (sym (take-take limit u64_max all h)),
    a.counted ∙ sym b.counted,
    (let l = length-take limit all in let k = ap length a.kept in omega (arith, l, k, a.counted)),
  )

module _ (lib : UrlLibrary) (home : Option Text) (m n : ℕ) where
  open lib use {ParseError}

  abbrev Collector : Type 0
  Collector = DiagnosticCollector ParseError

  report-Alike :
      (e : Option (MappingValueError ParseError))
      (diagnostic : MappingValueError ParseError → MappingDiagnostic ParseError) (c d : Collector)
      → Alike m n c d
      → Alike m n (report lib home e diagnostic c) (report lib home e diagnostic d)
  unfolding report
  report-Alike none diagnostic c d h = h
  report-Alike (some e) diagnostic c d h = push-Alike (diagnostic e) c d h

  validate_rules-Alike :
      (i : ℕ) (table : MappingTable) (index : ℕ) (rules : List RuleValues) (c d : Collector)
      → Alike m n c d
      → Alike m n
          (validate_rules lib home i table index rules c)
          (validate_rules lib home i table index rules d)
  unfolding validate_rules
  validate_rules-Alike i table index [] c d h = h
  validate_rules-Alike i table index (rule ∷ rules) c d h =
      validate_rules-Alike i table (suc index) rules _ _ (
        report-Alike (target_error lib home table rule.to)
          (target_diagnostic lib home i table index) _ _
          (report-Alike (source_error lib home rule.from) (source_diagnostic lib home i table index)
            c d h))

  -- the same for a preset's name, with the names seen the same
  validate_name-Alike :
      (raw : Text) (names : List Text) (c d : Collector)
      → Alike m n c d
      → Alike m n (validate_name lib home raw names c).0 (validate_name lib home raw names d).0
        × ((validate_name lib home raw names c).1 ≡ (validate_name lib home raw names d).1)
  unfolding validate_name
  validate_name-Alike raw names c d h = elim (Bool-cases (is_empty (trim raw))) [
    | inl e ↦ rw (validate_name, e) (push-Alike _ c d h, refl)
    | inr e ↦ elim (Bool-cases (name_seen (trim raw) names)) [
      | inl f ↦ rw (validate_name, e, f) (push-Alike _ c d h, refl)
      | inr f ↦ rw (validate_name, e, f) (h, refl)
    ]
  ]

  validate_presets-Alike :
      (i : ℕ) (presets : List ProxyPresetSettings) (names : List Text) (c d : Collector)
      → Alike m n c d
      → Alike m n
          (validate_presets lib home i presets names c)
          (validate_presets lib home i presets names d)
  unfolding validate_presets
  validate_presets-Alike i [] names c d h = h
  validate_presets-Alike i (p ∷ presets) names c d h =
      let (named, same) = validate_name-Alike p.name names c d h in
      let r = validate_rules-Alike i remote 0 (remote_values p.map_remote.rules) _ _ named in
      let l = validate_rules-Alike i local 0 (local_values p.map_local.rules) _ _ r in
      rw same (validate_presets-Alike (suc i) presets _ _ _ l)

module _ (lib : UrlLibrary) (home : Option Text) where
  open lib use {ParseError}

  -- Validation capped at a limit that a word holds returns the first diagnostics, up to the limit, of
  -- those that validation with no cap returns, and the same total; and the total is never less than
  -- the number of diagnostics returned.
  pub validate_proxy_settings_capped-take :
      (proxy : ProxySettings) (limit : ℕ)
      → limit ≤ u64_max
      → let capped = validate_proxy_settings_capped lib home proxy limit in
        let uncapped = validate_proxy_settings_capped lib home proxy u64_max in
        (capped.0 ≡ take limit uncapped.0) × (capped.1 ≡ uncapped.1) × (length capped.0 ≤ capped.1)
  unfolding validate_proxy_settings_capped
  validate_proxy_settings_capped-take proxy limit h =
      let r =
        validate_presets-Alike lib home limit u64_max 0 proxy.presets [] _ _
          (fresh_Alike limit u64_max) in
      elim (Option-cases (active_preset_diagnostic {E = ParseError} proxy)) [
        | inl e ↦ rw (validate_proxy_settings_capped, e) (Alike-take limit h _ _ r)
        | inr (x, e) ↦
            rw (validate_proxy_settings_capped, e) (Alike-take limit h _ _ (push-Alike _ _ _ r))
      ]
