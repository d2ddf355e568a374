-- ===== src/Recording/Prefilter.antt =====
-- What a compiled prefilter includes and reports, src/recording.rs.
use fluxcope.Common.{
  subst, if_false, sat_add, if◌then◌else◌, ℕ, suc, ◌+◌, ◌≡◌, refl, sym, ◌∙◌, Bool, true, false,
  ◌&&◌, ◌||◌, not, Option, none, some, List, [], ◌∷◌, ◌++◌, ◌==◌, arith, length, min, ◌≤◌, u64_max,
  append-nil, append_assoc,
}
use fluxcope.Common.Text.{Text}
use fluxcope.Common.Outcome.{Result, ok, err}
use fluxcope.Recording.OtherForm.{OtherForm, OtherForm-alternate, alternate-OtherForm}
use fluxcope.Recording.{
  GlobLibrary, RecordingPrefilterPatternSettings, RecordingPrefilterSettings, any,
  PrefilterDiagnostic, pattern_ignored, matcher_failed, RecordingPrefilterMatcher, include_none,
  patterns, Compiling, compile_patterns, matcher_of, compile, includes_by, includes,
  default_port_alternate_url,
}

module _ (lib : GlobLibrary) where
  open lib use {Glob, GlobSet, Error}

  -- a glob matches the URL, or its other form, if it has one
  abbrev pub glob_includes : Text → Option Text → Glob → Bool
  glob_includes url other glob =
      lib.glob_is_match glob url
      || elim other [ none ↦ false | some form ↦ lib.glob_is_match glob form ]

  -- the globs of the enabled patterns that parse
  abbrev pub valid_globs : List RecordingPrefilterPatternSettings → List Glob
  valid_globs [] = []
  valid_globs (p ∷ ps) = if not p.enable then valid_globs ps else elim (lib.build p.pattern_text) [
    | ok glob ↦ glob ∷ valid_globs ps
    | err e ↦ valid_globs ps
  ]

  -- a diagnostic for each enabled pattern that does not
  abbrev pub faults : ℕ → List RecordingPrefilterPatternSettings → List (PrefilterDiagnostic lib)
  faults index [] = []
  faults index (p ∷ ps) =
      if not p.enable then faults (suc index) ps else elim (lib.build p.pattern_text) [
        | ok glob ↦ faults (suc index) ps
        | err e ↦ pattern_ignored index p.pattern_text e ∷ faults (suc index) ps
      ]

  same_compiling :
      {b b' : List Glob} {v v' : ℕ} {d d' : List (PrefilterDiagnostic lib)}
      → b ≡ b'
      → v ≡ v'
      → d ≡ d'
      → ◌≡◌ {A = Compiling lib}
          (record { builder = b; valid_patterns = v; diagnostics = d })
          (record { builder = b'; valid_patterns = v'; diagnostics = d' })
  same_compiling e f g = cc (e, f, g)

  abbrev Collects : ℕ → List RecordingPrefilterPatternSettings → Compiling lib → Type 0
  Collects index ps done = compile_patterns lib index ps done ≡ record {
    builder = done.builder ++ valid_globs ps;
    valid_patterns = min (done.valid_patterns + length (valid_globs ps)) u64_max;
    diagnostics = done.diagnostics ++ faults index ps;
  }

  compile_patterns-Collects :
      (index : ℕ) (ps : List RecordingPrefilterPatternSettings) (done : Compiling lib)
      → done.valid_patterns ≤ u64_max
      → Collects index ps done
  unfolding compile_patterns
  compile_patterns-Collects index [] done h =
      same_compiling (sym (append-nil _)) (omega (arith, h)) (sym (append-nil _))
  compile_patterns-Collects index (p ∷ ps) done h =
      on (λ done h. compile_patterns-Collects (suc index) ps done h) p.enable
        (lib.build p.pattern_text)
    where
      -- one turn, for a pattern that is enabled or not and parses or not
      on :
          ((done : Compiling lib) → done.valid_patterns ≤ u64_max → Collects (suc index) ps done)
          → (enabled : Bool) (built : Result Error Glob)
          → compile_patterns lib (suc index) ps (
              if not enabled then done else elim built [
                | ok glob ↦ record done {
                  builder = done.builder ++ glob ∷ [];
                  valid_patterns = sat_add done.valid_patterns 1;
                }
                | err e ↦ record done {
                  diagnostics = done.diagnostics ++ pattern_ignored index p.pattern_text e ∷ [];
                }
              ])
            ≡ (let globs =
                  if not enabled
                  then valid_globs ps
                  else elim built [ ok glob ↦ glob ∷ valid_globs ps | err e ↦ valid_globs ps ] in
                record {
                  builder = done.builder ++ globs;
                  valid_patterns = min (done.valid_patterns + length globs) u64_max;
                  diagnostics =
                      done.diagnostics
                      ++ (if not enabled then faults (suc index) ps else elim built [
                        | ok glob ↦ faults (suc index) ps
                        | err e ↦ pattern_ignored index p.pattern_text e ∷ faults (suc index) ps
                      ]);
                })
      on next false built = next done h
      on next true (ok glob) =
          next
            (record {
              builder = done.builder ++ glob ∷ [];
              valid_patterns = sat_add done.valid_patterns 1;
              diagnostics = done.diagnostics;
            })
            (omega arith)
          ∙ same_compiling (append_assoc done.builder (glob ∷ []) (valid_globs ps))
              (omega (arith, h)) refl
      on next true (err e) =
          next
            (record done {
              diagnostics = done.diagnostics ++ pattern_ignored index p.pattern_text e ∷ [];
            })
            h
          ∙ same_compiling refl refl (
              append_assoc done.diagnostics (pattern_ignored index p.pattern_text e ∷ [])
                (faults (suc index) ps))

  any-or :
      (f g : Glob → Bool) (globs : List Glob)
      → any (λ x. f x || g x) globs ≡ (any f globs || any g globs)
  any-or f g [] = refl
  any-or f g (x ∷ globs) = rw (any-or f g globs) (on (f x) (g x) (any f globs) (any g globs))
    where
      on : (a b c d : Bool) → ((a || b) || (c || d)) ≡ ((a || c) || (b || d))
      on true b c d = refl
      on false true true d = refl
      on false true false d = refl
      on false false c d = refl

  any-none : (f : Glob → Bool) (globs : List Glob) → any (λ x. f x || false) globs ≡ any f globs
  any-none f [] = refl
  any-none f (x ∷ globs) = rw (any-none f globs) (on (f x))
    where
      on : (a : Bool) → ((a || false) || any f globs) ≡ (a || any f globs)
      on true = refl
      on false = refl

  or_false : (a : Bool) → (a || false) ≡ a
  or_false true = refl
  or_false false = refl

  -- a built set includes what one of its globs does
  includes_by-any :
      (globs : List Glob) (set : GlobSet) (url : Text)
      → lib.build_set globs ≡ ok set
      → includes_by lib (patterns set) url
        ≡ any (glob_includes url (default_port_alternate_url lib url)) globs
  includes_by-any globs set url b = on (default_port_alternate_url lib url)
    where
      on :
          (o : Option Text)
          → (lib.is_match set url
              || elim o [ none ↦ false | some alternate_url ↦ lib.is_match set alternate_url ])
            ≡ any
                (λ glob. lib.glob_is_match glob url || elim o [
                  | none ↦ false
                  | some alternate_url ↦ lib.glob_is_match glob alternate_url
                ])
                globs
      on none =
          or_false (lib.is_match set url)
          ∙ lib.is_match_any globs set b url
          ∙ sym (any-none (λ g. lib.glob_is_match g url) globs)
      on (some t) =
          rw (lib.is_match_any globs set b url, lib.is_match_any globs set b t)
            (sym (any-or (λ g. lib.glob_is_match g url) (λ g. lib.glob_is_match g t) globs))

  abbrev pub is_built : Result Error GlobSet → Bool
  is_built (ok _) = true
  is_built (err _) = false

  -- the diagnostic of a set of some globs that is not built
  abbrev pub set_fault : List Glob → Result Error GlobSet → List (PrefilterDiagnostic lib)
  set_fault [] built = []
  set_fault (_ ∷ _) (ok _) = []
  set_fault (_ ∷ _) (err e) = matcher_failed e ∷ []

  abbrev Decides :
      List Glob
      → List (PrefilterDiagnostic lib)
      → Text
      → (RecordingPrefilterMatcher lib × List (PrefilterDiagnostic lib))
      → Type 0
  Decides globs diagnostics url made =
      (includes_by lib made.0 url ≡ (
        is_built (lib.build_set globs)
        && any (glob_includes url (default_port_alternate_url lib url)) globs))
      × (made.1 ≡ diagnostics ++ set_fault globs (lib.build_set globs))

  and_false : (a : Bool) → (a && false) ≡ false
  and_false true = refl
  and_false false = refl

  abbrev set_made :
      List (PrefilterDiagnostic lib)
      → Result Error GlobSet
      → RecordingPrefilterMatcher lib × List (PrefilterDiagnostic lib)
  set_made diagnostics (ok set) = (patterns set, diagnostics)
  set_made diagnostics (err e) = (include_none, diagnostics ++ matcher_failed e ∷ [])

  not_zero : (n : ℕ) → (min (0 + suc n) u64_max == 0) ≡ false
  not_zero n = ground arith

  matcher_of-Decides :
      (p : RecordingPrefilterPatternSettings) (ps : List RecordingPrefilterPatternSettings)
      (globs : List Glob) (diagnostics : List (PrefilterDiagnostic lib)) (url : Text)
      → Decides globs diagnostics url (
          matcher_of lib (p ∷ ps) (record {
            builder = globs;
            valid_patterns = min (0 + length globs) u64_max;
            diagnostics = diagnostics;
          }))
  matcher_of-Decides p ps [] diagnostics url =
      (sym (and_false (is_built (lib.build_set []))), sym (append-nil _))
  matcher_of-Decides p ps (g ∷ gs) diagnostics url =
      subst (Decides (g ∷ gs) diagnostics url)
        (sym (
          if_false (min (0 + suc (length gs)) u64_max == 0) (include_none, diagnostics)
            (set_made diagnostics (lib.build_set (g ∷ gs))) (not_zero (length gs))))
        (on (lib.build_set (g ∷ gs)) refl)
    where
      on :
          (built : Result Error GlobSet)
          → lib.build_set (g ∷ gs) ≡ built
          → (includes_by lib (set_made diagnostics built).0 url ≡ (
              is_built built
              && any (glob_includes url (default_port_alternate_url lib url)) (g ∷ gs)))
            × ((set_made diagnostics built).1 ≡ diagnostics ++ set_fault (g ∷ gs) built)
      on (ok set) b = (includes_by-any (g ∷ gs) set url b, sym (append-nil _))
      on (err e) b = (refl, refl)

  abbrev pub is_nil : List RecordingPrefilterPatternSettings → Bool
  is_nil [] = true
  is_nil (_ ∷ _) = false

  compiled-Decides :
      (p : RecordingPrefilterPatternSettings) (ps : List RecordingPrefilterPatternSettings)
      (url : Text)
      → Decides (valid_globs (p ∷ ps)) (faults 0 (p ∷ ps)) url (
          matcher_of lib (p ∷ ps) (
            compile_patterns lib 0
              (p ∷ ps)
              (record { builder = []; valid_patterns = 0; diagnostics = [] })))
  compiled-Decides p ps url =
      subst
        (λ done.
          Decides (valid_globs (p ∷ ps)) (faults 0 (p ∷ ps)) url (matcher_of lib (p ∷ ps) done))
        (sym (
          compile_patterns-Collects 0 (p ∷ ps)
            (record { builder = []; valid_patterns = 0; diagnostics = [] }) (omega arith)))
        (matcher_of-Decides p ps (valid_globs (p ∷ ps)) (faults 0 (p ∷ ps)) url)

  -- the other form of a URL, or none where there is none
  abbrev pub IsOtherForm : Text → Option Text → Type 0
  IsOtherForm url none = (form : Text) → OtherForm lib url form → ⊥
  IsOtherForm url (some form) = OtherForm lib url form

  alternate-IsOtherForm : (url : Text) → IsOtherForm url (default_port_alternate_url lib url)
  alternate-IsOtherForm url = on (default_port_alternate_url lib url) refl
    where
      on : (o : Option Text) → default_port_alternate_url lib url ≡ o → IsOtherForm url o
      on none e = λ form o. absurd (cc (e, OtherForm-alternate lib url form o))
      on (some form) e = alternate-OtherForm lib url form e

  -- Whether a compiled prefilter includes a URL: it does if it is disabled, or if there are no patterns,
  -- or if the set of the enabled patterns that parse is built and one of them matches the URL or its
  -- other form, with the default port written out or left out, if it has one. It reports each enabled pattern that does not
  -- parse, in order and by its index, and after these a set of some globs that is not built.
  pub includes-compile :
      (settings : RecordingPrefilterSettings) (url : Text)
      → (other : Option Text) × IsOtherForm url other
        × (includes lib (compile lib settings).0 url ≡ (
            not settings.enable
            || (is_nil settings.include_url_patterns
                || (is_built (lib.build_set (valid_globs settings.include_url_patterns))
                    && any (glob_includes url other) (valid_globs settings.include_url_patterns)))))
        × ((compile lib settings).1
            ≡ faults 0 settings.include_url_patterns
              ++ (if is_nil settings.include_url_patterns
                  then []
                  else set_fault
                      (valid_globs settings.include_url_patterns)
                      (lib.build_set (valid_globs settings.include_url_patterns))))
  unfolding compile includes compile_patterns
  includes-compile settings url =
      let (included, reported) = on settings.include_url_patterns settings.enable in
      (default_port_alternate_url lib url, alternate-IsOtherForm url, included, reported)
    where
      on :
          (ps : List RecordingPrefilterPatternSettings) (enable : Bool)
          → (includes lib
                (compile lib (record { enable = enable; include_url_patterns = ps })).0
                url
              ≡ (not enable
                  || (is_nil ps
                      || (is_built (lib.build_set (valid_globs ps))
                          && any
                              (glob_includes url (default_port_alternate_url lib url))
                              (valid_globs ps)))))
            × ((compile lib (record { enable = enable; include_url_patterns = ps })).1
                ≡ faults 0 ps
                  ++ (if is_nil ps
                      then []
                      else set_fault (valid_globs ps) (lib.build_set (valid_globs ps))))
      on [] true = (refl, refl)
      on [] false = (refl, refl)
      on (p ∷ ps) true = let d = compiled-Decides p ps url in (d.0, d.1)
      on (p ∷ ps) false = (refl, (compiled-Decides p ps url).1)
