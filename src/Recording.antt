-- ===== src/Recording.antt =====
-- The recording prefilter, src/recording.rs: which effective URLs are recorded. The `globset` crate and
-- the parser of `http::uri::Authority` are a parameter.
pub mod Alternate
pub mod OtherForm
pub mod Prefilter
use fluxcope.Common.{
  ℕ, zero, suc, ◌+◌, ◌≡◌, Bool, true, false, ◌&&◌, ◌||◌, not, Option, none, some, List, [], ◌∷◌,
  ◌++◌, ◌==◌, if◌then◌else◌, sat_add,
}
use fluxcope.Common.Text.{Text, text, text_eq, to_ascii_lowercase, strip_prefix, contains_char}
use fluxcope.Common.Outcome.{Result, ok, err}
use fluxcope.Common.Outcome.Panic.{◌>>=◌}

abbrev pub any : {A : Type 0} → (A → Bool) → List A → Bool
any f [] = false
any f (x ∷ xs) = f x || any f xs

-- `globset`, with the options that the source sets, and `Authority`: its port, when it parses. A set
-- matches what one of its globs matches.
pub record GlobLibrary : Type 1 where
  pub Glob : Type 0
  pub GlobSet : Type 0
  pub Error : Type 0
  pub build : Text → Result Error Glob
  pub build_set : List Glob → Result Error GlobSet
  pub glob_is_match : Glob → Text → Bool
  pub is_match : GlobSet → Text → Bool
  pub is_match_any :
      (globs : List Glob) (set : GlobSet)
      → build_set globs ≡ ok set
      → (t : Text) → is_match set t ≡ any (λ g. glob_is_match g t) globs
  pub authority_port : Text → Option (Option ℕ)

pub record RecordingPrefilterPatternSettings : Type 0 where
  pub pattern_text : Text
  pub enable : Bool

pub record RecordingPrefilterSettings : Type 0 where
  pub enable : Bool
  pub include_url_patterns : List RecordingPrefilterPatternSettings

-- `find("://")`, as what is before it and after it
abbrev pub split_scheme : Text → Option (Text × Text)
split_scheme [] = none
split_scheme (c ∷ s) =
    let later = split_scheme s in
    elim (strip_prefix (text "://") (c ∷ s)) [
      | some rest ↦ some ([], rest)
      | none ↦ do (scheme, rest) ← later; some (c ∷ scheme, rest)
    ]

-- the authority and what is after it
abbrev pub split_authority : Text → Text × Text
split_authority [] = ([], [])
split_authority (c ∷ s) =
    let later = split_authority s in
    if contains_char c (text "/?#") then ([], c ∷ s) else (c ∷ later.0, later.1)

-- what is before `rfind(':')`
abbrev pub before_last_colon : Text → Option Text
before_last_colon [] = none
before_last_colon (c ∷ s) =
    let later = before_last_colon s in
    elim later [ some before ↦ some (c ∷ before) | none ↦ if c == b':' then some [] else none ]

abbrev pub default_port_of : Text → Option (ℕ × Text)
default_port_of scheme =
    if text_eq (to_ascii_lowercase scheme) (text "https")
    then some (443, text ":443")
    else if text_eq (to_ascii_lowercase scheme) (text "http")
    then some (80, text ":80")
    else none

module _ (lib : GlobLibrary) where
  open lib use {Glob, GlobSet, Error}

  -- `default_port_alternate_url` after the URL is cut
  abbrev pub alternate : Text → ℕ × Text → Text → Text → Option Text
  alternate scheme (default_port, default_port_text) authority rest =
      elim (lib.authority_port authority) [
        | none ↦ none
        | some none ↦ some (scheme ++ (text "://" ++ (authority ++ (default_port_text ++ rest))))
        | some (some port) ↦
            if port == default_port
            then elim (before_last_colon authority) [
              | none ↦ none
              | some host ↦ some (scheme ++ (text "://" ++ (host ++ rest)))
            ]
            else none
      ]

  unfoldable pub default_port_alternate_url : Text → Option Text
  unfolding strip_prefix text_eq to_ascii_lowercase contains_char
  default_port_alternate_url effective_url = do
    (scheme, after) ← split_scheme effective_url
    default_port ← default_port_of scheme
    alternate scheme default_port (split_authority after).0 (split_authority after).1

  pub data PrefilterDiagnostic : Type 0 where
    pattern_ignored : ℕ → Text → Error → PrefilterDiagnostic
    matcher_failed : Error → PrefilterDiagnostic

  pub data RecordingPrefilterMatcher : Type 0 where
    include_all include_none : RecordingPrefilterMatcher
    patterns : GlobSet → RecordingPrefilterMatcher

  pub record RecordingPrefilter : Type 0 where
    pub enabled : Bool
    pub matcher : RecordingPrefilterMatcher

  -- the variables of the loop of `compile`
  pub record Compiling : Type 0 where
    pub builder : List Glob
    pub valid_patterns : ℕ
    pub diagnostics : List PrefilterDiagnostic

  abbrev pub compile_pattern : ℕ → RecordingPrefilterPatternSettings → Compiling → Compiling
  compile_pattern index p done = if not p.enable then done else elim (lib.build p.pattern_text) [
    | ok glob ↦ record done {
      builder = done.builder ++ glob ∷ [];
      valid_patterns = sat_add done.valid_patterns 1;
    }
    | err e ↦ record done {
      diagnostics = done.diagnostics ++ pattern_ignored index p.pattern_text e ∷ [];
    }
  ]

  unfoldable pub compile_patterns :
      ℕ → List RecordingPrefilterPatternSettings → Compiling → Compiling
  compile_patterns index [] done = done
  compile_patterns index (p ∷ ps) done =
      compile_patterns (suc index) ps (compile_pattern index p done)

  -- the matcher, with the diagnostic of a set that is not built
  abbrev pub matcher_of :
      List RecordingPrefilterPatternSettings
      → Compiling
      → RecordingPrefilterMatcher × List PrefilterDiagnostic
  matcher_of [] done = (include_all, done.diagnostics)
  matcher_of (_ ∷ _) done =
      if done.valid_patterns == 0
      then (include_none, done.diagnostics)
      else elim (lib.build_set done.builder) [
        | ok set ↦ (patterns set, done.diagnostics)
        | err e ↦ (include_none, done.diagnostics ++ matcher_failed e ∷ [])
      ]

  unfoldable pub compile :
      RecordingPrefilterSettings → RecordingPrefilter × List PrefilterDiagnostic
  unfolding compile_patterns
  compile settings =
      let made = matcher_of settings.include_url_patterns (
        compile_patterns 0 settings.include_url_patterns
          (record { builder = []; valid_patterns = 0; diagnostics = [] })) in
      (record { enabled = settings.enable; matcher = made.0 }, made.1)

  abbrev pub includes_by : RecordingPrefilterMatcher → Text → Bool
  includes_by include_all url = true
  includes_by include_none url = false
  includes_by (patterns set) url = lib.is_match set url || elim (default_port_alternate_url url) [
    | none ↦ false
    | some alternate_url ↦ lib.is_match set alternate_url
  ]

  unfoldable pub includes : RecordingPrefilter → Text → Bool
  unfolding default_port_alternate_url
  includes prefilter effective_url =
      if not prefilter.enabled then true else includes_by prefilter.matcher effective_url
