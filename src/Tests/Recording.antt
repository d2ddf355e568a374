-- ===== src/Tests/Recording.antt =====
-- The theorems of the recording prefilter at concrete inputs.
use fluxcope.Common.{
  ℕ, ◌≡◌, refl, true, ◌&&◌, Option, none, some, List, [], ◌∷◌, ◌++◌, if◌then◌else◌,
}
use fluxcope.Common.Text.{
  Text, text, text_eq, is_empty, contains_text, contains_char, strip_prefix, to_ascii_lowercase,
}
use fluxcope.Common.Outcome.{Result, ok, err}
use fluxcope.Recording.{
  default_port_alternate_url, GlobLibrary, RecordingPrefilterSettings, any, compile, includes,
}
use fluxcope.Recording.Alternate.{default_port_alternate_url-inverse}
use fluxcope.Recording.Prefilter.{
  IsOtherForm, glob_includes, faults, is_built, set_fault, includes-compile,
}

-- globs that match the text they are, of which the empty one is invalid
abbrev build_exact : Text → Result ℕ Text
build_exact pattern_text = if is_empty pattern_text then err 0 else ok pattern_text

abbrev port_of : Text → Option (Option ℕ)
port_of authority = if contains_text (text ":443") authority then some (some 443) else some none

exact_any :
    (globs set : List Text)
    → ◌≡◌ {A = Result ℕ (List Text)} (ok globs) (ok set)
    → (t : Text) → any (λ g. text_eq g t) set ≡ any (λ g. text_eq g t) globs
exact_any globs set e t = cc (e)

abbrev exact : GlobLibrary
exact = record {
  Glob = Text;
  GlobSet = List Text;
  Error = ℕ;
  build = build_exact;
  build_set = λ globs. ok globs;
  glob_is_match = text_eq;
  is_match = λ set t. any (λ g. text_eq g t) set;
  is_match_any = exact_any;
  authority_port = port_of;
}

abbrev settings : RecordingPrefilterSettings
settings = record {
  enable = true;
  include_url_patterns =
      record { pattern_text = []; enable = true }
      ∷ record { pattern_text = text "https://a:443/"; enable = true }
      ∷ [];
}

includes-compile_example :
    (other : Option Text) × IsOtherForm exact (text "https://a/") other
    × (includes exact (compile exact settings).0 (text "https://a/") ≡ (
        is_built exact (ok (text "https://a:443/" ∷ []))
        && any (glob_includes exact (text "https://a/") other) (text "https://a:443/" ∷ [])))
    × ((compile exact settings).1
        ≡ faults exact 0 settings.include_url_patterns
          ++ set_fault exact (text "https://a:443/" ∷ []) (ok (text "https://a:443/" ∷ [])))
includes-compile_example = includes-compile exact settings (text "https://a/")

default_port_alternate_url-inverse_example :
    (alternate_url : Text) × (alternate_url ≡ text "HTTPS://a:443/x")
    × (default_port_alternate_url exact (text "HTTPS://a/x") ≡ some alternate_url)
    × (default_port_alternate_url exact alternate_url ≡ some (text "HTTPS://a/x"))
unfolding text_eq to_ascii_lowercase contains_text strip_prefix contains_char
default_port_alternate_url-inverse_example =
    default_port_alternate_url-inverse exact (text "HTTPS") (text "a/x") (text ":443") 443 refl refl
      refl
