-- ===== src/Mapping/Url.antt =====
-- The URLs of mapping rules, src/mapping.rs. Parsing and editing a URL is the `url` and `http` crates'
-- work, and a parameter; so is the value of HOME.
use fluxcope.Common.{
  ℕ, Bool, true, false, ◌&&◌, ◌||◌, not, Option, none, some, [], ◌∷◌, ◌++◌, ◌==◌, if◌then◌else◌,
}
use fluxcope.Common.Text.{
  Text, text, text_eq, is_empty, trim, to_ascii_lowercase, strip_prefix, after_once, contains_char,
}
use fluxcope.Common.Outcome.{Result, ok, err, ◌>>=◌}

-- `url::Url` and `http::Uri`, as the source uses them. A failed `set_scheme`, `set_host` or `set_port`,
-- whose result the source drops, leaves the URL as it was.
pub record UrlLibrary : Type 1 where
  pub Url : Type 0
  pub ParseError : Type 0
  pub Uri : Type 0
  pub parse : Text → Result ParseError Url
  pub scheme : Url → Text
  pub has_host : Url → Bool
  pub host_str : Url → Option Text
  pub port : Url → Option ℕ
  pub port_or_known_default : Url → Option ℕ
  pub path : Url → Text
  pub username : Url → Text
  pub password : Url → Option Text
  pub query : Url → Option Text
  pub fragment : Url → Option Text
  pub as_str : Url → Text
  pub set_scheme : Url → Text → Url
  pub set_host : Url → Text → Url
  pub set_port : Url → Option ℕ → Url
  pub set_path : Url → Text → Url
  pub clear_fragment : Url → Url
  pub uri_to_string : Uri → Text
  pub parse_uri : Text → Option Uri

-- `MappingValueError`: each fixed message by a name of its own
pub data MappingValueError (E : Type 0) : Type 0 where
  value_is_empty path_is_empty scheme_must_be_http missing_host missing_known_port :
      MappingValueError E
  userinfo_not_supported query_not_supported fragment_not_supported : MappingValueError E
  home_is_not_set : MappingValueError E
  url : E → MappingValueError E

pub record OriginKey : Type 0 where
  pub scheme : Text
  pub host : Text
  pub port : ℕ

unfoldable pub origin_eq : OriginKey → OriginKey → Bool
origin_eq a b = text_eq a.scheme b.scheme && text_eq a.host b.host && a.port == b.port

pub record RulePattern : Type 0 where
  pub origin : OriginKey
  pub path : Option Text

pub record RemoteTarget : Type 0 where
  pub scheme : Text
  pub host : Text
  pub port : Option ℕ
  pub path : Option Text

abbrev is_some {ℓ} : {A : Type ℓ} → Option A → Bool
is_some none = false
is_some (some _) = true

abbrev pub is_http : Text → Bool
is_http scheme = text_eq scheme (text "http") || text_eq scheme (text "https")

-- `explicit_path`: whether a `/` follows the scheme's separator
unfoldable pub explicit_path : Text → Bool
explicit_path raw = elim (after_once (text "://") raw) [
  | none ↦ false
  | some rest ↦ contains_char b'/' rest
]

abbrev explicit : Text → Text → Option Text
explicit raw path = if explicit_path raw then some path else none

-- whether `PathBuf::push` puts a separator behind the path
unfoldable pub needs_separator : Text → Bool
needs_separator [] = false
needs_separator (c ∷ []) = not (c == b'/')
needs_separator (c ∷ d ∷ s) = needs_separator (d ∷ s)

abbrev is_absolute : Text → Bool
is_absolute [] = false
is_absolute (c ∷ _) = c == b'/'

-- `PathBuf::join` on Unix
unfoldable pub join : Text → Text → Text
unfolding needs_separator
join base rest =
    if is_absolute rest
    then rest
    else if needs_separator base
    then base ++ (text "/" ++ rest)
    else base ++ rest

module _ (lib : UrlLibrary) where
  open lib use {Url, ParseError}

  abbrev pub Checked : Type 0 → Type 0
  Checked A = Result (MappingValueError ParseError) A

  unfoldable pub origin_from_url : Url → Checked OriginKey
  origin_from_url u = elim (lib.host_str u) [
    | none ↦ err missing_host
    | some host ↦ elim (lib.port_or_known_default u) [
      | none ↦ err missing_known_port
      | some port ↦ ok (record {
        scheme = to_ascii_lowercase (lib.scheme u);
        host = to_ascii_lowercase host;
        port = port;
      })
    ]
  ]

  abbrev parse_raw : Text → Checked Url
  parse_raw raw = elim (lib.parse raw) [ ok u ↦ ok u | err e ↦ err (url e) ]

  -- the checks on a parsed URL
  unfoldable pub check_http_url : Url → Checked Url
  check_http_url u =
      if not (is_http (lib.scheme u))
      then err scheme_must_be_http
      else if not (lib.has_host u)
      then err missing_host
      else if not (is_empty (lib.username u)) || is_some (lib.password u)
      then err userinfo_not_supported
      else if is_some (lib.query u)
      then err query_not_supported
      else if is_some (lib.fragment u)
      then err fragment_not_supported
      else ok u

  unfoldable pub parse_http_url : Text → Checked Url
  unfolding check_http_url
  parse_http_url raw =
      if is_empty raw then err value_is_empty else (do u ← parse_raw raw; check_http_url u)

  unfoldable pub parse_rule_url : Text → Checked RulePattern
  unfolding parse_http_url origin_from_url explicit_path
  parse_rule_url raw = do
    u ← parse_http_url (trim raw)
    origin ← origin_from_url u
    ok (record { origin = origin; path = explicit (trim raw) (lib.path u) })

  unfoldable pub parse_remote_target : Text → Checked RemoteTarget
  unfolding parse_http_url explicit_path
  parse_remote_target raw = do
    u ← parse_http_url (trim raw)
    elim (lib.host_str u) [
      | none ↦ err missing_host
      | some host ↦ ok (record {
        scheme = lib.scheme u;
        host = host;
        port = lib.port u;
        path = explicit (trim raw) (lib.path u);
      })
    ]

  unfoldable pub apply_to : RemoteTarget → Url → Url
  apply_to target original =
      let mapped =
        lib.set_port (lib.set_host (lib.set_scheme original target.scheme) target.host)
          target.port in
      lib.clear_fragment (elim target.path [ none ↦ mapped | some path ↦ lib.set_path mapped path ])

  -- `home_dir`, at the value of HOME
  unfoldable pub home_dir : Option Text → Checked Text
  home_dir none = err home_is_not_set
  home_dir (some home) = ok home

  unfoldable pub expand_home_path : Option Text → Text → Checked Text
  unfolding home_dir join
  expand_home_path home path =
      if is_empty path
      then err path_is_empty
      else if text_eq path (text "~")
      then home_dir home
      else elim (strip_prefix (text "~/") path) [
        | none ↦ ok path
        | some rest ↦ do base ← home_dir home; ok (join base rest)
      ]

  pub record RequestUrl : Type 0 where
    pub request_url : Url
    pub origin : OriginKey
    pub path : Text

  unfoldable pub request_from_url : Url → Option RequestUrl
  unfolding origin_from_url
  request_from_url u =
      if not (is_http (lib.scheme u)) || not (lib.has_host u)
      then none
      else elim (origin_from_url u) [
        | err _ ↦ none
        | ok origin ↦ some (record { request_url = u; origin = origin; path = lib.path u })
      ]

  unfoldable pub request_from_uri : lib.Uri → Option RequestUrl
  unfolding request_from_url
  request_from_uri uri = elim (lib.parse (lib.uri_to_string uri)) [
    | err _ ↦ none
    | ok u ↦ request_from_url u
  ]
