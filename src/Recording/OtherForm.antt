-- ===== src/Recording/OtherForm.antt =====
-- The other form of a URL, without its default port or with it, described apart from the code, and
-- `default_port_alternate_url` of src/recording.rs as finding it.
use fluxcope.Common.{
  ℕ, ◌≡◌, refl, sym, ap, ◌∙◌, ◌⊎◌, inl, inr, Bool, true, false, Option, none, some, [], ◌∷◌, ◌++◌,
  ◌==◌, ==_iff, arith, append-nil, if◌then◌else◌, Bool-cases, if_true, if_false,
}
use fluxcope.Common.Text.{Text, text, text_eq, to_ascii_lowercase, strip_prefix, contains_char}
use fluxcope.Common.Text.Equality.{text_eq_iff}
use fluxcope.Common.Outcome.Panic.{◌>>=◌, bind-some}
use fluxcope.Recording.{
  GlobLibrary, split_scheme, split_authority, before_last_colon, default_port_of, alternate,
  default_port_alternate_url,
}
use fluxcope.Recording.Alternate.{
  IsUndelimited, split_scheme-append, split_authority-append, split_authority-cut, cut_at,
  before_last_colon-append, default_port_of-IsPortText, alternate-of, alternate_unported,
  alternate_ported,
}

-- the default port of `https` or `http`, in any case, and the text that writes it
abbrev pub IsDefaultPort : Text → ℕ → Text → Type 0
IsDefaultPort scheme port port_text =
    ((to_ascii_lowercase scheme ≡ text "https") × (port ≡ 443) × (port_text ≡ text ":443"))
    ⊎ ((to_ascii_lowercase scheme ≡ text "http") × (port ≡ 80) × (port_text ≡ text ":80"))

-- what may follow an authority
abbrev pub EndsAuthority : Text → Type 0
EndsAuthority [] = Unit {0}
EndsAuthority (c ∷ s) = contains_char c (text "/?#") ≡ true

-- A URL of a scheme, an authority and a rest, and its other form: the default port is written out
-- after an authority without a port, or the default port of an authority is left out.
pub record OtherForm (lib : GlobLibrary) (url other : Text) : Type 0 where
  pub scheme : Text
  pub authority : Text
  pub rest : Text
  pub port : ℕ
  pub port_text : Text
  pub default_port : IsDefaultPort scheme port port_text
  pub undelimited : IsUndelimited authority
  pub ends : EndsAuthority rest
  pub url_is : url ≡ scheme ++ (text "://" ++ (authority ++ rest))
  pub changed :
      ((lib.authority_port authority ≡ some none)
        × (other ≡ scheme ++ (text "://" ++ (authority ++ (port_text ++ rest)))))
      ⊎ ((host : Text) × (digits : Text) × (lib.authority_port authority ≡ some (some port))
          × (authority ≡ host ++ b':' ∷ digits)
          × (contains_char b':' digits ≡ false)
          × (other ≡ scheme ++ (text "://" ++ (host ++ rest))))

abbrev default_port_in : Text → Option (ℕ × Text)
default_port_in lowered =
    if text_eq lowered (text "https")
    then some (443, text ":443")
    else if text_eq lowered (text "http")
    then some (80, text ":80")
    else none

default_port_of_known :
    (scheme : Text) (port : ℕ) (port_text : Text)
    → IsDefaultPort scheme port port_text
    → default_port_of scheme ≡ some (port, port_text)
unfolding text_eq
default_port_of_known scheme port port_text (inl (e, p, t)) = ap default_port_in e ∙ cc (p, t)
default_port_of_known scheme port port_text (inr (e, p, t)) = ap default_port_in e ∙ cc (p, t)

default_port_of-IsDefaultPort :
    (scheme : Text) (port : ℕ) (port_text : Text)
    → default_port_of scheme ≡ some (port, port_text)
    → IsDefaultPort scheme port port_text
default_port_of-IsDefaultPort scheme port port_text h =
    on (text_eq (to_ascii_lowercase scheme) (text "https"))
      (text_eq (to_ascii_lowercase scheme) (text "http"))
      (text_eq_iff (to_ascii_lowercase scheme) (text "https")).0
      (text_eq_iff (to_ascii_lowercase scheme) (text "http")).0 h
  where
    on :
        (https http : Bool)
        → (https ≡ true → to_ascii_lowercase scheme ≡ text "https")
        → (http ≡ true → to_ascii_lowercase scheme ≡ text "http")
        → ◌≡◌ {A = Option (ℕ × Text)}
            (if https
              then some (443, text ":443")
              else if http
              then some (80, text ":80")
              else none)
            (some (port, port_text))
        → IsDefaultPort scheme port port_text
    on true http f g e = inl (f refl, cc (e), cc (e))
    on false true f g e = inr (g refl, cc (e), cc (e))
    on false false f g e = absurd (cc (e))

before_last_colon-none : (s : Text) → contains_char b':' s ≡ false → before_last_colon s ≡ none
unfolding contains_char
before_last_colon-none [] h = refl
before_last_colon-none (c ∷ s) h = ground (arith, before_last_colon-none s)

contains_char-none : (s : Text) → before_last_colon s ≡ none → contains_char b':' s ≡ false
unfolding contains_char
contains_char-none [] h = refl
contains_char-none (c ∷ s) h = ground (arith, contains_char-none s)

before_last_colon-inverse :
    (s host : Text)
    → before_last_colon s ≡ some host
    → (digits : Text) × (s ≡ host ++ b':' ∷ digits) × (contains_char b':' digits ≡ false)
unfolding contains_char
before_last_colon-inverse [] host h = absurd (cc (h))
before_last_colon-inverse (c ∷ s) host h =
    on (before_last_colon s) refl (λ before e. before_last_colon-inverse s before e) h
  where
    on :
        (later : Option Text)
        → before_last_colon s ≡ later
        → ((before : Text)
            → before_last_colon s ≡ some before
            → (digits : Text) × (s ≡ before ++ b':' ∷ digits) × (contains_char b':' digits ≡ false))
        → ◌≡◌ {A = Option Text}
            (elim later [
              | some before ↦ some (c ∷ before)
              | none ↦ if c == b':' then some [] else none
            ])
            (some host)
        → (digits : Text) × (◌≡◌ {A = Text} (c ∷ s) (host ++ b':' ∷ digits))
          × (contains_char b':' digits ≡ false)
    on none e next f = elim (Bool-cases (c == b':')) [
      | inl colon ↦
          let host_is : host ≡ [] = ground arith in
          (s, rw host_is (ap (λ d. d ∷ s) ((==_iff c b':').0 colon)), contains_char-none s e)
      | inr other ↦ absurd (ground arith)
    ]
    on (some before) e next f =
        let (digits, g, clear) = next before e in
        let host_is : ◌≡◌ {A = Text} (c ∷ before) host = cc (f) in
        (digits, ap (λ t. c ∷ t) g ∙ ap (λ t. t ++ b':' ∷ digits) host_is, clear)

strip_prefix-inverse :
    (prefix s rest : Text) → strip_prefix prefix s ≡ some rest → s ≡ prefix ++ rest
unfolding strip_prefix
strip_prefix-inverse [] s rest h = cc (h)
strip_prefix-inverse (p ∷ ps) [] rest h = absurd (cc (h))
strip_prefix-inverse (p ∷ ps) (c ∷ s) rest h = ground (arith, strip_prefix-inverse ps s rest)

split_scheme-inverse :
    (url scheme after : Text)
    → split_scheme url ≡ some (scheme, after)
    → url ≡ scheme ++ (text "://" ++ after)
split_scheme-inverse [] scheme after h = absurd (cc (h))
split_scheme-inverse (c ∷ s) scheme after h =
    on (strip_prefix (text "://") (c ∷ s)) (split_scheme s) refl
      (λ scheme rest e. split_scheme-inverse s scheme rest e) h
  where
    on :
        (starts : Option Text) (later : Option (Text × Text))
        → strip_prefix (text "://") (c ∷ s) ≡ starts
        → ((scheme rest : Text) → later ≡ some (scheme, rest) → s ≡ scheme ++ (text "://" ++ rest))
        → ◌≡◌ {A = Option (Text × Text)}
            (elim starts [
              | some rest ↦ some ([], rest)
              | none ↦ do (scheme, rest) ← later; some (c ∷ scheme, rest)
            ])
            (some (scheme, after))
        → ◌≡◌ {A = Text} (c ∷ s) (scheme ++ (text "://" ++ after))
    on (some rest) later e next f =
        let cut : ◌≡◌ {A = Text × Text} ([], rest) (scheme, after) = cc (f) in
        strip_prefix-inverse (text "://") (c ∷ s) rest e
        ∙ ap (λ (t : Text × Text). t.0 ++ (text "://" ++ t.1)) cut
    on none none e next f = absurd (cc (f))
    on none (some (before, rest)) e next f =
        let cut : ◌≡◌ {A = Text × Text} (c ∷ before, rest) (scheme, after) = cc (f) in
        ap (λ t. c ∷ t) (next before rest refl)
        ∙ ap (λ (t : Text × Text). t.0 ++ (text "://" ++ t.1)) cut

EndsAuthority-rest : (s : Text) → EndsAuthority (split_authority s).1
EndsAuthority-rest [] = tt
EndsAuthority-rest (c ∷ s) = on (contains_char c (text "/?#")) refl (EndsAuthority-rest s)
  where
    on :
        (delimits : Bool)
        → contains_char c (text "/?#") ≡ delimits
        → EndsAuthority (split_authority s).1
        → EndsAuthority (cut_at delimits c s (split_authority s)).1
    on true e later = e
    on false e later = later

split_authority-rest : (s : Text) → EndsAuthority s → split_authority s ≡ ([], s)
split_authority-rest [] h = refl
split_authority-rest (c ∷ s) h = rw h refl

module _ (lib : GlobLibrary) where
  pub OtherForm-alternate :
      (url other : Text) → OtherForm lib url other → default_port_alternate_url lib url ≡ some other
  OtherForm-alternate url other o =
      let after = o.authority ++ o.rest in
      let known = default_port_of_known o.scheme o.port o.port_text o.default_port in
      let (colon, _) = default_port_of-IsPortText o.scheme o.port o.port_text known in
      let cut =
        split_authority-append o.authority o.rest o.undelimited
        ∙ ap {A = Text × Text} {B = Text × Text} (λ c. (o.authority ++ c.0, c.1))
            (split_authority-rest o.rest o.ends)
        ∙ ap {A = Text} {B = Text × Text} (λ a. (a, o.rest)) (append-nil o.authority) in
      let found =
        alternate-of lib (o.scheme ++ (text "://" ++ after)) o.scheme after (o.port, o.port_text)
          (split_scheme-append o.scheme after colon) known
        ∙ ap {A = Text × Text} (λ c. alternate lib o.scheme (o.port, o.port_text) c.0 c.1) cut in
      ap (default_port_alternate_url lib) o.url_is ∙ found ∙ elim o.changed [
        | inl (unported, form) ↦
            alternate_unported lib o.scheme o.port_text o.authority o.rest o.port unported
            ∙ ap some (sym form)
        | inr (host, digits, ported, authority_is, clear, form) ↦
            alternate_ported lib o.scheme o.port_text o.authority o.rest host o.port ported (
              ap before_last_colon authority_is
              ∙ before_last_colon-append host digits (before_last_colon-none digits clear))
            ∙ ap some (sym form)
      ]

  abbrev Changed : Text → Text → Text → Text → ℕ → Text → Type 0
  Changed scheme port_text authority rest port other =
      ((lib.authority_port authority ≡ some none)
        × (other ≡ scheme ++ (text "://" ++ (authority ++ (port_text ++ rest)))))
      ⊎ ((host : Text) × (digits : Text) × (lib.authority_port authority ≡ some (some port))
          × (authority ≡ host ++ b':' ∷ digits)
          × (contains_char b':' digits ≡ false)
          × (other ≡ scheme ++ (text "://" ++ (host ++ rest))))

  alternate-Changed :
      (scheme port_text authority rest other : Text) (port : ℕ)
      → alternate lib scheme (port, port_text) authority rest ≡ some other
      → Changed scheme port_text authority rest port other
  alternate-Changed scheme port_text authority rest other port h =
      on (lib.authority_port authority) refl h
    where
      without :
          (before : Option Text)
          → before_last_colon authority ≡ before
          → lib.authority_port authority ≡ some (some port)
          → ◌≡◌ {A = Option Text}
              (elim before [
                | none ↦ none
                | some host ↦ some (scheme ++ (text "://" ++ (host ++ rest)))
              ])
              (some other)
          → Changed scheme port_text authority rest port other
      without none b e f = absurd (cc (f))
      without (some host) b e f =
          let (digits, authority_is, clear) = before_last_colon-inverse authority host b in
          let other_is : other ≡ scheme ++ (text "://" ++ (host ++ rest)) = cc (f) in
          inr (host, digits, e, authority_is, clear, other_is)

      on :
          (parsed : Option (Option ℕ))
          → lib.authority_port authority ≡ parsed
          → ◌≡◌ {A = Option Text}
              (elim parsed [
                | none ↦ none
                | some none ↦ some (scheme ++ (text "://" ++ (authority ++ (port_text ++ rest))))
                | some (some p) ↦
                    if p == port
                    then elim (before_last_colon authority) [
                      | none ↦ none
                      | some host ↦ some (scheme ++ (text "://" ++ (host ++ rest)))
                    ]
                    else none
              ])
              (some other)
          → Changed scheme port_text authority rest port other
      on none e f = absurd (cc (f))
      on (some none) e f = inl (e, cc (f))
      on (some (some p)) e f = elim (Bool-cases (p == port)) [
        | inl same ↦
            without (before_last_colon authority) refl
              (e ∙ ap (λ n. some (some n)) ((==_iff p port).0 same))
              (sym (if_true _ _ none same) ∙ f)
        | inr differs ↦ absurd (
            cc (
              f,
              if_false _
                  (elim (before_last_colon authority) [
                    | none ↦ none
                    | some host ↦ some (scheme ++ (text "://" ++ (host ++ rest)))
                  ])
                  none differs,
            ))
      ]

  -- the alternate URL is the other form of the URL
  pub alternate-OtherForm :
      (url other : Text) → default_port_alternate_url lib url ≡ some other → OtherForm lib url other
  unfolding default_port_alternate_url
  alternate-OtherForm url other h =
      let (t, e, f) = bind-some (split_scheme url) _ other h in
      let (d, known, found) = bind-some (default_port_of t.0) _ other f in
      let cut = split_authority-cut t.1 in
      record {
        scheme = t.0;
        authority = (split_authority t.1).0;
        rest = (split_authority t.1).1;
        port = d.0;
        port_text = d.1;
        default_port = default_port_of-IsDefaultPort t.0 d.0 d.1 known;
        undelimited = cut.0;
        ends = EndsAuthority-rest t.1;
        url_is =
            split_scheme-inverse url t.0 t.1 e ∙ ap (λ a. t.0 ++ (text "://" ++ a)) (sym cut.1);
        changed =
            alternate-Changed t.0 d.1 (split_authority t.1).0 (split_authority t.1).1 other d.0
              found;
      }
