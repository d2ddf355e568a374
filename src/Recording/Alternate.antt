-- ===== src/Recording/Alternate.antt =====
-- The URL with its default port written out, `default_port_alternate_url` of src/recording.rs.
use fluxcope.Common.{
  subst, ==_iff, ℕ, ◌≡◌, refl, sym, ap, ◌∙◌, Bool, true, false, ◌||◌, Option, none, some, [], ◌∷◌,
  ◌++◌, ◌==◌, arith, append-nil, if◌then◌else◌, if_true,
}
use fluxcope.Common.Text.{Text, text, text_eq, to_ascii_lowercase, strip_prefix, contains_char}
use fluxcope.Common.Text.Equality.{text_eq_iff}
use fluxcope.Common.Outcome.Panic.{◌>>=◌}
use fluxcope.Recording.{
  GlobLibrary, split_scheme, split_authority, before_last_colon, default_port_of, alternate,
  default_port_alternate_url,
}

or_is_false : (a b : Bool) → (a || b) ≡ false → (a ≡ false) × (b ≡ false)
or_is_false true b h = absurd (cc (h))
or_is_false false b h = (refl, h)

split_scheme-cons :
    (c : ℕ) (s scheme rest : Text)
    → (b':' == c) ≡ false
    → split_scheme s ≡ some (scheme, rest)
    → split_scheme (c ∷ s) ≡ some (c ∷ scheme, rest)
unfolding strip_prefix
split_scheme-cons c s scheme rest p q = on (b':' == c) (split_scheme s) p q
  where
    on :
        (colon : Bool) (later : Option (Text × Text))
        → colon ≡ false
        → later ≡ some (scheme, rest)
        → ◌≡◌ {A = Option (Text × Text)}
            (elim (if colon then strip_prefix (text "//") s else none) [
              | some rest ↦ some ([], rest)
              | none ↦ do (scheme, rest) ← later; some (c ∷ scheme, rest)
            ])
            (some (c ∷ scheme, rest))
    on true later p q = absurd (cc (p))
    on false none p q = absurd (cc (q))
    on false (some cut) p q = ap (λ o. o >>= (λ (t : Text × Text). some (c ∷ t.0, t.1))) q

pub split_scheme-append :
    (scheme x : Text)
    → contains_char b':' scheme ≡ false
    → split_scheme (scheme ++ (text "://" ++ x)) ≡ some (scheme, x)
unfolding contains_char strip_prefix
split_scheme-append [] x h = refl
split_scheme-append (c ∷ s) x h =
    let (p, q) = or_is_false (b':' == c) (contains_char b':' s) h in
    split_scheme-cons c (s ++ (text "://" ++ x)) s x p (split_scheme-append s x q)

contains_char-lowercase :
    (s : Text) → contains_char b':' (to_ascii_lowercase s) ≡ false → contains_char b':' s ≡ false
unfolding contains_char to_ascii_lowercase
contains_char-lowercase [] h = refl
contains_char-lowercase (c ∷ s) h = ground (arith, contains_char-lowercase s)

-- no delimiter of an authority
abbrev pub IsUndelimited : Text → Type 0
IsUndelimited [] = Unit {0}
IsUndelimited (c ∷ s) = (contains_char c (text "/?#") ≡ false) × IsUndelimited s

pub split_authority-append :
    (a r : Text)
    → IsUndelimited a
    → split_authority (a ++ r) ≡ (a ++ (split_authority r).0, (split_authority r).1)
split_authority-append [] r h = refl
split_authority-append (c ∷ a) r h = rw (h.0, split_authority-append a r h.1) refl

abbrev pub cut_at : Bool → ℕ → Text → Text × Text → Text × Text
cut_at delimits c s later = if delimits then ([], c ∷ s) else (c ∷ later.0, later.1)

-- the two parts of a cut
pub split_authority-cut :
    (s : Text)
    → let cut = split_authority s in
      IsUndelimited cut.0 × ((cut.0 ++ cut.1) ≡ s) × (split_authority cut.1 ≡ ([], cut.1))
split_authority-cut [] = (tt, refl, refl)
split_authority-cut (c ∷ s) = on (split_authority-cut s) (contains_char c (text "/?#")) refl
  where
    on :
        (let cut = split_authority s in
          IsUndelimited cut.0 × ((cut.0 ++ cut.1) ≡ s) × (split_authority cut.1 ≡ ([], cut.1)))
        → (delimits : Bool) → contains_char c (text "/?#") ≡ delimits
        → let cut = cut_at delimits c s (split_authority s) in
          IsUndelimited cut.0 × ((cut.0 ++ cut.1) ≡ c ∷ s) × (split_authority cut.1 ≡ ([], cut.1))
    on later true e = (
      tt,
      refl,
      if_true (contains_char c (text "/?#")) ([], c ∷ s)
          (c ∷ (split_authority s).0, (split_authority s).1) e,
    )
    on later false e = ((e, later.0), ap (λ l. c ∷ l) later.1, later.2)

pub before_last_colon-append :
    (a port : Text) → before_last_colon port ≡ none → before_last_colon (a ++ b':' ∷ port) ≡ some a
before_last_colon-append [] port h = rw h refl
before_last_colon-append (c ∷ a) port h = rw (before_last_colon-append a port h) refl

colon_free :
    (scheme t : Text)
    → text_eq (to_ascii_lowercase scheme) t ≡ true
    → contains_char b':' t ≡ false
    → contains_char b':' scheme ≡ false
colon_free scheme t e h = contains_char-lowercase scheme (
    subst (λ u. contains_char b':' u ≡ false)
      (sym ((text_eq_iff (to_ascii_lowercase scheme) t).0 e)) h)

-- the text of a default port, a colon and digits
pub record IsPortText (port_text : Text) : Type 0 where
  digits : Text
  colon_is : port_text ≡ b':' ∷ digits
  undelimited : IsUndelimited port_text
  last : before_last_colon digits ≡ none

pub default_port_of-IsPortText :
    (scheme : Text) (port : ℕ) (port_text : Text)
    → default_port_of scheme ≡ some (port, port_text)
    → (contains_char b':' scheme ≡ false) × IsPortText port_text
unfolding contains_char
default_port_of-IsPortText scheme port port_text h =
    on (text_eq (to_ascii_lowercase scheme) (text "https"))
      (text_eq (to_ascii_lowercase scheme) (text "http"))
      (λ e. colon_free scheme (text "https") e refl) (λ e. colon_free scheme (text "http") e refl) h
  where
    on :
        (https http : Bool)
        → (https ≡ true → contains_char b':' scheme ≡ false)
        → (http ≡ true → contains_char b':' scheme ≡ false)
        → ◌≡◌ {A = Option (ℕ × Text)}
            (if https
              then some (443, text ":443")
              else if http
              then some (80, text ":80")
              else none)
            (some (port, port_text))
        → (contains_char b':' scheme ≡ false) × IsPortText port_text
    on true http f g e = (
      f refl,
      subst IsPortText (cc (e)) (record {
        digits = text "443";
        colon_is = refl;
        undelimited = (refl, (refl, (refl, (refl, tt))));
        last = refl;
      }),
    )
    on false true f g e = (
      g refl,
      subst IsPortText (cc (e)) (record {
        digits = text "80";
        colon_is = refl;
        undelimited = (refl, (refl, (refl, tt)));
        last = refl;
      }),
    )
    on false false f g e = absurd (cc (e))

split_authority-ported :
    (authority port_text rest : Text)
    → IsUndelimited authority
    → IsUndelimited port_text
    → split_authority rest ≡ ([], rest)
    → split_authority (authority ++ (port_text ++ rest)) ≡ (authority ++ port_text, rest)
split_authority-ported authority port_text rest u v e =
    split_authority-append authority (port_text ++ rest) u
    ∙ ap {A = Text × Text} {B = Text × Text} (λ c. (authority ++ c.0, c.1))
        (split_authority-append port_text rest v
          ∙ ap {A = Text × Text} {B = Text × Text} (λ c. (port_text ++ c.0, c.1)) e
          ∙ ap {A = Text} {B = Text × Text} (λ p. (p, rest)) (append-nil port_text))

module _ (lib : GlobLibrary) where
  pub alternate-of :
      (url scheme after : Text) (default_port : ℕ × Text)
      → split_scheme url ≡ some (scheme, after)
      → default_port_of scheme ≡ some default_port
      → default_port_alternate_url lib url
        ≡ alternate lib scheme default_port (split_authority after).0 (split_authority after).1
  unfolding default_port_alternate_url
  alternate-of url scheme after default_port e f =
      ap
        (λ o. o >>= (λ (t : Text × Text).
          default_port_of t.0
          >>= (λ d. alternate lib t.0 d (split_authority t.1).0 (split_authority t.1).1)))
        e
      ∙ ap
          (λ o.
            o >>= (λ d. alternate lib scheme d (split_authority after).0 (split_authority after).1))
          f

  pub alternate_unported :
      (scheme port_text authority rest : Text) (port : ℕ)
      → lib.authority_port authority ≡ some none
      → alternate lib scheme (port, port_text) authority rest
        ≡ some (scheme ++ (text "://" ++ (authority ++ (port_text ++ rest))))
  alternate_unported scheme port_text authority rest port e = rw (e, alternate) refl

  pub alternate_ported :
      (scheme port_text authority rest host : Text) (port : ℕ)
      → lib.authority_port authority ≡ some (some port)
      → before_last_colon authority ≡ some host
      → alternate lib scheme (port, port_text) authority rest
        ≡ some (scheme ++ (text "://" ++ (host ++ rest)))
  alternate_ported scheme port_text authority rest host port e f =
      rw (e, alternate) (rw (f, (==_iff port port).1 refl) refl)

  -- For a URL with a scheme `http` or `https` in any case, whose authority parses without a port, the
  -- alternate URL is the one with the default port written out after the authority; and where the
  -- authority with that port parses with it, the alternate of the alternate is the URL again.
  pub default_port_alternate_url-inverse :
      (scheme after port_text : Text) (port : ℕ)
      → default_port_of scheme ≡ some (port, port_text)
      → lib.authority_port (split_authority after).0 ≡ some none
      → lib.authority_port ((split_authority after).0 ++ port_text) ≡ some (some port)
      → (alternate_url : Text) × (alternate_url
          ≡ scheme
            ++ (text "://"
                ++ ((split_authority after).0 ++ (port_text ++ (split_authority after).1))))
        × (default_port_alternate_url lib (scheme ++ (text "://" ++ after)) ≡ some alternate_url)
        × (default_port_alternate_url lib alternate_url ≡ some (scheme ++ (text "://" ++ after)))
  default_port_alternate_url-inverse scheme after port_text port known unported ported =
      let authority = (split_authority after).0 in
      let rest = (split_authority after).1 in
      let (colon, is_port) = default_port_of-IsPortText scheme port port_text known in
      let cut = split_authority-cut after in
      let written = authority ++ (port_text ++ rest) in
      let again = split_authority-ported authority port_text rest cut.0 is_port.undelimited cut.2 in
      (
        scheme ++ (text "://" ++ written),
        refl,
        alternate-of (scheme ++ (text "://" ++ after)) scheme after (port, port_text)
              (split_scheme-append scheme after colon) known
            ∙ alternate_unported scheme port_text authority rest port unported,
        alternate-of (scheme ++ (text "://" ++ written)) scheme written (port, port_text)
              (split_scheme-append scheme written colon) known
            ∙ ap {A = Text × Text} (λ c. alternate lib scheme (port, port_text) c.0 c.1) again
            ∙ alternate_ported scheme port_text (authority ++ port_text) rest authority port ported
                (ap (λ p. before_last_colon (authority ++ p)) is_port.colon_is
                  ∙ before_last_colon-append authority is_port.digits is_port.last)
            ∙ ap (λ a. some (scheme ++ (text "://" ++ a))) cut.1,
      )
