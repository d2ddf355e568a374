-- ===== src/Mapping/Rules/Resolve.antt =====
-- Which rule wins, src/mapping.rs: of the rules inserted for a request's origin, the last one of its
-- whole path, or else the last one with no path.
use fluxcope.Common.{
  ◌≡◌, refl, ap, ◌∙◌, ◌↔◌, Bool, true, false, ◌&&◌, Option, none, some, List, [], ◌∷◌, ◌++◌, inl,
  inr, arith, if◌then◌else◌, Bool-cases, Option-cases,
}
use fluxcope.Common.Text.{Text, text_eq}
use fluxcope.Common.Text.Equality.{text_eq_iff}
use fluxcope.Mapping.Url.{OriginKey, origin_eq, RulePattern}
use fluxcope.Mapping.Rules.{
  OriginRules, CompiledRules, no_rules, path_insert, path_get, update_origin, put_rule, insert,
  origin_get, or_else, best_of, match_target,
}

pub origin_eq_iff : (a b : OriginKey) → (origin_eq a b ≡ true) ↔ (a ≡ b)
unfolding origin_eq
origin_eq_iff a b = ground (arith, text_eq_iff a.scheme b.scheme, text_eq_iff a.host b.host)

module _ {A : Type 0} where
  path_get-path_insert :
      (q k : Text) (v : A) (m : List (Text × A))
      → path_get q (path_insert k v m) ≡ (if text_eq q k then some v else path_get q m)
  unfolding path_get path_insert
  path_get-path_insert q k v [] = refl
  path_get-path_insert q k v ((j, w) ∷ m) =
      ground
        (arith, text_eq_iff q k, text_eq_iff k j, text_eq_iff q j, path_get-path_insert q k v m)

-- an entry inserted: its pattern and target
abbrev pub RuleEntry : Type 0 → Type 0
RuleEntry T = RulePattern × T

abbrev pub path_is : Text → Option Text → Bool
path_is path none = false
path_is path (some p) = text_eq path p

abbrev pub is_host : Option Text → Bool
is_host none = true
is_host (some _) = false

module _ {T : Type 0} where
  -- the rules after inserting the entries, the first one first
  abbrev pub insert_all : CompiledRules T → List (RuleEntry T) → CompiledRules T
  insert_all rules [] = rules
  insert_all rules ((p, t) ∷ es) = insert_all (insert p t rules) es

  pub insert_all-append :
      (rules : CompiledRules T) (es fs : List (RuleEntry T))
      → insert_all rules (es ++ fs) ≡ insert_all (insert_all rules es) fs
  insert_all-append rules [] fs = refl
  insert_all-append rules ((p, t) ∷ es) fs = insert_all-append (insert p t rules) es fs

  -- what the table knows of an origin, none being no rules
  abbrev rules_of : OriginKey → CompiledRules T → OriginRules T
  rules_of origin rules = elim (origin_get origin rules) [ none ↦ no_rules | some found ↦ found ]

  rules_of-update_origin :
      (q k : OriginKey) (f : OriginRules T → OriginRules T) (m : CompiledRules T)
      → rules_of q (update_origin k f m)
        ≡ (if origin_eq q k then f (rules_of k m) else rules_of q m)
  unfolding origin_get update_origin
  rules_of-update_origin q k f [] = ground arith
  rules_of-update_origin q k f ((j, r) ∷ m) = ground (
    arith,
    origin_eq_iff q k,
    origin_eq_iff k j,
    origin_eq_iff q j,
    rules_of-update_origin q k f m,
  )

  match_target-rules_of :
      (rules : CompiledRules T) (origin : OriginKey) (path : Text)
      → match_target rules origin path ≡ best_of path (rules_of origin rules)
  unfolding match_target path_get
  match_target-rules_of rules origin path = elim (Option-cases (origin_get origin rules)) [
    | inl e ↦ rw (match_target, rules_of, e)
    | inr (found, e) ↦ rw (match_target, rules_of, e)
  ]

  -- the last entry of `origin` whose path passes the test
  abbrev pub last_match : (Option Text → Bool) → OriginKey → List (RuleEntry T) → Option T
  last_match test origin [] = none
  last_match test origin ((p, t) ∷ es) =
      or_else (last_match test origin es)
        (if origin_eq origin p.origin && test p.path then some t else none)

  -- putting one rule in, seen from a path
  path_get-put_rule :
      (path : Text) (p : Option Text) (t : T) (r : OriginRules T)
      → path_get path (put_rule p t r).path_rules
        ≡ or_else (if path_is path p then some t else none) (path_get path r.path_rules)
  path_get-put_rule path none t r = refl
  path_get-put_rule path (some k) t r = ground (arith, path_get-path_insert path k t r.path_rules)

  host_rule-put_rule :
      (p : Option Text) (t : T) (r : OriginRules T)
      → (put_rule p t r).host_rule ≡ or_else (if is_host p then some t else none) r.host_rule
  host_rule-put_rule none t r = refl
  host_rule-put_rule (some k) t r = refl

  or_else-none : (a : Option T) → or_else a none ≡ a
  or_else-none none = refl
  or_else-none (some a) = refl

  or_else_assoc : (a b c : Option T) → or_else a (or_else b c) ≡ or_else (or_else a b) c
  or_else_assoc none b c = refl
  or_else_assoc (some a) b c = refl

  record Knows (path : Text) (origin : OriginKey) (es : List (RuleEntry T))
      (before after : OriginRules T) : Type 0 where
    paths :
        path_get path after.path_rules
        ≡ or_else (last_match (path_is path) origin es) (path_get path before.path_rules)
    host : after.host_rule ≡ or_else (last_match is_host origin es) before.host_rule

  insert-Knows :
      (path : Text) (origin : OriginKey) (p : RulePattern) (t : T) (rules : CompiledRules T)
      → Knows path origin ((p, t) ∷ []) (rules_of origin rules) (rules_of origin (insert p t rules))
  unfolding insert
  insert-Knows path origin p t rules =
      let e = rules_of-update_origin origin p.origin (put_rule p.path t) rules in
      elim (Bool-cases (origin_eq origin p.origin)) [
        | inl same ↦
            let o = (origin_eq_iff origin p.origin).0 same in
            record {
              paths = rw (e, same, path_get-put_rule path p.path t (rules_of p.origin rules), o);
              host = rw (e, same, host_rule-put_rule p.path t (rules_of p.origin rules), o);
            }
        | inr other ↦ record { paths = rw (e, other); host = rw (e, other) }
      ]

  insert_all-Knows :
      (path : Text) (origin : OriginKey) (es : List (RuleEntry T)) (rules : CompiledRules T)
      → Knows path origin es (rules_of origin rules) (rules_of origin (insert_all rules es))
  insert_all-Knows path origin [] rules = record { paths = refl; host = refl }
  insert_all-Knows path origin ((p, t) ∷ es) rules =
      let one = insert-Knows path origin p t rules in
      let rest = insert_all-Knows path origin es (insert p t rules) in
      record {
        paths = rw (rest.paths, one.paths, or_else_assoc (last_match (path_is path) origin es));
        host = rw (rest.host, one.host, or_else_assoc (last_match is_host origin es));
      }

  -- The target that matches a request for `path` of `origin`, in rules made by inserting entries one
  -- after the other into an empty table, is the target of the last entry of that origin with exactly
  -- that path, or else of the last entry of that origin without a path, or else none.
  pub match_target-insert_all :
      (es : List (RuleEntry T)) (origin : OriginKey) (path : Text)
      → match_target (insert_all [] es) origin path
        ≡ or_else (last_match (path_is path) origin es) (last_match is_host origin es)
  unfolding origin_get path_get
  match_target-insert_all es origin path =
      let k = insert_all-Knows path origin es [] in
      rw (match_target-rules_of (insert_all [] es) origin path, k.paths, k.host)
        (ap (λ a. or_else a (or_else (last_match is_host origin es) none))
            (or_else-none (last_match (path_is path) origin es))
          ∙ ap (or_else (last_match (path_is path) origin es))
              (or_else-none (last_match is_host origin es)))
