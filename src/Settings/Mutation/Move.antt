-- ===== src/Settings/Mutation/Move.antt =====
-- Moving a rule within its table, src/settings/mapping_ops.rs.
use fluxcope.Common.{
  ℕ, zero, suc, ◌+◌, ◌-◌, ltb, if◌then◌else◌, if_true, if_false, ltb→lt, ==_iff, ◌∙◌, ◌≡◌, ◌≤◌, ◌<◌,
  refl, sym, ap, Option, some, true, false, Bool-cases, inl, inr, List, [], ◌∷◌, length, get_elem?,
  get_elem?_lt, leb, ◌==◌, arith,
}
use fluxcope.Common.Text.{Text}
use fluxcope.Common.Outcome.{ok}
use fluxcope.Mapping.Url.{UrlLibrary}
use fluxcope.Mapping.Diagnostics.{MappingTable}
use fluxcope.Settings.Mutation.Checks.{insert_at, remove_at}
use fluxcope.Settings.Mutation.Tables.{move_item}

module _ {A : Type 0} where
  length-insert_at : (i : ℕ) (v : A) (xs : List A) → length (insert_at i v xs) ≡ suc (length xs)
  length-insert_at zero v xs = refl
  length-insert_at (suc i) v [] = refl
  length-insert_at (suc i) v (x ∷ xs) = omega (arith, length-insert_at i v xs)

  length-remove_at :
      (i : ℕ) (xs : List A) → i < length xs → suc (length (remove_at i xs)) ≡ length xs
  length-remove_at i [] h = absurd (omega arith)
  length-remove_at zero (x ∷ xs) h = refl
  length-remove_at (suc i) (x ∷ xs) h = omega (arith, length-remove_at i xs (omega arith))

  get_elem?-insert_at :
      (i : ℕ) (v : A) (xs : List A) → i ≤ length xs → get_elem? (insert_at i v xs) i ≡ some v
  get_elem?-insert_at zero v xs h = refl
  get_elem?-insert_at (suc i) v [] h = absurd (omega arith)
  get_elem?-insert_at (suc i) v (x ∷ xs) h = get_elem?-insert_at i v xs (omega arith)

  remove_at-insert_at :
      (i : ℕ) (v : A) (xs : List A) → i ≤ length xs → remove_at i (insert_at i v xs) ≡ xs
  remove_at-insert_at zero v [] h = refl
  remove_at-insert_at zero v (x ∷ xs) h = refl
  remove_at-insert_at (suc i) v [] h = absurd (omega arith)
  remove_at-insert_at (suc i) v (x ∷ xs) h = ap (◌∷◌ x) (remove_at-insert_at i v xs (omega arith))

  insert_at-remove_at :
      (i : ℕ) (xs : List A) {v : A} → get_elem? xs i ≡ some v → insert_at i v (remove_at i xs) ≡ xs
  insert_at-remove_at i [] h = cc
  insert_at-remove_at zero (x ∷ xs) h = ground arith
  insert_at-remove_at (suc i) (x ∷ xs) h = ap (◌∷◌ x) (insert_at-remove_at i xs h)

-- the index in the old table of the rule that stands at `k` in the new one
abbrev pub origin_of : ℕ → ℕ → ℕ → ℕ
origin_of from to k =
    if k == to
    then from
    else let between = if ltb k to then k else k - 1 in
      if ltb between from then between else between + 1

unmoved : (from to k : ℕ) → from ≡ to → k ≡ origin_of from to k
unmoved from to k e = ground arith

module _ {A : Type 0} where
  get_elem?-insert_at_before :
      (i : ℕ) (v : A) (xs : List A) (k : ℕ)
      → i ≤ length xs
      → k < i
      → get_elem? (insert_at i v xs) k ≡ get_elem? xs k
  get_elem?-insert_at_before zero v xs k h l = absurd (omega arith)
  get_elem?-insert_at_before (suc i) v [] k h l = absurd (omega arith)
  get_elem?-insert_at_before (suc i) v (x ∷ xs) zero h l = refl
  get_elem?-insert_at_before (suc i) v (x ∷ xs) (suc k) h l =
      get_elem?-insert_at_before i v xs k (omega arith) (omega arith)

  get_elem?-insert_at_after :
      (i : ℕ) (v : A) (xs : List A) (k : ℕ)
      → i ≤ length xs
      → i ≤ k
      → get_elem? (insert_at i v xs) (suc k) ≡ get_elem? xs k
  get_elem?-insert_at_after zero v xs k h l = refl
  get_elem?-insert_at_after (suc i) v [] k h l = absurd (omega arith)
  get_elem?-insert_at_after (suc i) v (x ∷ xs) zero h l = absurd (omega arith)
  get_elem?-insert_at_after (suc i) v (x ∷ xs) (suc k) h l =
      get_elem?-insert_at_after i v xs k (omega arith) (omega arith)

  get_elem?-remove_at_before :
      (i : ℕ) (xs : List A) (k : ℕ) → k < i → get_elem? (remove_at i xs) k ≡ get_elem? xs k
  get_elem?-remove_at_before i [] k l = refl
  get_elem?-remove_at_before zero (x ∷ xs) k l = absurd (omega arith)
  get_elem?-remove_at_before (suc i) (x ∷ xs) zero l = refl
  get_elem?-remove_at_before (suc i) (x ∷ xs) (suc k) l =
      get_elem?-remove_at_before i xs k (omega arith)

  get_elem?-remove_at_after :
      (i : ℕ) (xs : List A) (k : ℕ) → i ≤ k → get_elem? (remove_at i xs) k ≡ get_elem? xs (suc k)
  get_elem?-remove_at_after i [] k l = refl
  get_elem?-remove_at_after zero (x ∷ xs) k l = refl
  get_elem?-remove_at_after (suc i) (x ∷ xs) zero l = absurd (omega arith)
  get_elem?-remove_at_after (suc i) (x ∷ xs) (suc k) l =
      get_elem?-remove_at_after i xs k (omega arith)

  -- where the rules other than the moved one come from
  get_elem?-remove_at :
      (from j : ℕ) (xs : List A)
      → get_elem? (remove_at from xs) j ≡ get_elem? xs (if ltb j from then j else j + 1)
  get_elem?-remove_at from j xs = elim (Bool-cases (ltb j from)) [
    | inl before ↦
        get_elem?-remove_at_before from xs j (ltb→lt j from before)
        ∙ ap (get_elem? xs) (sym (if_true _ j (j + 1) before))
    | inr after ↦
        get_elem?-remove_at_after from xs j (ground arith)
        ∙ ap (get_elem? xs) (omega arith ∙ sym (if_false _ j (j + 1) after))
  ]

  get_elem?-moved :
      (from to : ℕ) (v : A) (rules : List A) (k : ℕ)
      → get_elem? rules from ≡ some v
      → to ≤ length (remove_at from rules)
      → get_elem? (insert_at to v (remove_at from rules)) k ≡ get_elem? rules (origin_of from to k)
  get_elem?-moved from to v rules k e h = elim (Bool-cases (k == to)) [
    | inl here ↦ rw here (
        ap (get_elem? (insert_at to v (remove_at from rules))) ((==_iff k to).0 here)
        ∙ get_elem?-insert_at to v (remove_at from rules) h
        ∙ sym e)
    | inr other ↦ elim (Bool-cases (ltb k to)) [
      | inl before ↦
          rw (other, before)
            (get_elem?-insert_at_before to v (remove_at from rules) k h (ltb→lt k to before)
              ∙ get_elem?-remove_at from k rules)
      | inr after ↦
          rw (other, after)
            (ap (get_elem? (insert_at to v (remove_at from rules))) (ground arith)
              ∙ get_elem?-insert_at_after to v (remove_at from rules) (k - 1) h (ground arith)
              ∙ get_elem?-remove_at from (k - 1) rules)
    ]
  ]

module _ (lib : UrlLibrary) (home : Option Text) {A : Type 0} where
  -- a table before and after a rule of it is moved
  pub record Moves (rules : List A) (preset : Text) (table : MappingTable) (from to : ℕ)
      : Type 0 where
    pub moved : List A
    pub success : move_item lib home rules preset table from to ≡ ok moved
    pub same_length : length moved ≡ length rules
    pub at_target : get_elem? moved to ≡ get_elem? rules from
    pub placed : (k : ℕ) → get_elem? moved k ≡ get_elem? rules (origin_of from to k)
    pub back : move_item lib home moved preset table to from ≡ ok rules

  move_item-elsewhere :
      (rules : List A) (preset : Text) (table : MappingTable) (from to : ℕ)
      → from < length rules
      → to < length rules
      → (from == to) ≡ false
      → Moves rules preset table from to
  unfolding move_item
  move_item-elsewhere rules preset table from to hf ht other =
      let (v, e) = get_elem?_lt rules from hf in
      let rest = remove_at from rules in
      let shorter = length-remove_at from rules hf in
      let moved = insert_at to v rest in
      let long = length-insert_at to v rest in
      let at = get_elem?-insert_at to v rest (omega arith) in
      let lf : leb (length rules) from ≡ false = ground arith in
      let lt : leb (length rules) to ≡ false = ground arith in
      let mf : leb (length moved) from ≡ false = ground arith in
      let mt : leb (length moved) to ≡ false = ground arith in
      let other_way : (to == from) ≡ false = ground arith in
      record {
        moved = moved;
        success = rw (move_item, lf, lt, other, e);
        same_length = omega arith;
        at_target = rw (at, e);
        placed = λ k. get_elem?-moved from to v rules k e (omega arith);
        back =
            rw (move_item, mf, mt, other_way, at, remove_at-insert_at to v rest (omega arith))
              (ap ok (insert_at-remove_at from rules e));
      }

  -- Moving a rule from an index to another, both within the table, succeeds; the table keeps its
  -- length, the rule is at the target index, the other rules keep their order around it, each index
  -- holding the rule of a known index before, and moving the rule back gives the table as it was.
  pub move_item-Moves :
      (rules : List A) (preset : Text) (table : MappingTable) (from to : ℕ)
      → from < length rules
      → to < length rules
      → Moves rules preset table from to
  unfolding move_item
  move_item-Moves rules preset table from to hf ht = elim (Bool-cases (from == to)) [
    | inr other ↦ move_item-elsewhere rules preset table from to hf ht other
    | inl same ↦
        let e : from ≡ to = ground arith in
        let lf : leb (length rules) from ≡ false = ground arith in
        let lt : leb (length rules) to ≡ false = ground arith in
        let back : (to == from) ≡ true = ground arith in
        record {
          moved = rules;
          success = rw (move_item, lf, lt, same);
          same_length = refl;
          at_target = ap (get_elem? rules) (sym e);
          placed = λ k. ap (get_elem? rules) (unmoved from to k e);
          back = rw (move_item, lf, lt, back);
        }
  ]
