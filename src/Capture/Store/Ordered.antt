-- ===== src/Capture/Store/Ordered.antt =====
-- The ordered map of the capture store, src/capture/store.rs: ascending sequences, lookups, and the
-- newest entry at or before a sequence.
use fluxcope.Common.{
  Option, ℕ, ◌<◌, ◌≤◌, ◌≡◌, refl, ap, ◌∙◌, true, none, some, List, [], ◌∷◌, inl, inr, arith, leb,
  ◌==◌, leb→le, if◌then◌else◌, Bool-cases, Option-cases,
}
use fluxcope.Capture.Store.{Entry, map_insert, map_get, map_remove, map_last_le}

abbrev pub Above : ℕ → List Entry → Type 0
Above k [] = Unit {0}
Above k (e ∷ m) = (k < e.0) × Above k m

abbrev pub IsSorted : List Entry → Type 0
IsSorted [] = Unit {0}
IsSorted (e ∷ m) = Above e.0 m × IsSorted m

Above-mono : (j k : ℕ) (m : List Entry) → j < k → Above k m → Above j m
Above-mono j k [] h a = tt
Above-mono j k (e ∷ m) h a = (omega arith, Above-mono j k m h a.1)

Above-map_insert : (j k p : ℕ) (m : List Entry) → j < k → Above j m → Above j (map_insert k p m)
unfolding map_insert
Above-map_insert j k p [] h a = (h, tt)
Above-map_insert j k p (e ∷ m) h a = ground (arith, Above-map_insert j k p m)

pub map_insert-IsSorted : (k p : ℕ) (m : List Entry) → IsSorted m → IsSorted (map_insert k p m)
unfolding map_insert
map_insert-IsSorted k p [] s = (tt, tt)
map_insert-IsSorted k p (e ∷ m) s =
    ground (arith, map_insert-IsSorted k p m, Above-map_insert e.0 k p m, Above-mono k e.0 m)

Above-map_remove : (j k : ℕ) (m : List Entry) → Above j m → Above j (map_remove k m)
unfolding map_remove
Above-map_remove j k [] a = tt
Above-map_remove j k (e ∷ m) a = ground (arith, Above-map_remove j k m)

pub map_remove-IsSorted : (k : ℕ) (m : List Entry) → IsSorted m → IsSorted (map_remove k m)
unfolding map_remove
map_remove-IsSorted k [] s = tt
map_remove-IsSorted k (e ∷ m) s = ground (arith, map_remove-IsSorted k m, Above-map_remove e.0 k m)

pub map_get-map_insert :
    (j k p : ℕ) (m : List Entry)
    → map_get j (map_insert k p m) ≡ (if j == k then some p else map_get j m)
unfolding map_get map_insert
map_get-map_insert j k p [] = refl
map_get-map_insert j k p (e ∷ m) = ground (arith, map_get-map_insert j k p m)

pub get_of_Above : (j k : ℕ) (m : List Entry) → Above k m → j ≤ k → map_get j m ≡ none
unfolding map_get
get_of_Above j k [] a h = refl
get_of_Above j k (e ∷ m) a h = ground (arith, get_of_Above j k m a.1)

pub map_get-map_remove :
    (j k : ℕ) (m : List Entry)
    → IsSorted m
    → map_get j (map_remove k m) ≡ (if j == k then none else map_get j m)
unfolding map_get map_remove
map_get-map_remove j k [] s = ground arith
map_get-map_remove j k (e ∷ m) s =
    ground (arith, map_get-map_remove j k m s.1, get_of_Above j e.0 m s.0)

-- the entry found is stored at some sequence `j`, at most `k`, and none lies between
pub record Newest (k : ℕ) (m : List Entry) (p : ℕ) : Type 0 where
  pub at : ℕ
  pub before : at ≤ k
  pub stored : map_get at m ≡ some p
  pub newest : (i : ℕ) → at < i → i ≤ k → map_get i m ≡ none

stored-Above : (k j p : ℕ) (m : List Entry) → Above k m → map_get j m ≡ some p → k < j
stored-Above k j p m a e = elim (Bool-cases (leb j k)) [
  | inl low ↦ absurd (cc (get_of_Above j k m a (leb→le j k low), e))
  | inr high ↦ ground arith
]

Newest-cons :
    (k : ℕ) (e : Entry) (m : List Entry) (p : ℕ) → Above e.0 m → Newest k m p → Newest k (e ∷ m) p
unfolding map_get
Newest-cons k e m p a n =
    let above = stored-Above e.0 n.at p m a n.stored in
    record {
      at = n.at;
      before = n.before;
      stored = ground (arith, n.stored, above);
      newest = λ i lo hi. ground (arith, n.newest i lo hi, above);
    }

pub map_last_le-none :
    (k j : ℕ) (m : List Entry) → IsSorted m → map_last_le k m ≡ none → j ≤ k → map_get j m ≡ none
unfolding map_last_le map_get
map_last_le-none k j [] s e h = refl
map_last_le-none k j (e ∷ m) s f h =
    ground (arith, map_last_le-none k j m s.1, get_of_Above j e.0 m s.0)

-- a pointer that is found is that of the newest entry
found-Newest :
    (k : ℕ) (m : List Entry) {p : ℕ} → IsSorted m → map_last_le k m ≡ some p → Newest k m p
unfolding map_last_le
found-Newest k [] s e = cc
found-Newest k (e ∷ m) {p} s f = elim (Option-cases (map_last_le k m)) [
  | inl here ↦
      let low : leb e.0 k ≡ true = ground arith in
      let p_is : p ≡ e.1 = ground arith in
      record {
        at = e.0;
        before = leb→le e.0 k low;
        stored = unfold map_get in ground (arith, p_is);
        newest = λ i lo hi. unfold map_get in ground (arith, map_last_le-none k i m s.1 here hi);
      }
  | inr (q, later) ↦
      let q_is : q ≡ p = ground arith in
      Newest-cons k e m p s.0 (found-Newest k m s.1 (later ∙ ap some q_is))
]

-- what a lookup at or before `k` gives: the newest entry there is, or none where none is stored
abbrev pub FindsNewest : ℕ → List Entry → Option ℕ → Type 0
FindsNewest k m (some p) = Newest k m p
FindsNewest k m none = (j : ℕ) → j ≤ k → map_get j m ≡ none

-- The lookup in a sorted map gives the pointer of the newest entry at or before `k`, and gives none
-- only if no sequence up to `k` is stored.
pub map_last_le-FindsNewest :
    (k : ℕ) (m : List Entry) → IsSorted m → FindsNewest k m (map_last_le k m)
map_last_le-FindsNewest k m s = on (map_last_le k m) refl
  where
    on : (o : Option ℕ) → map_last_le k m ≡ o → FindsNewest k m o
    on none e = λ j h. map_last_le-none k j m s e h
    on (some p) e = found-Newest k m s e
