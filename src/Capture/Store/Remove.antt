-- ===== src/Capture/Store/Remove.antt =====
-- Deleting by sequence, src/capture/store.rs: `remove_sequences`.
use fluxcope.Common.{
  ==_iff, ◌-◌, ℕ, suc, ◌+◌, ◌≤◌, ◌≡◌, refl, sym, ap, ◌∙◌, Bool, true, false, ◌||◌, Option, none,
  some, List, [], ◌∷◌, inl, inr, arith, length, ltb, ◌==◌, if◌then◌else◌, Option-cases, Bool-cases,
}
use mathlib.Core.Path.{subst}
use fluxcope.Capture.Feed.{explicit_delete}
use fluxcope.Capture.Store.{
  bump, Entry, CaptureStore, Shared, map_get, map_remove, remove_each, set_insert, collect_set,
  remove_sequences,
}
use fluxcope.Capture.Store.Ordered.{IsSorted, map_remove-IsSorted, map_get-map_remove}
use fluxcope.Capture.Store.Retention.{Room, Allocated, bytes_in, discard_total}
use fluxcope.Capture.Store.Insert.{map_get-Allocated}

-- whether a list has the sequence
abbrev pub has : ℕ → List ℕ → Bool
has k [] = false
has k (j ∷ s) = (k == j) || has k s

has-set_insert : (i k : ℕ) (s : List ℕ) → has i (set_insert k s) ≡ ((i == k) || has i s)
unfolding set_insert
has-set_insert i k [] = refl
has-set_insert i k (j ∷ s) = ground (arith, has-set_insert i k s)

has-collect_set : (i : ℕ) (s : List ℕ) → has i (collect_set s) ≡ has i s
unfolding collect_set
has-collect_set i [] = refl
has-collect_set i (k ∷ s) = rw (has-set_insert i k (collect_set s), has-collect_set i s)

length-set_insert : (k : ℕ) (s : List ℕ) → length (set_insert k s) ≤ suc (length s)
unfolding set_insert
length-set_insert k [] = omega arith
length-set_insert k (j ∷ s) = ground (arith, length-set_insert k s)

length-collect_set : (s : List ℕ) → length (collect_set s) ≤ length s
unfolding collect_set
length-collect_set [] = omega arith
length-collect_set (k ∷ s) =
    omega (arith, length-set_insert k (collect_set s), length-collect_set s)

length-map_remove :
    (k p : ℕ) (m : List Entry) → map_get k m ≡ some p → suc (length (map_remove k m)) ≡ length m
unfolding map_get map_remove
length-map_remove k p [] e = cc
length-map_remove k p (x ∷ m) e = ground (arith, length-map_remove k p m)

map_remove-Allocated : (j k : ℕ) (m : List Entry) → Allocated j m → Allocated j (map_remove k m)
unfolding map_remove
map_remove-Allocated j k [] a = tt
map_remove-Allocated j k (x ∷ m) a = ground (arith, map_remove-Allocated j k m)

-- what deleting the sequences leaves
record Removed (sequences : List ℕ) (before after : List Entry) (removed : ℕ) : Type 0 where
  pub lookup : (j : ℕ) → map_get j after ≡ (if has j sequences then none else map_get j before)
  pub counted : length after + removed ≡ length before
  pub sorted : IsSorted after

none_either : (b : Bool) {o : Option ℕ} → o ≡ none → (if b then none else o) ≡ none
none_either true e = refl
none_either false e = e

either_order :
    (a b : Bool) (o : Option ℕ)
    → (if b then none else (if a then none else o)) ≡ (if a || b then none else o)
either_order true true o = refl
either_order true false o = refl
either_order false b o = refl

Removed-skip :
    (k : ℕ) (s : List ℕ) (before after : List Entry) (removed : ℕ)
    → map_get k before ≡ none
    → Removed s before after removed
    → Removed (k ∷ s) before after removed
Removed-skip k s before after removed e r = record {
  lookup = λ j. elim (Bool-cases (j == k)) [
    | inl same ↦
        let n : map_get j before ≡ none = ap (λ i. map_get i before) ((==_iff j k).0 same) ∙ e in
        rw same (r.lookup j ∙ none_either (has j s) n)
    | inr other ↦ rw other (r.lookup j)
  ];
  counted = r.counted;
  sorted = r.sorted;
}

Removed-cons :
    (k p : ℕ) (s : List ℕ) (before after : List Entry) (removed : ℕ)
    → IsSorted before
    → map_get k before ≡ some p
    → Removed s (map_remove k before) after removed
    → Removed (k ∷ s) before after (removed + 1)
Removed-cons k p s before after removed sorted e r = record {
  lookup = λ j.
      r.lookup j
      ∙ ap (λ o. if has j s then none else o) (map_get-map_remove j k before sorted)
      ∙ either_order (j == k) (has j s) (map_get j before);
  counted = omega (arith, r.counted, length-map_remove k p before e);
  sorted = r.sorted;
}

-- the loop returns, having deleted these
record Deletes (sequences : List ℕ) (before : CaptureStore) (shared : Shared) (count : ℕ)
    : Type 0 where
  store_after : CaptureStore
  shared_after : Shared
  removed : ℕ
  returns :
      remove_each sequences before shared count ≡ some (store_after, shared_after, count + removed)
  deletes : Removed sequences before.captures store_after.captures removed

remove_each-Deletes :
    (k : ℕ) (sequences : List ℕ) (store : CaptureStore) (shared : Shared) (count : ℕ)
    → Room (length sequences) k shared
    → Allocated k store.captures
    → IsSorted store.captures
    → Deletes sequences store shared count
unfolding remove_each
remove_each-Deletes k [] store shared count room a sorted = record {
  store_after = store;
  shared_after = shared;
  removed = 0;
  returns = ap (λ n. some (store, shared, n)) (omega arith);
  deletes = record { lookup = λ j. refl; counted = omega arith; sorted = sorted };
}
remove_each-Deletes k (s ∷ later) store shared count room a sorted =
    elim (Option-cases (map_get s store.captures)) [
      | inl e ↦
          let smaller : Room (length later) k shared = record {
            epochs = omega (arith, room.epochs);
            allocated = room.allocated;
          } in
          let d = remove_each-Deletes k later store shared count smaller a sorted in
          record {
            store_after = d.store_after;
            shared_after = d.shared_after;
            removed = d.removed;
            returns = rw (remove_each, e) d.returns;
            deletes =
                Removed-skip s later store.captures d.store_after.captures d.removed e d.deletes;
          }
      | inr (p, e) ↦
          let rest = map_remove s store.captures in
          let mapped : CaptureStore = record store { captures = rest } in
          let (shared', f, room', _) =
            discard_total explicit_delete (length later) k p mapped shared room
              (map_get-Allocated s k p store.captures a e) in
          let d =
            remove_each-Deletes k later
              (record mapped { retained_bytes = mapped.retained_bytes - bytes_in shared.records p })
              shared' (count + 1) room' (map_remove-Allocated k s store.captures a)
              (map_remove-IsSorted s store.captures sorted) in
          record {
            store_after = d.store_after;
            shared_after = d.shared_after;
            removed = d.removed + 1;
            returns =
                rw (remove_each, e, f)
                  (d.returns ∙ ap (λ n. some (d.store_after, d.shared_after, n)) (omega arith));
            deletes =
                Removed-cons s p later store.captures d.store_after.captures d.removed sorted e
                  d.deletes;
          }
    ]

bump_captures : (b : Bool) (s : CaptureStore) → (if b then bump s else s).captures ≡ s.captures
bump_captures true s = refl
bump_captures false s = refl

-- what `remove_sequences` leaves
pub record RemovesSequences (sequences : List ℕ) (store : CaptureStore) (shared : Shared)
    : Type 0 where
  pub store_after : CaptureStore
  pub shared_after : Shared
  pub removed : ℕ
  pub returns : remove_sequences store shared sequences ≡ some (store_after, shared_after, removed)
  pub lookup :
      (j : ℕ)
      → map_get j store_after.captures
        ≡ (if has j sequences then none else map_get j store.captures)
  pub counted : length store_after.captures + removed ≡ length store.captures
  pub sorted : IsSorted store_after.captures

-- In a sorted store whose pointers are all allocated, and while epochs remain for as many changes as
-- there are sequences, `remove_sequences` returns; afterwards a sequence is in the store just when it
-- was there and is not among those given, the count returned is the number of entries that went, and
-- the store is sorted, whatever the order of the sequences and however often one is repeated.
pub remove_sequences-RemovesSequences :
    (k : ℕ) (sequences : List ℕ) (store : CaptureStore) (shared : Shared)
    → Room (length sequences) k shared
    → Allocated k store.captures
    → IsSorted store.captures
    → RemovesSequences sequences store shared
unfolding remove_sequences
remove_sequences-RemovesSequences k sequences store shared room a sorted =
    let fewer = length-collect_set sequences in
    let enough : Room (length (collect_set sequences)) k shared = record {
      epochs = omega (arith, room.epochs);
      allocated = room.allocated;
    } in
    let d = remove_each-Deletes k (collect_set sequences) store shared 0 enough a sorted in
    let kept = λ (j : ℕ).
      d.deletes.lookup j
      ∙ ap (λ b. if b then none else map_get j store.captures) (has-collect_set j sequences) in
    let same = bump_captures (ltb 0 d.removed) d.store_after in
    record {
      store_after = if ltb 0 d.removed then bump d.store_after else d.store_after;
      shared_after = d.shared_after;
      removed = d.removed;
      returns =
          rw (remove_sequences, d.returns)
            (ap
              (λ n. some (if ltb 0 n then bump d.store_after else d.store_after, d.shared_after, n))
              (omega arith));
      lookup = λ j. ap (map_get j) same ∙ kept j;
      counted = rw (same) d.deletes.counted;
      sorted = subst IsSorted (sym same) d.deletes.sorted;
    }
