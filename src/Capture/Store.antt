-- ===== src/Capture/Store.antt =====
-- The capture store, src/capture/store.rs. Records are shared, so they stand in an arena that the
-- proxy's handles write too, and the store holds pointers to it. The `BTreeMap` is a list of sequences
-- and pointers in ascending order. `none` is a panic, or a dangling pointer, which an `Arc` never is.
pub mod Ordered
pub mod Retention
pub mod Insert
pub mod Remove
use fluxcope.Common.{
  ℕ, ◌+◌, ◌-◌, Bool, true, false, ◌||◌, Option, none, some, List, [], ◌∷◌, length, get_elem?, set,
  wrap, sat_add, ltb, leb, ◌==◌, if◌then◌else◌,
}
use fluxcope.Common.Outcome.Panic.{◌>>=◌}
use fluxcope.Capture.Feed.{
  CaptureChangeKind, explicit_delete, clear as clearing, retention_eviction, ChangeState,
}
use fluxcope.Capture.Record.{CaptureRecord, bind_change_feed, remove_from_store}

pub record CaptureRetentionPolicy : Type 0 where
  pub max_records : ℕ
  pub max_bytes : ℕ

abbrev pub default_policy : CaptureRetentionPolicy
default_policy = record { max_records = 10000; max_bytes = 268435456 }

-- a sequence with the pointer of its record
abbrev pub Entry : Type 0
Entry = ℕ × ℕ

pub record CaptureStore : Type 0 where
  pub captures : List Entry
  pub policy : CaptureRetentionPolicy
  pub retained_bytes : ℕ
  pub revision : ℕ

abbrev pub new : CaptureRetentionPolicy → CaptureStore
new policy = record { captures = []; policy = policy; retained_bytes = 0; revision = 0 }

-- the records that the `Arc`s point to, and the feed that they share
pub record Shared : Type 0 where
  pub records : List CaptureRecord
  pub feed : ChangeState

-- one locked operation on the record at a pointer, and the record after it
unfoldable pub with_record :
    Shared
    → ℕ
    → (CaptureRecord → ChangeState → Option (CaptureRecord × ChangeState))
    → Option (CaptureRecord × Shared)
with_record shared p operation = do
  r ← get_elem? shared.records p
  (r', feed') ← operation r shared.feed
  some (r', record { records = set shared.records p r'; feed = feed' })

-- `BTreeMap::insert`, with the value that it replaced
unfoldable pub map_insert : ℕ → ℕ → List Entry → List Entry
map_insert k p [] = (k, p) ∷ []
map_insert k p ((j, q) ∷ m) =
    if ltb k j
    then (k, p) ∷ (j, q) ∷ m
    else if k == j
    then (k, p) ∷ m
    else (j, q) ∷ map_insert k p m

unfoldable pub map_get : ℕ → List Entry → Option ℕ
map_get k [] = none
map_get k ((j, q) ∷ m) = if k == j then some q else map_get k m

unfoldable pub map_remove : ℕ → List Entry → List Entry
map_remove k [] = []
map_remove k ((j, q) ∷ m) = if k == j then m else (j, q) ∷ map_remove k m

-- `range(..=k).next_back()`
unfoldable pub map_last_le : ℕ → List Entry → Option ℕ
map_last_le k [] = none
map_last_le k ((j, q) ∷ m) =
    let later = map_last_le k m in
    if leb j k then elim later [ none ↦ some q | some p ↦ some p ] else none

unfoldable pub get : CaptureStore → ℕ → Option ℕ
get store sequence = map_get sequence store.captures

unfoldable pub next_at_or_before : CaptureStore → ℕ → Option ℕ
next_at_or_before store sequence = map_last_le sequence store.captures

abbrev pub bump : CaptureStore → CaptureStore
bump store = record store { revision = wrap (store.revision + 1) }

-- `remove_from_store`, and the bytes taken off the count
abbrev pub discard : CaptureChangeKind → CaptureStore → Shared → ℕ → Option (CaptureStore × Shared)
discard kind store shared p = do
  (r, shared') ← with_record shared p (remove_from_store kind)
  some (record store { retained_bytes = store.retained_bytes - r.retained_bytes }, shared')

unfoldable pub evict_oldest : CaptureStore → Shared → Option (CaptureStore × Shared × Option ℕ)
evict_oldest store shared = elim store.captures [
  | [] ↦ some (store, shared, none)
  | (sequence, p) ∷ rest ↦ do
    (store', shared') ← discard retention_eviction (record store { captures = rest }) shared p
    some (bump store', shared', some sequence)
]

unfoldable pub exceeds : CaptureStore → Bool
exceeds store =
    ltb store.policy.max_records (length store.captures)
    || ltb store.policy.max_bytes store.retained_bytes

-- `while over the policy { evict, or break on an empty map }`: one round for each entry that is left
unfoldable pub enforce_rounds :
    List Entry → Bool → CaptureStore → Shared → Option (CaptureStore × Shared × Bool)
enforce_rounds [] evicted store shared = some (store, shared, evicted)
enforce_rounds (e ∷ left) evicted store shared =
    let next = do
      (store', shared', _) ← evict_oldest store shared
      enforce_rounds left true store' shared'
    in if exceeds store then next else some (store, shared, evicted)

unfoldable pub enforce_cached_retention :
    CaptureStore → Shared → Option (CaptureStore × Shared × Bool)
unfolding enforce_rounds
enforce_cached_retention store shared = enforce_rounds store.captures false store shared

abbrev pub replace : Option ℕ → CaptureStore → Shared → Option (CaptureStore × Shared)
replace none store shared = some (store, shared)
replace (some old) store shared = discard explicit_delete store shared old

unfoldable pub insert : CaptureStore → Shared → ℕ → Option (CaptureStore × Shared × Bool)
insert store shared p = do
  capture ← get_elem? shared.records p
  let mapped : CaptureStore = record store {
    captures = map_insert capture.sequence p store.captures;
  }
  (store', shared') ← replace (map_get capture.sequence store.captures) mapped shared
  (_, shared'') ← with_record shared' p bind_change_feed
  enforce_cached_retention
      (bump
        (record store' { retained_bytes = sat_add store'.retained_bytes capture.retained_bytes }))
      shared''

-- the loop over the `BTreeSet` of the sequences, which the caller's list is collected into
unfoldable pub remove_each : List ℕ → CaptureStore → Shared → ℕ → Option (CaptureStore × Shared × ℕ)
remove_each [] store shared removed = some (store, shared, removed)
remove_each (sequence ∷ later) store shared removed = elim (map_get sequence store.captures) [
  | none ↦ remove_each later store shared removed
  | some p ↦ do
    let mapped : CaptureStore = record store { captures = map_remove sequence store.captures }
    (store', shared') ← discard explicit_delete mapped shared p
    remove_each later store' shared' (removed + 1)
]

-- `collect::<BTreeSet<_>>()`: ascending, each once
unfoldable pub set_insert : ℕ → List ℕ → List ℕ
set_insert k [] = k ∷ []
set_insert k (j ∷ s) = if ltb k j then k ∷ j ∷ s else if k == j then j ∷ s else j ∷ set_insert k s

unfoldable pub collect_set : List ℕ → List ℕ
unfolding set_insert
collect_set [] = []
collect_set (k ∷ ks) = set_insert k (collect_set ks)

unfoldable pub remove_sequences :
    CaptureStore → Shared → List ℕ → Option (CaptureStore × Shared × ℕ)
unfolding remove_each collect_set
remove_sequences store shared sequences = do
  (store', shared', removed) ← remove_each (collect_set sequences) store shared 0
  some (if ltb 0 removed then bump store' else store', shared', removed)

-- the loop of `clear` over the values
unfoldable pub clear_each : List Entry → Shared → Option Shared
clear_each [] shared = some shared
clear_each ((_, p) ∷ m) shared = do
  (_, shared') ← with_record shared p (remove_from_store clearing)
  clear_each m shared'

unfoldable pub clear : CaptureStore → Shared → Option (CaptureStore × Shared × ℕ)
unfolding clear_each
clear store shared = do
  shared' ← clear_each store.captures shared
  let removed = length store.captures
  let emptied : CaptureStore = record store { captures = []; retained_bytes = 0 }
  some (if ltb 0 removed then bump emptied else emptied, shared', removed)
