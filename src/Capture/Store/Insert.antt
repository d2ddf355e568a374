-- ===== src/Capture/Store/Insert.antt =====
-- `insert`, src/capture/store.rs: the new capture is in its place, the oldest ones make room.
use fluxcope.Common.{
  none, take, subst, ℕ, zero, suc, ◌+◌, ◌-◌, ◌<◌, ◌≤◌, ◌≡◌, refl, sym, ap, ◌∙◌, Bool, false, Option,
  some, List, [], ◌∷◌, inl, inr, ◌⊎◌, arith, length, drop, get_elem?, ltb, sat_add, Option-cases,
}
use fluxcope.Capture.Feed.{explicit_delete}
use fluxcope.Capture.Record.{CaptureRecord, bind_change_feed}
use fluxcope.Capture.Store.{
  CaptureRetentionPolicy, enforce_rounds, Entry, CaptureStore, Shared, with_record, map_insert,
  map_get, enforce_cached_retention, replace, bump, insert,
}
use fluxcope.Capture.Store.Ordered.{IsSorted, map_insert-IsSorted}
use fluxcope.Capture.Store.Retention.{
  bytes_in, bytes_of, SameBytes, bytes_of-SameBytes, Room, Allocated, bind_change_feed-Publishes,
  with_record_total, discard_total, enforce_rounds_total,
}

pub map_get-Allocated :
    (s k : ℕ) (p : ℕ) (m : List Entry) → Allocated k m → map_get s m ≡ some p → p < k
unfolding map_get
map_get-Allocated s k p [] a e = cc
map_get-Allocated s k p (x ∷ m) a e = ground (arith, map_get-Allocated s k p m a.1)

map_insert-Allocated :
    (s p k : ℕ) (m : List Entry) → p < k → Allocated k m → Allocated k (map_insert s p m)
unfolding map_insert
map_insert-Allocated s p k [] h a = (h, tt)
map_insert-Allocated s p k (x ∷ m) h a = ground (arith, map_insert-Allocated s p k m h)

length-map_insert-le : (s p : ℕ) (m : List Entry) → length (map_insert s p m) ≤ length m + 1
unfolding map_insert
length-map_insert-le s p [] = omega arith
length-map_insert-le s p (x ∷ m) = ground (arith, length-map_insert-le s p m)

drop-Sorted : (n : ℕ) (m : List Entry) → IsSorted m → IsSorted (drop n m)
drop-Sorted zero m s = s
drop-Sorted (suc n) [] s = s
drop-Sorted (suc n) (e ∷ m) s = drop-Sorted n m s.1

Room-weaken : {m n k : ℕ} {shared : Shared} → n ≤ m → Room m k shared → Room n k shared
Room-weaken h r = record { epochs = omega (arith, r.epochs); allocated = r.allocated }

-- the bytes of the record that a sequence had before, if any
abbrev pub replaced_bytes : Shared → Option ℕ → ℕ
replaced_bytes shared none = 0
replaced_bytes shared (some old) = bytes_in shared.records old

-- the store before retention is enforced
record Replaced (captures : List Entry) (bytes : ℕ) (store after : CaptureStore) : Type 0 where
  captures_are : after.captures ≡ captures
  bytes_are : after.retained_bytes ≡ store.retained_bytes - bytes
  policy_is : after.policy ≡ store.policy

replace_total :
    (n k s : ℕ) (m : List Entry) (store : CaptureStore) (shared : Shared)
    → Room (suc n) k shared
    → Allocated k m
    → (store' : CaptureStore) × (shared' : Shared) × (replace (map_get s m) store shared
        ≡ some (store', shared'))
      × Replaced store.captures (replaced_bytes shared (map_get s m)) store store'
      × Room n k shared'
      × SameBytes shared shared'
replace_total n k s m store shared room a = elim (Option-cases (map_get s m)) [
  | inl absent ↦ (
    store,
    shared,
    rw absent,
    record { captures_are = refl; bytes_are = rw absent (omega arith); policy_is = refl },
    Room-weaken (omega arith) room,
    λ p. refl,
  )
  | inr (old, there) ↦
      let (shared', e, room', same) =
        discard_total explicit_delete n k old store shared room
          (map_get-Allocated s k old m a there) in
      (
        record store { retained_bytes = store.retained_bytes - bytes_in shared.records old },
        shared',
        rw there e,
        record { captures_are = refl; bytes_are = rw there refl; policy_is = refl },
        room',
        same,
      )
]

-- `insert` in one equation, when its first steps return
insert_steps :
    (p : ℕ) (capture : CaptureRecord) (store : CaptureStore) (shared : Shared)
    → get_elem? shared.records p ≡ some capture
    → (store' : CaptureStore) (shared' shared'' : Shared) (r : CaptureRecord)
    → replace
        (map_get capture.sequence store.captures)
        (record store { captures = map_insert capture.sequence p store.captures })
        shared
      ≡ some (store', shared')
    → with_record shared' p bind_change_feed ≡ some (r, shared'')
    → insert store shared p
      ≡ enforce_cached_retention
          (bump (record store' {
            retained_bytes = sat_add store'.retained_bytes capture.retained_bytes;
          }))
          shared''
unfolding insert
insert_steps p capture store shared found store' shared' shared'' r e b = rw (found, e, b)

enforced :
    {caps : List Entry} (store : CaptureStore) (shared : Shared)
    {r : Option (CaptureStore × Shared × Bool)}
    → store.captures ≡ caps
    → enforce_rounds caps false store shared ≡ r
    → enforce_cached_retention store shared ≡ r
unfolding enforce_cached_retention
enforced store shared c e = ap (λ m. enforce_rounds m false store shared) c ∙ e

-- the entries with the capture in its place, and the store's count of bytes with it
abbrev pub entries_with : CaptureRecord → ℕ → CaptureStore → List Entry
entries_with capture p store = map_insert capture.sequence p store.captures

abbrev pub count_with : CaptureRecord → CaptureStore → Shared → ℕ
count_with capture store shared =
    sat_add (store.retained_bytes - replaced_bytes shared (map_get capture.sequence store.captures))
      capture.retained_bytes

-- What an insertion leaves, the number of evicted entries being `dropped`.
pub record Inserted (capture : CaptureRecord) (p : ℕ) (store : CaptureStore) (shared : Shared)
    : Type 0 where
  pub store_after : CaptureStore
  pub shared_after : Shared
  pub evicted : Bool
  pub dropped : ℕ
  pub returns : insert store shared p ≡ some (store_after, shared_after, evicted)
  pub newest : store_after.captures ≡ drop dropped (entries_with capture p store)
  pub counted :
      store_after.retained_bytes
      ≡ count_with capture store shared
        - bytes_of shared (take dropped (entries_with capture p store))
  pub reported : evicted ≡ ltb 0 dropped
  pub policy_is : store_after.policy ≡ store.policy
  pub within :
      ((length store_after.captures ≤ store.policy.max_records)
        × (store_after.retained_bytes ≤ store.policy.max_bytes))
      ⊎ (store_after.captures ≡ [])
  pub least :
      (d : ℕ)
      → d < dropped
      → (store.policy.max_records < length (entries_with capture p store) - d)
        ⊎ (store.policy.max_bytes
            < count_with capture store shared
              - bytes_of shared (take d (entries_with capture p store)))
  pub sorted : IsSorted store_after.captures

-- a limit of the counted store, read in the store and the arena before
over_before :
    (n bytes bytes' count count' : ℕ) (policy policy' : CaptureRetentionPolicy)
    → (policy'.max_records < n) ⊎ (policy'.max_bytes < count' - bytes')
    → policy' ≡ policy
    → count' ≡ count
    → bytes' ≡ bytes
    → (policy.max_records < n) ⊎ (policy.max_bytes < count - bytes)
over_before n bytes bytes' count count' policy policy' (inl many) p c b =
    inl (omega (arith, many, ap (λ (q : CaptureRetentionPolicy). q.max_records) p))
over_before n bytes bytes' count count' policy policy' (inr heavy) p c b =
    inr (omega (arith, heavy, c, b, ap (λ (q : CaptureRetentionPolicy). q.max_bytes) p))

-- In a sorted store whose pointers are all allocated, and while epochs remain for the changes it may
-- publish, `insert` of an allocated record returns. The store then holds the newest entries of the
-- old ones with the capture in its place, in ascending order, and its count of bytes is the old one
-- less the replaced record's bytes, with the capture's, less the evicted records'. It has at most the
-- policy's records and counts at most the policy's bytes, unless it is empty; and it evicts no more
-- than needed, as before each eviction there were more records or more bytes counted than allowed.
-- The result tells whether any was evicted.
pub insert-Inserted :
    (k p : ℕ) (capture : CaptureRecord) (store : CaptureStore) (shared : Shared)
    → Room (length store.captures + 3) k shared
    → Allocated k store.captures
    → p < k
    → get_elem? shared.records p ≡ some capture
    → IsSorted store.captures
    → Inserted capture p store shared
insert-Inserted k p capture store shared room a h found sorted =
    let caps = entries_with capture p store in
    let mapped : CaptureStore = record store { captures = caps } in
    let (store', shared', e, rep, room', same) =
      replace_total (suc (suc (length store.captures))) k capture.sequence store.captures mapped
        shared (Room-weaken (omega arith) room) a in
    let (r, shared'', b, room'', _, same') =
      with_record_total bind_change_feed (suc (length store.captures)) k p shared'
        bind_change_feed-Publishes room' h in
    let counted_store : CaptureStore =
      bump
        (record store' { retained_bytes = sat_add store'.retained_bytes capture.retained_bytes }) in
    let (after, last, evicted, f, keeps) =
      enforce_rounds_total caps k false counted_store shared'' rep.captures_are
        (Room-weaken (omega (arith, length-map_insert-le capture.sequence p store.captures)) room'')
        (map_insert-Allocated capture.sequence p k store.captures h a) in
    let counts : counted_store.retained_bytes ≡ count_with capture store shared =
      ap (λ n. sat_add n capture.retained_bytes) rep.bytes_are in
    let both : SameBytes shared shared'' = λ q. same' q ∙ same q in
    record {
      store_after = after;
      shared_after = last;
      evicted = evicted;
      dropped = keeps.dropped;
      returns =
          insert_steps p capture store shared found store' shared' shared'' r e b
          ∙ enforced counted_store shared'' rep.captures_are f;
      newest = keeps.newest;
      counted =
          keeps.counted
          ∙ omega
              (arith, counts, bytes_of-SameBytes shared shared'' (take keeps.dropped caps) both);
      reported = keeps.reported;
      policy_is = keeps.policy_is ∙ rep.policy_is;
      within =
          subst
            (λ (q : CaptureRetentionPolicy).
              ((length after.captures ≤ q.max_records) × (after.retained_bytes ≤ q.max_bytes))
              ⊎ (after.captures ≡ []))
            (keeps.policy_is ∙ rep.policy_is) keeps.within;
      least = λ d l.
          over_before (length caps - d) (bytes_of shared (take d caps))
            (bytes_of shared'' (take d caps)) (count_with capture store shared)
            counted_store.retained_bytes store.policy store'.policy (keeps.least d l) rep.policy_is
            counts (bytes_of-SameBytes shared shared'' (take d caps) both);
      sorted = subst IsSorted (sym keeps.newest) (
          drop-Sorted keeps.dropped caps
            (map_insert-IsSorted capture.sequence p store.captures sorted));
    }
