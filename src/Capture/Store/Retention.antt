-- ===== src/Capture/Store/Retention.antt =====
-- Retention, src/capture/store.rs: an insertion returns, evicts from the oldest end, and leaves the
-- store within its policy or empty.
use fluxcope.Common.{
  zero, sym, ap, subst, take, get_elem?, ltb→lt, ℕ, suc, ◌+◌, ◌-◌, ◌<◌, ◌≤◌, ◌≡◌, refl, ◌∙◌, Bool,
  true, false, ◌||◌, Option, some, List, [], ◌∷◌, ◌++◌, inl, inr, ◌⊎◌, arith, u64_max, length, drop,
  set, length-set, get_elem?_lt, ltb, Bool-cases, if_true, if_false,
}
use fluxcope.Capture.Feed.{
  CaptureChange, CaptureChangeKind, ChangeState, admitted, make_room, publish, retention_eviction,
}
use fluxcope.Capture.Record.{CaptureRecord, bind_change_feed, remove_from_store}
use fluxcope.Capture.Store.{
  Entry, CaptureStore, Shared, with_record, discard, evict_oldest, exceeds, enforce_rounds, bump,
}

-- `n` more publications fit before the epoch is exhausted, and `k` records are allocated
pub record Room (n k : ℕ) (shared : Shared) : Type 0 where
  pub epochs : shared.feed.epoch + n ≤ u64_max
  pub allocated : length shared.records ≡ k

-- every pointer of the map is allocated
abbrev pub Allocated : ℕ → List Entry → Type 0
Allocated k [] = Unit {0}
Allocated k (e ∷ m) = (e.1 < k) × Allocated k m

publish_total :
    (sequence revision : ℕ) (kind : CaptureChangeKind) (feed : ChangeState)
    → feed.epoch < u64_max
    → (c : CaptureChange) × (feed' : ChangeState) × (publish sequence revision kind feed
        ≡ some (c, feed'))
      × (feed'.epoch ≡ feed.epoch + 1)
unfolding publish
publish_total sequence revision kind feed h =
    let c : CaptureChange = record {
      epoch = feed.epoch + 1;
      sequence = sequence;
      revision = revision;
      kind = kind;
    } in
    (
      c,
      record {
        epoch = feed.epoch + 1;
        retained = make_room feed.retained ++ c ∷ [];
        sent = feed.epoch + 1;
      },
      ground arith,
      refl,
    )

-- the retained bytes of the record at a pointer
abbrev pub bytes_in : List CaptureRecord → ℕ → ℕ
bytes_in [] p = 0
bytes_in (r ∷ records) zero = r.retained_bytes
bytes_in (r ∷ records) (suc p) = bytes_in records p

-- those of the records of some entries
abbrev pub bytes_of : Shared → List Entry → ℕ
bytes_of shared [] = 0
bytes_of shared (e ∷ m) = bytes_in shared.records e.1 + bytes_of shared m

abbrev pub SameBytes : Shared → Shared → Type 0
SameBytes shared shared' = (p : ℕ) → bytes_in shared'.records p ≡ bytes_in shared.records p

pub bytes_of-SameBytes :
    (shared shared' : Shared) (m : List Entry)
    → SameBytes shared shared'
    → bytes_of shared' m ≡ bytes_of shared m
bytes_of-SameBytes shared shared' [] h = refl
bytes_of-SameBytes shared shared' (e ∷ m) h =
    omega (arith, h e.1, bytes_of-SameBytes shared shared' m h)

bytes_in_found :
    (records : List CaptureRecord) (p : ℕ) {r : CaptureRecord}
    → get_elem? records p ≡ some r
    → r.retained_bytes ≡ bytes_in records p
bytes_in_found [] p e = absurd (cc (e))
bytes_in_found (x ∷ records) zero {r} e =
    let same : x ≡ r = cc (e) in ap (λ (y : CaptureRecord). y.retained_bytes) (sym same)
bytes_in_found (x ∷ records) (suc p) e = bytes_in_found records p e

bytes_in-set :
    (records : List CaptureRecord) (p : ℕ) (r' : CaptureRecord) (q : ℕ)
    → r'.retained_bytes ≡ bytes_in records p
    → bytes_in (set records p r') q ≡ bytes_in records q
bytes_in-set [] p r' q e = refl
bytes_in-set (x ∷ records) zero r' zero e = e
bytes_in-set (x ∷ records) zero r' (suc q) e = refl
bytes_in-set (x ∷ records) (suc p) r' zero e = refl
bytes_in-set (x ∷ records) (suc p) r' (suc q) e = bytes_in-set records p r' q e

-- An operation that returns for any record, keeps its bytes, and publishes once at most.
abbrev pub Publishes : (CaptureRecord → ChangeState → Option (CaptureRecord × ChangeState)) → Type 0
Publishes operation =
    (r : CaptureRecord) (feed : ChangeState)
    → feed.epoch < u64_max
    → (r' : CaptureRecord) × (feed' : ChangeState) × (operation r feed ≡ some (r', feed'))
      × (feed'.epoch ≤ feed.epoch + 1)
      × (r'.retained_bytes ≡ r.retained_bytes)

remove_from_store-Publishes : (kind : CaptureChangeKind) → Publishes (remove_from_store kind)
unfolding remove_from_store
remove_from_store-Publishes kind r feed h = elim (Bool-cases r.feed_bound) [
  | inl bound ↦
      let (c, feed', e, up) = publish_total r.sequence r.revision kind feed h in
      (
        record r { capture_disabled = true; feed_bound = false },
        feed',
        if_true _ _ _ bound ∙ rw e,
        omega arith,
        refl,
      )
  | inr loose ↦
      (record r { capture_disabled = true }, feed, if_false _ _ _ loose, omega arith, refl)
]

pub bind_change_feed-Publishes : Publishes bind_change_feed
unfolding bind_change_feed
bind_change_feed-Publishes r feed h = elim (Bool-cases r.feed_bound) [
  | inl bound ↦ (r, feed, if_true _ _ _ bound, omega arith, refl)
  | inr loose ↦
      let (c, feed', e, up) = publish_total r.sequence r.revision admitted feed h in
      (record r { feed_bound = true }, feed', if_false _ _ _ loose ∙ rw e, omega arith, refl)
]

pub with_record_total :
    (operation : CaptureRecord → ChangeState → Option (CaptureRecord × ChangeState)) (n k p : ℕ)
    (shared : Shared)
    → Publishes operation
    → Room (suc n) k shared
    → p < k
    → (r : CaptureRecord) × (shared' : Shared) × (with_record shared p operation
        ≡ some (r, shared'))
      × Room n k shared'
      × (r.retained_bytes ≡ bytes_in shared.records p)
      × SameBytes shared shared'
unfolding with_record
with_record_total operation n k p shared h room a =
    let (r, found) = get_elem?_lt shared.records p (omega (arith, room.allocated)) in
    let (r', feed', e, up, kept) = h r shared.feed (omega (arith, room.epochs)) in
    let bytes = kept ∙ bytes_in_found shared.records p found in
    (
      r',
      record { records = set shared.records p r'; feed = feed' },
      rw (found, e),
      record {
        epochs = omega (arith, room.epochs);
        allocated = length-set shared.records p r' ∙ room.allocated;
      },
      bytes,
      λ q. bytes_in-set shared.records p r' q bytes,
    )

pub discard_total :
    (kind : CaptureChangeKind) (n k p : ℕ) (store : CaptureStore) (shared : Shared)
    → Room (suc n) k shared
    → p < k
    → (shared' : Shared) × (discard kind store shared p
        ≡ some (
          record store { retained_bytes = store.retained_bytes - bytes_in shared.records p },
          shared',
        ))
      × Room n k shared'
      × SameBytes shared shared'
discard_total kind n k p store shared room a =
    let (r, shared', e, room', bytes, same) =
      with_record_total (remove_from_store kind) n k p shared (remove_from_store-Publishes kind)
        room a in
    (
      shared',
      rw e (
          ap (λ b. some (record store { retained_bytes = store.retained_bytes - b }, shared'))
            bytes),
      room',
      same,
    )

evict_oldest_total :
    (n k : ℕ) (e : Entry) (rest : List Entry) (store : CaptureStore) (shared : Shared)
    → store.captures ≡ e ∷ rest
    → Room (suc n) k shared
    → e.1 < k
    → (shared' : Shared) × (evict_oldest store shared
        ≡ some (
          bump (record store {
            captures = rest;
            retained_bytes = store.retained_bytes - bytes_in shared.records e.1;
          }),
          shared',
          some e.0,
        ))
      × Room n k shared'
      × SameBytes shared shared'
unfolding evict_oldest
evict_oldest_total n k e rest store shared c room a =
    let (shared', d, room', same) =
      discard_total retention_eviction n k e.1 (record store { captures = rest }) shared room a in
    (shared', rw c (rw d), room', same)

exceeds-true :
    (store : CaptureStore)
    → exceeds store ≡ true
    → (store.policy.max_records < length store.captures)
      ⊎ (store.policy.max_bytes < store.retained_bytes)
unfolding exceeds
exceeds-true store h = elim (Bool-cases (ltb store.policy.max_records (length store.captures))) [
  | inl many ↦ inl (ltb→lt store.policy.max_records (length store.captures) many)
  | inr few ↦ inr (ground (arith, few))
]

exceeds-false :
    (store : CaptureStore)
    → exceeds store ≡ false
    → (length store.captures ≤ store.policy.max_records)
      × (store.retained_bytes ≤ store.policy.max_bytes)
unfolding exceeds
exceeds-false store h = ground arith

-- What is left: the newest entries of `from`, within both limits of the policy unless nothing is left,
-- the bytes of the dropped entries taken off the count. Dropping fewer would not do: the count or the
-- number of entries was over its limit before each drop.
pub record Keeps (shared : Shared) (from : List Entry) (before after : CaptureStore)
    (evicted was_evicted : Bool) : Type 0 where
  pub dropped : ℕ
  pub newest : after.captures ≡ drop dropped from
  pub counted : after.retained_bytes ≡ before.retained_bytes - bytes_of shared (take dropped from)
  pub reported : evicted ≡ (was_evicted || ltb 0 dropped)
  pub policy_is : after.policy ≡ before.policy
  pub within :
      ((length after.captures ≤ after.policy.max_records)
        × (after.retained_bytes ≤ after.policy.max_bytes))
      ⊎ (after.captures ≡ [])
  pub least :
      (d : ℕ)
      → d < dropped
      → (before.policy.max_records < length from - d)
        ⊎ (before.policy.max_bytes < before.retained_bytes - bytes_of shared (take d from))

least-cons :
    (shared shared' : Shared) (e : Entry) (left : List Entry) (store : CaptureStore) (dropped : ℕ)
    → SameBytes shared shared'
    → (store.policy.max_records < length (e ∷ left))
      ⊎ (store.policy.max_bytes < store.retained_bytes)
    → ((d : ℕ)
        → d < dropped
        → (store.policy.max_records < length left - d)
          ⊎ (store.policy.max_bytes
              < store.retained_bytes
                - bytes_in shared.records e.1
                - bytes_of shared' (take d left)))
    → (d : ℕ) → d < suc dropped
    → (store.policy.max_records < length (e ∷ left) - d)
      ⊎ (store.policy.max_bytes < store.retained_bytes - bytes_of shared (take d (e ∷ left)))
least-cons shared shared' e left store dropped same first later zero h = elim first [
  | inl many ↦ inl (omega (arith, many))
  | inr heavy ↦ inr (omega (arith, heavy))
]
least-cons shared shared' e left store dropped same first later (suc d) h =
    elim (later d (omega arith)) [
      | inl many ↦ inl (omega (arith, many))
      | inr heavy ↦ inr (omega (arith, heavy, bytes_of-SameBytes shared shared' (take d left) same))
    ]

pub enforce_rounds_total :
    (left : List Entry) (k : ℕ) (was_evicted : Bool) (store : CaptureStore) (shared : Shared)
    → store.captures ≡ left
    → Room (length left) k shared
    → Allocated k left
    → (store' : CaptureStore) × (shared' : Shared) × (evicted : Bool) × (enforce_rounds left
          was_evicted store shared
        ≡ some (store', shared', evicted))
      × Keeps shared left store store' evicted was_evicted
unfolding enforce_rounds
enforce_rounds_total [] k was_evicted store shared c room a = (
  store,
  shared,
  was_evicted,
  refl,
  record {
    dropped = 0;
    newest = c;
    counted = omega arith;
    reported = ground arith;
    policy_is = refl;
    within = inr c;
    least = λ d h. absurd (omega arith);
  },
)
enforce_rounds_total (e ∷ left) k was_evicted store shared c room a =
    elim (Bool-cases (exceeds store)) [
      | inr fits ↦ (
        store,
        shared,
        was_evicted,
        if_false _ _ _ fits,
        record {
          dropped = 0;
          newest = c;
          counted = omega arith;
          reported = ground arith;
          policy_is = refl;
          within = inl (exceeds-false store fits);
          least = λ d h. absurd (omega arith);
        },
      )
      | inl over ↦
          let (shared', v, room', same) =
            evict_oldest_total (length left) k e left store shared c room a.0 in
          let evicted_store : CaptureStore = bump (record store {
            captures = left;
            retained_bytes = store.retained_bytes - bytes_in shared.records e.1;
          }) in
          let (store'', shared'', evicted, r, keeps) =
            enforce_rounds_total left k true evicted_store shared' refl room' a.1 in
          (
            store'',
            shared'',
            evicted,
            if_true _ _ _ over ∙ rw (v, r),
            record {
              dropped = suc keeps.dropped;
              newest = keeps.newest;
              counted =
                  keeps.counted
                  ∙ omega (arith, bytes_of-SameBytes shared shared' (take keeps.dropped left) same);
              reported = keeps.reported ∙ ground arith;
              policy_is = keeps.policy_is;
              within = keeps.within;
              least =
                  least-cons shared shared' e left store keeps.dropped same
                    (subst
                      (λ m.
                        (store.policy.max_records < length m)
                        ⊎ (store.policy.max_bytes < store.retained_bytes))
                      c (exceeds-true store over))
                    keeps.least;
            },
          )
    ]
