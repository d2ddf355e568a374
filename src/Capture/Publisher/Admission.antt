-- ===== src/Capture/Publisher/Admission.antt =====
-- Starting a capture, `try_start_at` of src/capture/publisher.rs: what an admission takes, and that a
-- refusal gives everything back.
use fluxcope.Common.{
  ℕ, zero, suc, ◌+◌, ◌≤◌, ◌<◌, ◌≡◌, refl, ◌∙◌, inl, inr, true, false, ◌||◌, Option, none, some,
  List, [], ◌∷◌, ◌++◌, arith, length, get_elem?, wrap, u64_max, Bool-cases, Option-cases,
}
use fluxcope.Capture.Budget.{MemoryBudget, reserve_exact, release}
use fluxcope.Capture.Record
use fluxcope.Capture.Record.{CaptureRecord, RequestMetadata, MetadataTruncation}
use fluxcope.Capture.Metadata.{RequestCaptureInput}
use fluxcope.Capture.Metadata.Measured.{Measured, measure_request_metadata-Measured}
use fluxcope.Capture.Publisher.{
  Semaphore, Sender, CapturePublisher, upgrade, start_permitted, try_start_at,
}
use fluxcope.Capture.Publisher.Live.{CaptureHandle, Noticed, new_lifecycle, refused, mark, bump_if}

-- an undisturbed exact reservation: it is granted just when the limit allows it
reserve_exact_lem :
    (budget : MemoryBudget) (requested : ℕ)
    → budget.used ≤ budget.limit
    → budget.limit < u64_max
    → ((reserve_exact budget requested []).0 ≡ true
        → ((reserve_exact budget requested []).1.used ≡ budget.used + requested)
          × (budget.used + requested ≤ budget.limit))
      × ((reserve_exact budget requested []).1.limit ≡ budget.limit)
unfolding reserve_exact
reserve_exact_lem budget requested h k = ground arith

get_elem?-last {ℓ} :
    {A : Type ℓ} (xs : List A) (x : A) → get_elem? (xs ++ x ∷ []) (length xs) ≡ some x
get_elem?-last [] x = refl
get_elem?-last (y ∷ xs) x = get_elem?-last xs x

get_elem?-before {ℓ} :
    {A : Type ℓ} (xs ys : List A) (i : ℕ) → i < length xs → get_elem? (xs ++ ys) i ≡ get_elem? xs i
get_elem?-before [] ys i h = absurd (omega arith)
get_elem?-before (x ∷ xs) ys zero h = refl
get_elem?-before (x ∷ xs) ys (suc i) h = get_elem?-before xs ys i (omega arith)

mark_pending : (n : Noticed) → (mark n.dirty).pending ≡ true
mark_pending n = ground arith

module _ (semaphore : Semaphore) (sender : Sender) where
  open semaphore use {available, try_acquire, give_back, acquired, given_back}
  open sender use {try_send}

  -- A refusal leaves as many permits and used bytes as there were, and the other records; it is
  -- counted, and the interface is told.
  pub record Refuses (p p' : CapturePublisher semaphore sender) : Type 0 where
    pub permits_same : available p'.admission ≡ available p.admission
    pub used_same : p'.budget.used ≡ p.budget.used
    pub others_same : (i : ℕ) → i < length p.cells → get_elem? p'.cells i ≡ get_elem? p.cells i
    pub counted :
        p'.noticed.metrics.exchanges_not_admitted
        ≡ wrap (p.noticed.metrics.exchanges_not_admitted + 1)
    pub told : p'.noticed.dirty.pending ≡ true

  -- An admission takes one permit, and exactly the bytes of the metadata that it keeps, within the
  -- limit; its handle points to a fresh record with the next sequence, and it has the permit.
  pub record Admits (p : CapturePublisher semaphore sender) (input : RequestCaptureInput)
      (started_mono : ℕ) (p' : CapturePublisher semaphore sender) (handle : CaptureHandle)
      : Type 0 where
    pub bytes : ℕ
    pub truncation : MetadataTruncation
    pub metadata : RequestMetadata
    pub keeps : Measured input p.policy bytes truncation metadata
    pub permit_taken : available p.admission ≡ suc (available p'.admission)
    pub used_is : p'.budget.used ≡ p.budget.used + bytes
    pub bounded : p'.budget.used ≤ p'.budget.limit
    pub others_same : (i : ℕ) → i < length p.cells → get_elem? p'.cells i ≡ get_elem? p.cells i
    pub points :
        upgrade semaphore sender p' handle
        ≡ some (Record.new p.next_sequence metadata truncation bytes bytes started_mono)
    pub lifecycle_is : handle.lifecycle ≡ new_lifecycle
    pub next_is : p'.next_sequence ≡ wrap (p.next_sequence + 1)
    pub told : p'.noticed.dirty.pending ≡ true

  abbrev pub Starts :
      CapturePublisher semaphore sender
      → RequestCaptureInput
      → ℕ
      → CapturePublisher semaphore sender
      → Option CaptureHandle
      → Type 0
  Starts p input started_mono p' none = Refuses p p'
  Starts p input started_mono p' (some handle) = Admits p input started_mono p' handle

  module _ (p : CapturePublisher semaphore sender) (input : RequestCaptureInput) (started_mono : ℕ)
      (used_ok : p.budget.used ≤ p.budget.limit) (limit_ok : p.budget.limit < u64_max) where
    try_start_at-busy :
        try_acquire p.admission ≡ none
        → try_start_at semaphore sender p input started_mono
          ≡ some (record p { noticed = refused false p.noticed }, none)
    unfolding try_start_at
    try_start_at-busy busy = rw (busy, try_start_at)

    module _ (permits : semaphore.Permits) (taken : try_acquire p.admission ≡ some permits) where
      abbrev holding : CapturePublisher semaphore sender
      holding = record p { admission = permits }

      try_start_at-permitted :
          try_start_at semaphore sender p input started_mono
          ≡ start_permitted semaphore sender holding input started_mono
      unfolding try_start_at
      try_start_at-permitted = rw (taken, try_start_at)

      start_permitted-Starts :
          (p' : CapturePublisher semaphore sender) × (started : Option CaptureHandle)
          × (start_permitted semaphore sender holding input started_mono ≡ some (p', started))
          × Starts p input started_mono p' started
      start_permitted-Starts =
          let (bytes, truncation, metadata, measured, keeps) =
            measure_request_metadata-Measured input p.policy in
          let (granted, limit_same) = reserve_exact_lem p.budget bytes used_ok limit_ok in
          let one = acquired p.admission permits taken in
          let back = given_back permits in
          elim (Bool-cases (reserve_exact p.budget bytes []).0) [
            | inr full ↦ (
              record holding { admission = give_back permits; noticed = refused true p.noticed },
              none,
              unfold start_permitted in rw (measured, full),
              record {
                permits_same = omega arith;
                used_same = refl;
                others_same = λ i h. refl;
                counted = refl;
                told = mark_pending p.noticed;
              },
            )
            | inl fits ↦
                let (used, bounded) = granted fits in
                let cut =
                  bump_if (truncation.request_headers || truncation.request_target)
                    p.noticed.metrics.metadata_truncated in
                let noticed : Noticed = record (p.noticed) {
                  metrics = record (p.noticed.metrics) { metadata_truncated = cut };
                } in
                elim (Option-cases (try_send p.tx (length p.cells))) [
                  | inl closed ↦ (
                    record holding {
                      next_sequence = wrap (p.next_sequence + 1);
                      admission = give_back permits;
                      budget = release (reserve_exact p.budget bytes []).1 bytes;
                      noticed = refused false noticed;
                      cells = p.cells ++ none ∷ [];
                    },
                    none,
                    unfold start_permitted in rw (measured, fits, keeps.captured, closed),
                    record {
                      permits_same = omega arith;
                      used_same = omega arith;
                      others_same = λ i h. get_elem?-before p.cells (none ∷ []) i h;
                      counted = refl;
                      told = mark_pending noticed;
                    },
                  )
                  | inr (tx, sent) ↦ (
                    record holding {
                      next_sequence = wrap (p.next_sequence + 1);
                      tx = tx;
                      budget = (reserve_exact p.budget bytes []).1;
                      noticed = record noticed { dirty = mark noticed.dirty };
                      cells =
                          p.cells
                          ++ some (
                              Record.new p.next_sequence metadata truncation bytes bytes
                                started_mono)
                            ∷ [];
                    },
                    some (record { pointer = length p.cells; lifecycle = new_lifecycle }),
                    unfold start_permitted in rw (measured, fits, keeps.captured, sent),
                    record {
                      bytes = bytes;
                      truncation = truncation;
                      metadata = metadata;
                      keeps = keeps;
                      permit_taken = one;
                      used_is = used;
                      bounded = omega arith;
                      others_same = λ i h.
                          get_elem?-before p.cells
                            (some (
                                Record.new p.next_sequence metadata truncation bytes bytes
                                  started_mono)
                              ∷ [])
                            i h;
                      points = rw (
                        get_elem?-last p.cells (
                            some (
                              Record.new p.next_sequence metadata truncation bytes bytes
                                started_mono)),
                        upgrade,
                      );
                      lifecycle_is = refl;
                      next_is = refl;
                      told = mark_pending noticed;
                    },
                  )
                ]
          ]

    -- With the used bytes within a limit below the largest word, starting a capture returns for every
    -- request, and either refuses it, leaving the permits, the used bytes and the other records as they
    -- were, or admits it for one permit and exactly the bytes of the metadata that it keeps.
    pub try_start_at-Starts :
        (p' : CapturePublisher semaphore sender) × (started : Option CaptureHandle) × (try_start_at
            semaphore sender p input started_mono
          ≡ some (p', started))
        × Starts p input started_mono p' started
    try_start_at-Starts = elim (Option-cases (try_acquire p.admission)) [
      | inl busy ↦ (
        record p { noticed = refused false p.noticed },
        none,
        try_start_at-busy busy,
        record {
          permits_same = refl;
          used_same = refl;
          others_same = λ i h. refl;
          counted = refl;
          told = mark_pending p.noticed;
        },
      )
      | inr (permits, taken) ↦
          let (p', started, e, s) = start_permitted-Starts permits taken in
          (p', started, try_start_at-permitted permits taken ∙ e, s)
    ]
