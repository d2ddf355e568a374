-- ===== src/Capture/Body/Content.antt =====
-- The bytes that a body holds, src/capture/model.rs: `append` adds to their end, `seal` keeps them,
-- and a preview flattens to them.
use fluxcope.Common.{
  ℕ, zero, suc, ◌≤◌, ◌<◌, ◌≡◌, refl, sym, ap, ◌∙◌, none, some, [], ◌∷◌, ◌++◌, length, inl, inr,
  arith, take, drop, ◌==◌, Bool-cases, length-append, length-take, length-drop, take-append-drop,
  append_assoc, append-nil, take_all, drop_all, ==_iff,
}
use fluxcope.Capture.Budget.{body_chunk_bytes}
use fluxcope.Capture.Body.{
  Bytes, BodyChunkNode, no_chunk, chunk, BodyCapture, next_count, push_full, round_bytes, round,
  append_loop, append,
}

-- the bytes of a chain, oldest first
abbrev pub chain_bytes : BodyChunkNode → Bytes
chain_bytes no_chunk = []
chain_bytes (chunk previous bytes _) = chain_bytes previous ++ bytes

abbrev pub chain_count : BodyChunkNode → ℕ
chain_count no_chunk = 0
chain_count (chunk previous _ _) = suc (chain_count previous)

-- every node is full and knows its place
abbrev pub IsChain : BodyChunkNode → Type 0
IsChain no_chunk = Unit {0}
IsChain (chunk previous bytes count) =
    IsChain previous × (length bytes ≡ body_chunk_bytes) × (count ≡ suc (chain_count previous))

abbrev pub tail_bytes : BodyCapture → Bytes
tail_bytes body = elim body.sealed_trailing [ none ↦ body.trailing | some bytes ↦ bytes ]

abbrev pub content : BodyCapture → Bytes
content body = chain_bytes body.canonical_tail ++ tail_bytes body

-- A body that still takes bytes: full chunks, less than a chunk pending, nothing sealed.
pub record IsOpen (body : BodyCapture) : Type 0 where
  pub chain : IsChain body.canonical_tail
  pub partial : length body.trailing < body_chunk_bytes
  pub unsealed : body.sealed_trailing ≡ none

next_count_of_IsChain :
    (tail : BodyChunkNode) → IsChain tail → next_count tail ≡ suc (chain_count tail)
next_count_of_IsChain no_chunk h = refl
next_count_of_IsChain (chunk previous bytes count) h = omega (arith, h.2)

-- after a round: the state is open again, and the content has grown by the bytes moved
record Moves (body : BodyCapture) (moved : Bytes) (after : BodyCapture) : Type 0 where
  is_open : IsOpen after
  content_is : content after ≡ content body ++ moved
  status_is : after.status ≡ body.status

full-Moves :
    (body : BodyCapture) (moved : Bytes)
    → IsChain body.canonical_tail
    → body.sealed_trailing ≡ none
    → length (body.trailing ++ moved) ≡ body_chunk_bytes
    → Moves body moved (record body {
      canonical_tail =
          chunk body.canonical_tail
            (take body_chunk_bytes (body.trailing ++ moved))
            (next_count body.canonical_tail);
      trailing = drop body_chunk_bytes (body.trailing ++ moved);
    })
full-Moves body moved chain unsealed full =
    let t = take_all body_chunk_bytes (body.trailing ++ moved) (omega arith) in
    let d = drop_all body_chunk_bytes (body.trailing ++ moved) (omega arith) in
    rw (t, d)
      (record {
        is_open = record {
          chain = (chain, full, next_count_of_IsChain body.canonical_tail chain);
          partial = omega arith;
          unsealed = unsealed;
        };
        content_is =
            rw (unsealed, append-nil)
              (sym (append_assoc (chain_bytes body.canonical_tail) body.trailing moved));
        status_is = refl;
      })

part-Moves :
    (body : BodyCapture) (moved : Bytes)
    → IsChain body.canonical_tail
    → body.sealed_trailing ≡ none
    → length (body.trailing ++ moved) < body_chunk_bytes
    → Moves body moved (record body { trailing = body.trailing ++ moved })
part-Moves body moved chain unsealed part = record {
  is_open = record { chain = chain; partial = part; unsealed = unsealed };
  content_is =
      rw unsealed (sym (append_assoc (chain_bytes body.canonical_tail) body.trailing moved));
  status_is = refl;
}

push_full-Moves :
    (body : BodyCapture) (moved : Bytes)
    → IsChain body.canonical_tail
    → body.sealed_trailing ≡ none
    → length (body.trailing ++ moved) ≤ body_chunk_bytes
    → Moves body moved (push_full (record body { trailing = body.trailing ++ moved }))
push_full-Moves body moved chain unsealed fits =
    elim (Bool-cases (length (body.trailing ++ moved) == body_chunk_bytes)) [
      | inl full ↦ rw full (full-Moves body moved chain unsealed ((==_iff _ _).0 full))
      | inr part ↦ rw part (part-Moves body moved chain unsealed (ground arith))
    ]

round-Moves :
    (body : BodyCapture) (remaining : Bytes)
    → IsOpen body
    → Moves body (take (round_bytes body remaining) remaining) (round body remaining)
round-Moves body remaining o =
    push_full-Moves body (take (round_bytes body remaining) remaining) o.chain o.unsealed (
      omega (
        arith,
        o.partial,
        length-append body.trailing (take (round_bytes body remaining) remaining),
        length-take (round_bytes body remaining) remaining,
      ))

Moves-trans :
    {b c d : BodyCapture} (xs ys : Bytes) → Moves b xs c → Moves c ys d → Moves b (xs ++ ys) d
Moves-trans {b} xs ys p q = record {
  is_open = q.is_open;
  content_is = q.content_is ∙ ap (λ l. l ++ ys) p.content_is ∙ append_assoc (content b) xs ys;
  status_is = q.status_is ∙ p.status_is;
}

append_loop-Moves :
    (fuel : ℕ) (body : BodyCapture) (bytes : Bytes)
    → IsOpen body
    → length bytes ≤ fuel
    → (after : BodyCapture) × (append_loop fuel body bytes ≡ some after) × Moves body bytes after
unfolding append_loop
append_loop-Moves fuel body [] o h = (
  body,
  refl,
  record { is_open = o; content_is = sym (append-nil (content body)); status_is = refl },
)
append_loop-Moves zero body (b ∷ bytes) o h = absurd (omega arith)
append_loop-Moves (suc fuel) body (b ∷ bytes) o h =
    let n = round_bytes body (b ∷ bytes) in
    let rest = drop n (b ∷ bytes) in
    let m = round-Moves body (b ∷ bytes) o in
    let (after, e, m') =
      append_loop-Moves fuel (round body (b ∷ bytes)) rest m.is_open
        (omega (arith, o.partial, length-drop n (b ∷ bytes))) in
    (after, e, rw (take-append-drop n (b ∷ bytes)) at (Moves-trans (take n (b ∷ bytes)) rest m m'))

-- `append` always ends: on an open body it adds the bytes to the end of the content, leaves the body
-- open and its status as it was.
pub append-content :
    (body : BodyCapture) (bytes : Bytes)
    → IsOpen body
    → (after : BodyCapture) × (append body bytes ≡ some after)
      × IsOpen after
      × (content after ≡ content body ++ bytes)
      × (after.status ≡ body.status)
unfolding append
append-content body bytes o =
    let (after, e, m) = append_loop-Moves (length bytes) body bytes o (omega arith) in
    (after, e, m.is_open, m.content_is, m.status_is)
