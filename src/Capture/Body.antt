-- ===== src/Capture/Body.antt =====
-- The preview of one body, `BodyCapture` and `CapturedBodyPreview` of src/capture/model.rs: full
-- chunks in a chain that snapshots share, and a trailing piece. Bytes are values; the sharing is
-- not observable, since a chunk in the chain is never written again.
pub mod Content
pub mod Flatten
use fluxcope.Common.{
  ℕ, zero, suc, ◌+◌, ◌-◌, Bool, true, false, Option, none, some, List, [], ◌∷◌, ◌++◌, min, length,
  take, drop, ◌==◌, if◌then◌else◌,
}
use mathlib.Core.List.{reverse}
use fluxcope.Capture.Budget.{body_chunk_bytes}

pub data BodySide : Type 0 where
  request response : BodySide

pub data BodyStreamState : Type 0 where
  pending streaming complete failed cancelled : BodyStreamState

unfoldable pub is_terminal : BodyStreamState → Bool
is_terminal complete = true
is_terminal failed = true
is_terminal cancelled = true
is_terminal _ = false

pub data BodyPreviewLimit : Type 0 where
  per_body_limit total_memory_limit : BodyPreviewLimit

abbrev pub Bytes : Type 0
Bytes = List ℕ

-- an error's text, as its code points
pub record BodyStatus : Type 0 where
  pub stream : BodyStreamState
  pub observed_bytes : ℕ
  pub retained_bytes : ℕ
  pub preview_limit : Option BodyPreviewLimit
  pub error : Option (List ℕ)

abbrev pub initial_status : BodyStatus
initial_status = record {
  stream = pending;
  observed_bytes = 0;
  retained_bytes = 0;
  preview_limit = none;
  error = none;
}

-- `Option<Arc<BodyChunkNode>>`: `previous`, `bytes`, `count`
pub data BodyChunkNode : Type 0 where
  no_chunk : BodyChunkNode
  chunk : BodyChunkNode → Bytes → ℕ → BodyChunkNode

pub record BodyCapture : Type 0 where
  pub status : BodyStatus
  pub canonical_tail : BodyChunkNode
  pub trailing : Bytes
  pub sealed_trailing : Option Bytes

abbrev pub new : BodyCapture
new = record {
  status = initial_status;
  canonical_tail = no_chunk;
  trailing = [];
  sealed_trailing = none;
}

-- `tail.count + 1`, or 1
abbrev pub next_count : BodyChunkNode → ℕ
next_count no_chunk = 1
next_count (chunk _ _ count) = count + 1

-- a full trailing piece moves to the chain: `split_to(BODY_CHUNK_BYTES)`
abbrev pub push_full : BodyCapture → BodyCapture
push_full body =
    if length body.trailing == body_chunk_bytes
    then record body {
      canonical_tail =
          chunk body.canonical_tail (take body_chunk_bytes body.trailing)
            (next_count body.canonical_tail);
      trailing = drop body_chunk_bytes body.trailing;
    }
    else body

-- the bytes that one round of `append` moves
abbrev pub round_bytes : BodyCapture → Bytes → ℕ
round_bytes body remaining = min (body_chunk_bytes - length body.trailing) (length remaining)

abbrev pub round : BodyCapture → Bytes → BodyCapture
round body remaining =
    push_full
      (record body { trailing = body.trailing ++ take (round_bytes body remaining) remaining })

-- `while !remaining.is_empty() { .. }`; `none` when the fuel runs out
unfoldable pub append_loop : ℕ → BodyCapture → Bytes → Option BodyCapture
append_loop fuel body [] = some body
append_loop zero body (b ∷ bytes) = none
append_loop (suc fuel) body (b ∷ bytes) =
    append_loop fuel (round body (b ∷ bytes)) (drop (round_bytes body (b ∷ bytes)) (b ∷ bytes))

-- each round moves at least one byte
unfoldable pub append : BodyCapture → Bytes → Option BodyCapture
append body bytes = append_loop (length bytes) body bytes

unfoldable pub seal : BodyCapture → BodyCapture
seal body = if length body.trailing == 0 then body else record body {
  sealed_trailing = some (take (length body.trailing) body.trailing);
  trailing = drop (length body.trailing) body.trailing;
}

pub record CapturedBodyPreview : Type 0 where
  pub canonical_tail : BodyChunkNode
  pub trailing : Bytes
  pub len : ℕ

unfoldable pub preview : BodyCapture → CapturedBodyPreview
preview body = record {
  canonical_tail = body.canonical_tail;
  trailing = elim body.sealed_trailing [ none ↦ body.trailing | some bytes ↦ bytes ];
  len = body.status.retained_bytes;
}

abbrev pub empty_preview : CapturedBodyPreview
empty_preview = record { canonical_tail = no_chunk; trailing = []; len = 0 }

-- the walk from the newest node back
unfoldable pub walk_back : BodyChunkNode → List Bytes
walk_back no_chunk = []
walk_back (chunk previous bytes _) = bytes ∷ walk_back previous

-- `chunks`: the canonical ones in order, then the trailing one unless it is empty
unfoldable pub chunks : CapturedBodyPreview → List Bytes
unfolding walk_back
chunks p =
    reverse (walk_back p.canonical_tail) ++ (if length p.trailing == 0 then [] else p.trailing ∷ [])

-- `for chunk in chunks { flattened.extend_from_slice(chunk) }`
unfoldable pub extend_all : Bytes → List Bytes → Bytes
extend_all flattened [] = flattened
extend_all flattened (c ∷ cs) = extend_all (flattened ++ c) cs

unfoldable pub flatten : CapturedBodyPreview → Bytes
unfolding extend_all chunks
flatten p = extend_all [] (chunks p)
