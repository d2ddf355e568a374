-- ===== src/Tests/Rpc.antt =====
-- The theorems of the RPC frames at concrete inputs.
use fluxcope.Common.{ℕ, ◌≤◌, ◌≡◌, refl, true, none, some, [], ◌∷◌, arith}
use fluxcope.Common.Outcome.{ok}
use fluxcope.Common.Text.{Text, text}
use fluxcope.Capture.Body.{Bytes}
use fluxcope.Rpc.Framing.{
  Allocator, Serialized, WriteError, encode_json_frame, ensure_json_payload_within_limit,
}
use fluxcope.Rpc.Framing.Writing.{payload}
use fluxcope.Rpc.Framing.Encoding.{
  verdict, framed, encode_json_frame-verdict, ensure_json_payload_within_limit-verdict,
}
use fluxcope.Rpc.Framing.Reading.{Transmits, encode_json_frame-Transmits}

same_capacity : (n c : ℕ) → some n ≡ some c → n ≤ c
same_capacity n c h = ground arith

abbrev heap : Allocator
heap = record { grant = some; granted = same_capacity }

abbrev all_text : WriteError → Text
all_text _ = text "error"

-- `[1]` in two chunks
abbrev value : Serialized
value = record { chunks = (91 ∷ 49 ∷ []) ∷ (93 ∷ []) ∷ []; failure = none }

encode_json_frame-Transmits_example :
    (frame : Bytes) × (encode_json_frame heap all_text value 10 ≡ some (ok frame))
    × Transmits (λ _. true) (payload value.chunks) frame 20
unfolding payload
encode_json_frame-Transmits_example =
    encode_json_frame-Transmits heap (λ _. true) all_text value 10 20 (λ n. (n, refl)) refl
      (omega arith) (omega arith) (omega arith) (omega arith) refl

encode_json_frame-verdict_example :
    encode_json_frame heap all_text value 2
    ≡ some (verdict all_text value 2 (framed (payload value.chunks) 2))
encode_json_frame-verdict_example =
    encode_json_frame-verdict heap all_text 2 (λ n. (n, refl)) value (omega arith)

ensure_json_payload_within_limit-verdict_example :
    ensure_json_payload_within_limit all_text value 2 ≡ verdict all_text value 2 (ok tt)
ensure_json_payload_within_limit-verdict_example =
    ensure_json_payload_within_limit-verdict all_text value 2 (omega arith)
