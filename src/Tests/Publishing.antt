-- ===== src/Tests/Publishing.antt =====
-- The theorems of the publisher and of metadata at concrete inputs.
use fluxcope.Common.{
  ℕ, zero, suc, ◌≡◌, refl, false, Option, none, some, List, [], ◌∷◌, arith, u64_max, ltb, min,
}
use fluxcope.Common.Text.{Text, text}
use fluxcope.Common.Text.Utf8.{byte_len, from_utf8_lossy, head}
use fluxcope.Common.Text.Utf8.Slices.{fitting}
use fluxcope.Capture.Feed
use fluxcope.Capture.Feed.Log.{Tracks}
use fluxcope.Capture.Body.{request, response}
use fluxcope.Capture.Record
use fluxcope.Capture.Record.{
  CaptureRecord, RequestMetadata, MetadataTruncation, completes, cancels, fails,
}
use fluxcope.Capture.Metadata.{
  default_policy, RequestCaptureInput, ResponseCaptureInput, truncate_utf8, truncated_utf8_len,
  lossy_utf8_len, measure_request_metadata,
}
use fluxcope.Capture.Metadata.Lengths.{truncate_utf8-fitting, lossy_utf8_len-from_utf8_lossy}
use fluxcope.Capture.Metadata.Headers.{Measures, measure_headers-Measures}
use fluxcope.Capture.Metadata.Measured.{Measured, measure_request_metadata-Measured}
use fluxcope.Capture.Publisher
use fluxcope.Capture.Publisher.{Semaphore, Sender, CapturePublisher, try_start_at}
use fluxcope.Capture.Publisher.Live.{CaptureHandle, Noticed, no_metrics, new_lifecycle}
use fluxcope.Capture.Publisher.Admission.{Starts, try_start_at-Starts}
use fluxcope.Capture.Publisher.Response.{Responded, respond-Responded}
use fluxcope.Capture.Publisher.Lifecycle.{End, Frees, finish_each-Frees}

abbrev take_one : ℕ → Option ℕ
take_one zero = none
take_one (suc n) = some n

take_one-suc : (s s' : ℕ) → take_one s ≡ some s' → s ≡ suc s'
take_one-suc zero s' h = ground arith
take_one-suc (suc n) s' h = ground arith

-- a semaphore that counts, and a channel with that many free places
abbrev counting : Semaphore
counting = record {
  Permits = ℕ;
  available = λ n. n;
  try_acquire = take_one;
  give_back = suc;
  acquired = take_one-suc;
  given_back = λ s. refl;
}

abbrev queue : Sender
queue = record { Channel = ℕ; try_send = λ n _. take_one n }

fresh_feed-Tracks : Tracks [] Feed.new
fresh_feed-Tracks = record { epoch_is = refl; numbered = tt; ring = refl; sent_is = refl }

-- a value whose second byte is invalid and whose last character is cut short
abbrev broken : List ℕ
broken = 0x61 ∷ 0xff ∷ 0xc3 ∷ 0xa9 ∷ 0xe2 ∷ 0x82 ∷ []

-- it decodes to an `a`, a replacement, an `é`, and a replacement
broken_decoded : from_utf8_lossy broken ≡ 0x61 ∷ 0xfffd ∷ 0xe9 ∷ 0xfffd ∷ []
unfolding from_utf8_lossy head
broken_decoded = refl

lossy_utf8_len-from_utf8_lossy_example :
    lossy_utf8_len broken ≡ some (min (byte_len (from_utf8_lossy broken)) u64_max)
lossy_utf8_len-from_utf8_lossy_example = lossy_utf8_len-from_utf8_lossy broken

truncate_utf8-fitting_example :
    (truncate_utf8 (0x61 ∷ 0x20ac ∷ []) 3
      ≡ some (fitting (0x61 ∷ 0x20ac ∷ []) 3, ltb 3 (byte_len (0x61 ∷ 0x20ac ∷ []))))
    × (truncated_utf8_len (0x61 ∷ 0x20ac ∷ []) 3
        ≡ (byte_len (fitting (0x61 ∷ 0x20ac ∷ []) 3), ltb 3 (byte_len (0x61 ∷ 0x20ac ∷ []))))
truncate_utf8-fitting_example = truncate_utf8-fitting (0x61 ∷ 0x20ac ∷ []) 3

abbrev headers : List (Text × List ℕ)
headers = (text "host", text "a") ∷ (text "cookie", broken) ∷ []

measure_headers-Measures_example : Measures headers 9
measure_headers-Measures_example = measure_headers-Measures headers 9

abbrev input : RequestCaptureInput
input = record {
  method = text "GET";
  original_uri = text "http://a/";
  effective_uri = text "http://b/";
  local_path = none;
  headers = headers;
}

measure_request_metadata-Measured_example :
    (bytes : ℕ) × (truncation : MetadataTruncation) × (metadata : RequestMetadata)
    × (measure_request_metadata input default_policy ≡ some (bytes, truncation))
    × Measured input default_policy bytes truncation metadata
measure_request_metadata-Measured_example = measure_request_metadata-Measured input default_policy

abbrev publisher : CapturePublisher counting queue
publisher = Publisher.new counting queue 1 1 default_policy Feed.new

try_start_at-Starts_example :
    (p' : CapturePublisher counting queue) × (started : Option CaptureHandle) × (try_start_at
        counting queue publisher input 0
      ≡ some (p', started))
    × Starts counting queue publisher input 0 p' started
try_start_at-Starts_example =
    try_start_at-Starts counting queue publisher input 0 (omega arith) (omega arith)

abbrev quiet : Noticed
quiet = record { metrics = no_metrics; dirty = record { pending = false; notified = 0 } }

abbrev fresh_record : CaptureRecord
fresh_record =
    Record.new 1
      (record {
        method = text "GET";
        original_uri = text "http://a/";
        effective_uri = text "http://a/";
        local_path = none;
        headers = [];
      })
      (record { request_target = false; request_headers = false; response_headers = false }) 10 10 0

abbrev answer : ResponseCaptureInput
answer = record { status = 200; headers = headers }

respond-Responded_example :
    Responded default_policy [] fresh_record Feed.new
      (record { limit = 100; used = 10 })
      quiet
      answer
      3
respond-Responded_example =
    respond-Responded default_policy [] fresh_record Feed.new (record { limit = 100; used = 10 })
      quiet answer 3 fresh_feed-Tracks (omega arith) (omega arith) (omega arith) (omega arith)
      (omega arith) (omega arith)

abbrev handle : CaptureHandle
handle = record { pointer = 0; lifecycle = new_lifecycle }

abbrev ends : List End
ends = (request, completes, 1) ∷ (request, cancels, 2) ∷ (response, fails (text "reset"), 3) ∷ []

abbrev busy : CapturePublisher counting queue
busy = record publisher { admission = 0; cells = some fresh_record ∷ [] }

finish_each-Frees_example : Frees counting queue busy handle ends
finish_each-Frees_example =
    finish_each-Frees counting queue busy handle ends [] fresh_feed-Tracks (omega arith) refl
