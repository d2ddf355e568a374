-- ===== src/Capture/Metadata/Measured.antt =====
-- The measured size of a request's metadata against the metadata, src/capture/publisher.rs.
use fluxcope.Common.{
  ◌≢◌, ℕ, ◌+◌, ◌*◌, ◌≤◌, ◌≡◌, refl, ap, Bool, true, false, ◌||◌, Option, none, some, arith, map,
  ltb,
}
use fluxcope.Common.Text.Utf8.{byte_len}
use fluxcope.Common.Text.Utf8.Slices.{fitting, fitting_all, byte_len-fitting}
use fluxcope.Capture.Record.{Text, RequestMetadata, MetadataTruncation}
use fluxcope.Capture.Metadata.{
  CapturePolicy, RequestCaptureInput, request_metadata, request_metadata_bytes,
  measure_request_metadata, capture_headers, truncate_local, measure_local, local_len,
}
use fluxcope.Capture.Metadata.Lengths.{truncate_utf8-fitting}
use fluxcope.Capture.Metadata.Headers.{decode, measure_headers-Measures}

abbrev fitting_local : Option Text → ℕ → Option Text
fitting_local none limit = none
fitting_local (some path) limit = some (fitting path limit)

abbrev longer_local : Option Text → ℕ → Bool
longer_local none limit = false
longer_local (some path) limit = ltb limit (byte_len path)

truncate_local-fitting :
    (local : Option Text) (limit : ℕ)
    → (truncate_local local limit ≡ some (fitting_local local limit))
      × (measure_local local limit
          ≡ (local_len (fitting_local local limit), longer_local local limit))
truncate_local-fitting none limit = (refl, refl)
truncate_local-fitting (some path) limit =
    let (t, m) = truncate_utf8-fitting path limit in (rw t, m)

local_len-fitting_local :
    (local : Option Text) (limit : ℕ) → local_len (fitting_local local limit) ≤ limit
local_len-fitting_local none limit = omega arith
local_len-fitting_local (some path) limit = byte_len-fitting path limit

fitting_local_all :
    (local : Option Text) (limit : ℕ)
    → longer_local local limit ≡ false
    → fitting_local local limit ≡ local
fitting_local_all none limit h = refl
fitting_local_all (some path) limit h = ap some (fitting_all path limit (ground arith))

fits_limit :
    (value : Text) (limit : ℕ) → fitting value limit ≡ value → ltb limit (byte_len value) ≡ false
fits_limit value limit e =
    let fits = byte_len-fitting value limit in
    let same = ap byte_len e in ground (arith, fits, same)

fits_limit_local :
    (local : Option Text) (limit : ℕ)
    → fitting_local local limit ≡ local
    → longer_local local limit ≡ false
fits_limit_local none limit e = refl
fits_limit_local (some path) limit e = fits_limit path limit (cc (e))

none_longer_all : (a b c : Bool) → a ≡ false → b ≡ false → c ≡ false → (a || b || c) ≡ false
none_longer_all a b c e f g = rw (e, f, g)

-- The measured bytes are those of the metadata that is kept, which the policy bounds; a field is whole
-- exactly if it is not reported as truncated.
pub record Measured (input : RequestCaptureInput) (policy : CapturePolicy) (bytes : ℕ)
    (truncation : MetadataTruncation) (metadata : RequestMetadata) : Type 0 where
  pub captured : request_metadata input policy ≡ some metadata
  pub bytes_is : request_metadata_bytes metadata ≡ bytes
  pub bounded : bytes ≤ 256 + 3 * policy.request_target_bytes + policy.header_bytes_per_side
  pub target_whole :
      truncation.request_target ≡ false
      → (metadata.original_uri ≡ input.original_uri)
        × (metadata.effective_uri ≡ input.effective_uri)
        × (metadata.local_path ≡ input.local_path)
  pub headers_whole :
      truncation.request_headers ≡ false → metadata.headers ≡ map decode input.headers
  pub target_cut :
      truncation.request_target ≡ true
      → ((metadata.original_uri ≡ input.original_uri)
          × (metadata.effective_uri ≡ input.effective_uri)
          × (metadata.local_path ≡ input.local_path))
      → ⊥
  pub headers_cut : truncation.request_headers ≡ true → metadata.headers ≢ map decode input.headers
  pub no_response : truncation.response_headers ≡ false
  pub method_is : metadata.method ≡ input.method

abbrev kept : RequestCaptureInput → CapturePolicy → RequestMetadata
kept input policy = record {
  method = input.method;
  original_uri = fitting input.original_uri policy.request_target_bytes;
  effective_uri = fitting input.effective_uri policy.request_target_bytes;
  local_path = fitting_local input.local_path policy.request_target_bytes;
  headers = (capture_headers input.headers policy.header_bytes_per_side).0;
}

abbrev reported : RequestCaptureInput → CapturePolicy → MetadataTruncation
reported input policy = record {
  request_target =
      ltb policy.request_target_bytes (byte_len input.original_uri)
      || ltb policy.request_target_bytes (byte_len input.effective_uri)
      || longer_local input.local_path policy.request_target_bytes;
  request_headers = (capture_headers input.headers policy.header_bytes_per_side).1;
  response_headers = false;
}

none_longer : (a b c : Bool) → (a || b || c) ≡ false → (a ≡ false) × (b ≡ false) × (c ≡ false)
none_longer true b c h = cc
none_longer false true c h = cc
none_longer false false c h = (refl, refl, h)

-- For every request and policy, measuring the metadata and capturing it both return, and the first
-- says exactly what the second keeps: its size, which the policy bounds, whether a part of the target
-- was cut, and whether a header was dropped.
pub measure_request_metadata-Measured :
    (input : RequestCaptureInput) (policy : CapturePolicy)
    → (bytes : ℕ) × (truncation : MetadataTruncation) × (metadata : RequestMetadata)
      × (measure_request_metadata input policy ≡ some (bytes, truncation))
      × Measured input policy bytes truncation metadata
measure_request_metadata-Measured input policy =
    let (to, mo) = truncate_utf8-fitting input.original_uri policy.request_target_bytes in
    let (te, me) = truncate_utf8-fitting input.effective_uri policy.request_target_bytes in
    let (tl, ml) = truncate_local-fitting input.local_path policy.request_target_bytes in
    let h = measure_headers-Measures input.headers policy.header_bytes_per_side in
    (
      request_metadata_bytes (kept input policy),
      reported input policy,
      kept input policy,
      unfold measure_request_metadata request_metadata_bytes in rw (mo, me, ml, h.measured),
      record {
        captured = unfold request_metadata in rw (to, te, tl);
        bytes_is = refl;
        bounded =
            unfold request_metadata_bytes in
            omega (
              arith,
              h.bounded,
              byte_len-fitting input.original_uri policy.request_target_bytes,
              byte_len-fitting input.effective_uri policy.request_target_bytes,
              local_len-fitting_local input.local_path policy.request_target_bytes,
            );
        target_whole = λ e.
            let (a, b, c) =
              none_longer (ltb policy.request_target_bytes (byte_len input.original_uri))
                (ltb policy.request_target_bytes (byte_len input.effective_uri))
                (longer_local input.local_path policy.request_target_bytes) e in
            (
              fitting_all input.original_uri policy.request_target_bytes (ground (arith, a)),
              fitting_all input.effective_uri policy.request_target_bytes (ground (arith, b)),
              fitting_local_all input.local_path policy.request_target_bytes c,
            );
        headers_whole = h.whole;
        target_cut = λ e w. absurd (
            cc (
              e,
              none_longer_all (ltb policy.request_target_bytes (byte_len input.original_uri))
                  (ltb policy.request_target_bytes (byte_len input.effective_uri))
                  (longer_local input.local_path policy.request_target_bytes)
                  (fits_limit input.original_uri policy.request_target_bytes w.0)
                  (fits_limit input.effective_uri policy.request_target_bytes w.1)
                  (fits_limit_local input.local_path policy.request_target_bytes w.2),
            ));
        headers_cut = h.cut;
        no_response = refl;
        method_is = refl;
      },
    )
