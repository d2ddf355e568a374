-- ===== src/Capture/Metadata/Headers.antt =====
-- Measuring headers against capturing them, src/capture/publisher.rs.
use fluxcope.Common.{
  ◌<◌, ◌≢◌, length, ℕ, ◌≤◌, ◌≡◌, refl, ap, ◌∙◌, inl, inr, Bool, true, false, ◌||◌, some, List, [],
  ◌∷◌, arith, min, map, sat_add, ltb, u64_max, Bool-cases,
}
use fluxcope.Common.Text.Utf8.{byte_len, from_utf8_lossy}
use fluxcope.Capture.Body.{Bytes}
use fluxcope.Capture.Record.{Text}
use fluxcope.Capture.Metadata.{
  HeaderMap, HeaderMeasurement, measure_from, measure_headers, capture_from, capture_headers,
  headers_bytes_from, headers_bytes,
}
use fluxcope.Capture.Metadata.Lengths.{lossy_utf8_len-from_utf8_lossy}

-- the measurement of what is captured
abbrev measurement_of : List (Text × Text) × Bool → HeaderMeasurement → HeaderMeasurement
measurement_of captured measured = record {
  retained_bytes = headers_bytes_from measured.retained_bytes captured.0;
  truncated = measured.truncated || captured.1;
}

or_true : (b : Bool) → (b || true) ≡ true
or_true true = refl
or_true false = refl

or_false : (b : Bool) → (b || false) ≡ b
or_false true = refl
or_false false = refl

sat_add_assoc : (a b c : ℕ) → sat_add a (sat_add b (min c u64_max)) ≡ sat_add (sat_add a b) c
sat_add_assoc a b c = omega arith

sat_add_assoc' : (a b c : ℕ) → sat_add a (sat_add b c) ≡ sat_add (sat_add a b) c
sat_add_assoc' a b c = omega arith

measure_from-capture_from :
    (limit : ℕ) (headers : HeaderMap) (measured : HeaderMeasurement)
    → measure_from limit headers measured
      ≡ some (measurement_of (capture_from limit headers measured.retained_bytes) measured)
unfolding measure_from capture_from headers_bytes_from
measure_from-capture_from limit [] measured = ap some (ground (arith, or_false measured.truncated))
measure_from-capture_from limit ((name, bytes) ∷ headers) measured =
    let value = byte_len (from_utf8_lossy bytes) in
    let total = sat_add (sat_add measured.retained_bytes (byte_len name)) value in
    rw
      (
        lossy_utf8_len-from_utf8_lossy bytes,
        sat_add_assoc measured.retained_bytes (byte_len name) value,
        sat_add_assoc' measured.retained_bytes (byte_len name) value,
      )
      elim (Bool-cases (ltb limit total)) [
        | inl over ↦ rw over (
            measure_from-capture_from limit headers (record measured { truncated = true })
            ∙ ap some (ground (arith, or_true measured.truncated)))
        | inr fits ↦
            rw fits
              (measure_from-capture_from limit headers (record measured { retained_bytes = total }))
      ]

-- what is captured fits the limit
capture_from_le :
    (limit : ℕ) (headers : HeaderMap) (retained : ℕ)
    → retained ≤ limit
    → headers_bytes_from retained (capture_from limit headers retained).0 ≤ limit
unfolding capture_from headers_bytes_from
capture_from_le limit [] retained h = h
capture_from_le limit ((name, bytes) ∷ headers) retained h =
    let value = byte_len (from_utf8_lossy bytes) in
    let total = sat_add (sat_add retained (byte_len name)) value in
    rw (sat_add_assoc' retained (byte_len name) value) elim (Bool-cases (ltb limit total)) [
      | inl over ↦ rw over (capture_from_le limit headers retained h)
      | inr fits ↦ rw fits (capture_from_le limit headers total (ground arith))
    ]

abbrev pub decode : Text × Bytes → Text × Text
decode (name, value) = (name, from_utf8_lossy value)

-- nothing is dropped unless it is reported
capture_from_all :
    (limit : ℕ) (headers : HeaderMap) (retained : ℕ)
    → (capture_from limit headers retained).1 ≡ false
    → (capture_from limit headers retained).0 ≡ map decode headers
unfolding capture_from
capture_from_all limit [] retained h = refl
capture_from_all limit ((name, bytes) ∷ headers) retained h =
    let total = sat_add retained (sat_add (byte_len name) (byte_len (from_utf8_lossy bytes))) in
    ground (arith, capture_from_all limit headers total)

-- no more headers are kept than there are, and fewer when a drop is reported
capture_from_fewer :
    (limit : ℕ) (headers : HeaderMap) (retained : ℕ)
    → (length (capture_from limit headers retained).0 ≤ length headers)
      × ((capture_from limit headers retained).1 ≡ true
          → length (capture_from limit headers retained).0 < length headers)
unfolding capture_from
capture_from_fewer limit [] retained = (omega arith, λ e. absurd (cc (e)))
capture_from_fewer limit ((name, bytes) ∷ headers) retained =
    let total = sat_add retained (sat_add (byte_len name) (byte_len (from_utf8_lossy bytes))) in
    elim (Bool-cases (ltb limit total)) [
      | inl over ↦
          let rest = capture_from_fewer limit headers retained in
          rw over (omega (arith, rest.0), λ _. omega (arith, rest.0))
      | inr fits ↦
          let rest = capture_from_fewer limit headers total in
          rw fits (omega (arith, rest.0), λ e. omega (arith, rest.1 e))
    ]

length-decoded : (headers : HeaderMap) → length (map decode headers) ≡ length headers
length-decoded [] = refl
length-decoded (h ∷ headers) = omega (arith, length-decoded headers)

-- a reported drop is one
capture_from_cut :
    (limit : ℕ) (headers : HeaderMap) (retained : ℕ)
    → (capture_from limit headers retained).1 ≡ true
    → (capture_from limit headers retained).0 ≢ map decode headers
capture_from_cut limit headers retained h = λ e.
    let fewer = (capture_from_fewer limit headers retained).1 h in
    let same = ap length e ∙ length-decoded headers in absurd (omega (arith, fewer, same))

-- what measuring says of capturing
pub record Measures (headers : HeaderMap) (limit : ℕ) : Type 0 where
  pub measured :
      measure_headers headers limit
      ≡ some (record {
        retained_bytes = headers_bytes (capture_headers headers limit).0;
        truncated = (capture_headers headers limit).1;
      })
  pub bounded : headers_bytes (capture_headers headers limit).0 ≤ limit
  pub whole :
      (capture_headers headers limit).1 ≡ false
      → (capture_headers headers limit).0 ≡ map decode headers
  pub cut :
      (capture_headers headers limit).1 ≡ true
      → (capture_headers headers limit).0 ≢ map decode headers

-- Measuring the headers ends, and gives the bytes of the headers that capturing them keeps, which fit
-- the limit, and whether it drops one; it keeps them all, decoded, exactly if it reports no drop.
pub measure_headers-Measures : (headers : HeaderMap) (limit : ℕ) → Measures headers limit
unfolding measure_headers capture_headers headers_bytes
measure_headers-Measures headers limit = record {
  measured =
      measure_from-capture_from limit headers (record { retained_bytes = 0; truncated = false });
  bounded = capture_from_le limit headers 0 (omega arith);
  whole = capture_from_all limit headers 0;
  cut = capture_from_cut limit headers 0;
}

headers_bytes_from_ge :
    (total : ℕ) (headers : List (Text × Text))
    → total ≤ u64_max
    → total ≤ headers_bytes_from total headers
unfolding headers_bytes_from
headers_bytes_from_ge total [] h = omega arith
headers_bytes_from_ge total ((name, value) ∷ headers) h = omega (
  arith,
  headers_bytes_from_ge (sat_add (sat_add total (byte_len name)) (byte_len value)) headers
      (omega arith),
)

capture_from_tight :
    (limit tight : ℕ) (headers : HeaderMap) (retained : ℕ)
    → headers_bytes_from retained (capture_from limit headers retained).0 ≤ tight
    → tight ≤ limit
    → capture_from tight headers retained ≡ capture_from limit headers retained
unfolding capture_from headers_bytes_from
capture_from_tight limit tight [] retained h k = refl
capture_from_tight limit tight ((name, bytes) ∷ headers) retained h k =
    let value = byte_len (from_utf8_lossy bytes) in
    let total = sat_add (sat_add retained (byte_len name)) value in
    let same = sat_add_assoc' retained (byte_len name) value in
    elim (Bool-cases (ltb limit total)) [
      | inl over ↦
          let over' : ltb tight total ≡ true = ground arith in
          let h' : headers_bytes_from retained (capture_from limit headers retained).0 ≤ tight =
            rw (same, over) at h in
          rw (same, over, over') (rw (capture_from_tight limit tight headers retained h' k))
      | inr fits ↦
          let h' : headers_bytes_from total (capture_from limit headers total).0 ≤ tight =
            rw (same, fits) at h in
          let fits' : ltb tight total ≡ false = ground (
            arith,
            headers_bytes_from_ge total (capture_from limit headers total).0 (omega arith),
          ) in
          rw (same, fits, fits') (rw (capture_from_tight limit tight headers total h' k))
    ]

-- a limit that just pays what a larger one keeps, keeps the same
pub capture_headers_tight :
    (limit : ℕ) (headers : HeaderMap)
    → capture_headers headers (headers_bytes (capture_headers headers limit).0)
      ≡ capture_headers headers limit
unfolding capture_headers headers_bytes
capture_headers_tight limit headers =
    capture_from_tight limit (headers_bytes_from 0 (capture_from limit headers 0).0) headers 0
      (omega arith) (capture_from_le limit headers 0 (omega arith))
