-- ===== src/Timestamp.antt =====
-- server/include/timestamp.hpp. A `timestamp_t` is the number of nanoseconds since the epoch that
-- it stands for, which is the period of std::chrono::system_clock in libstdc++.
use servertech_chat.Prelude.{ℕ, suc, ◌+◌, ◌*◌, ◌/◌, ◌<◌, ◌≤◌, ◌≡◌, true, arith, if◌then◌else◌}
use servertech_chat.Prelude.Decimal.{
  ℤ, pos, negsuc, neg, abs, scale, div_trunc, fits_int64, abs-neg, scale-neg, div_trunc-neg,
  fits_int64-neg,
}
use servertech_chat.Error.{Result, ok, undefined, ErrorCode}

abbrev ns_per_ms : ℕ
ns_per_ms = 1000000

-- duration_cast<milliseconds>(input.time_since_epoch()).count()
unfoldable pub serialize_timestamp : ℤ → ℤ
serialize_timestamp input = div_trunc input ns_per_ms

-- timestamp_t(milliseconds(input)); the conversion to nanoseconds multiplies two int64_t, and its
-- overflow is undefined.
unfoldable pub parse_timestamp : ℤ → Result ErrorCode ℤ
parse_timestamp input =
    let nanoseconds = scale input ns_per_ms in
    if fits_int64 nanoseconds then ok nanoseconds else undefined

-- A timestamp read from milliseconds, where this does not overflow, is written as the same
-- milliseconds.
serialize-parse_timestamp : (ms t : ℤ) → parse_timestamp ms ≡ ok t → serialize_timestamp t ≡ ms
unfolding parse_timestamp serialize_timestamp
serialize-parse_timestamp (pos n) t e = ground arith
serialize-parse_timestamp (negsuc n) t e =
    ground (arith, div_trunc-neg (suc n * ns_per_ms) ns_per_ms)

-- Writing a 64-bit timestamp and reading it back loses less than a millisecond, towards the epoch,
-- and overflows for none.
parse-serialize_timestamp :
    (t : ℤ)
    → fits_int64 t ≡ true
    → (u : ℤ) × (parse_timestamp (serialize_timestamp t) ≡ ok u)
      × (abs u ≤ abs t)
      × (abs t < abs u + 1000000)
unfolding parse_timestamp serialize_timestamp
parse-serialize_timestamp (pos n) h =
    (pos (n / 1000000 * 1000000), ground arith, omega arith, omega arith)
parse-serialize_timestamp (negsuc n) h =
    let m : ℕ = suc n / 1000000 * 1000000 in
    (
      neg m,
      rw (scale-neg (suc n / 1000000) 1000000, fits_int64-neg m (ground arith)),
      rw (abs-neg m) (omega arith),
      rw (abs-neg m) (omega arith),
    )
