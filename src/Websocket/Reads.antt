-- ===== src/Websocket/Reads.antt =====
-- server/src/util/websocket.cpp: read, with the flag that guards it and the buffer that it reads
-- into. What happens between two suspensions is one step: up to async_read, and from its end on.
use servertech_chat.Prelude.{
  Bool, true, false, Bytes, List, [], ◌∷◌, ◌++◌, map, Option, none, some, ◌≡◌, refl, ap, arith,
  if◌then◌else◌,
}
use servertech_chat.Error.{ErrorCode, Result, ok, err, throws, undefined}

-- The part of websocket::impl that reads use.
pub record Reader : Type 0 where
  pub read_buffer : Bytes
  pub reading : Bool

-- The constructor, with the buffer of the HTTP session.
unfoldable pub reader : Bytes → Reader
reader buff = record { read_buffer = buff; reading = false }

abbrev pub lock_reads : Reader → Reader
lock_reads r = record r { reading = true }

-- The destruction of the guard that lock_reads returns.
abbrev pub unlock_reads : Reader → Reader
unlock_reads r = record r { reading = false }

-- `assert(!reading)`, lock_reads, and the buffer cleared.
unfoldable pub begin_read : Reader → Result ErrorCode Reader
begin_read r = if r.reading then undefined else ok (record (lock_reads r) { read_buffer = [] })

-- How async_read ends: it has appended a message to the buffer, or what there was of one.
pub record Received : Type 0 where
  pub ec : Option ErrorCode
  pub payload : Bytes

abbrev pub async_read : Received → Reader → Reader
async_read got r = record r { read_buffer = r.read_buffer ++ got.payload }

-- `if (ec) return ec; return buffer_to_sv(...)`
abbrev pub read_result : Option ErrorCode → Bytes → Result ErrorCode Bytes
read_result (some ec) buffer = err ec
read_result none buffer = ok buffer

-- From the end of async_read on: the guard is destroyed first.
unfoldable pub end_read : Option ErrorCode → Reader → Result ErrorCode Bytes × Reader
end_read ec r = (read_result ec r.read_buffer, unlock_reads r)

abbrev pub with_begun :
    Received → Reader → Result ErrorCode Reader → Result ErrorCode Bytes × Reader
with_begun got r (ok begun) = end_read got.ec (async_read got begun)
with_begun got r (err e) = (err e, r)
with_begun got r (throws what) = (throws what, r)
with_begun got r undefined = (undefined, r)

-- read, from its call to its end.
unfoldable pub read : Received → Reader → Result ErrorCode Bytes × Reader
unfolding begin_read end_read
read got r = with_begun got r (begin_read r)

-- One read after the other.
unfoldable pub reads : List Received → Reader → List (Result ErrorCode Bytes) × Reader
unfolding read
reads [] r = ([], r)
reads (got ∷ more) r =
    let (res, r') = read got r in let (rest, last) = reads more r' in (res ∷ rest, last)

-- What a read should give: the error of its receive, or else the message that came.
abbrev pub outcome : Option ErrorCode → Bytes → Result ErrorCode Bytes
outcome none payload = ok payload
outcome (some ec) payload = err ec

abbrev pub expected : Received → Result ErrorCode Bytes
expected got = outcome got.ec got.payload

read_result-outcome :
    (ec : Option ErrorCode) (buffer : Bytes) → read_result ec buffer ≡ outcome ec buffer
read_result-outcome none buffer = refl
read_result-outcome (some ec) buffer = refl

read_idle :
    (got : Received) (r : Reader)
    → r.reading ≡ false
    → read got r ≡ (expected got, record { read_buffer = got.payload; reading = false })
unfolding read begin_read end_read
read_idle got r idle = rw (idle, read_result-outcome got.ec got.payload) refl

idle_reads :
    (gots : List Received) (r : Reader)
    → r.reading ≡ false
    → ((reads gots r).0 ≡ map expected gots) × ((reads gots r).1.reading ≡ false)
unfolding reads
idle_reads [] r idle = (refl, idle)
idle_reads (got ∷ more) r idle =
    let (rest, last) =
      idle_reads more (record { read_buffer = got.payload; reading = false }) refl in
    rw (read_idle got r idle) (ap (λ x. expected got ∷ x) rest, last)

-- However many reads follow each other on a new websocket, whatever was in the buffer that it was
-- given: none trips over the flag, each gives the message that has arrived for it, or its error,
-- with nothing of an earlier one, and the flag is down when the last one ends.
pub reads_lem :
    (buff : Bytes) (gots : List Received)
    → ((reads gots (reader buff)).0 ≡ map expected gots)
      × ((reads gots (reader buff)).1.reading ≡ false)
unfolding reader
reads_lem buff gots = idle_reads gots (reader buff) refl

-- Two reads at once are undefined: a read that begins before another one has ended fails the
-- assertion.
begin_read_twice : (r begun : Reader) → begin_read r ≡ ok begun → begin_read begun ≡ undefined
unfolding begin_read
begin_read_twice r begun e = ground (arith, e)
