-- ===== src/Examples/Backend.antt =====
-- A Redis server, a random generator, a database and a hash function to run the examples on.
use servertech_chat.Prelude.{
  ℕ, zero, suc, ◌+◌, ◌%◌, ◌/◌, ◌<◌, ◌==◌, ◌≡◌, Bool, true, not, all, All, IsByte, length, Bytes,
  codes, List, [], ◌∷◌, all-append, Option, none, some, str_eq, refl, arith, ap, ◌∙◌, subst,
  if◌then◌else◌,
}
use servertech_chat.Prelude.Decimal.{
  ℤ, pos, negsuc, neg, digits, digit, print_uint, print_int, fits_int64,
}
use servertech_chat.Error.{ErrorCode, Result, ok}
use servertech_chat.RedisClient.Connection.{Adapted, value, redis_error}
use servertech_chat.SessionStore.{session_id_size}
use servertech_chat.MysqlClient.Table.{Row}
use servertech_chat.Scrypt.Numbers.{value_of, value_of-print_uint}

-- Numbers read as Redis's adapter reads them.
unfoldable pub read_int : Bytes → ℤ
read_int [] = pos 0
read_int (c ∷ cs) = if c == b'-' then neg (value_of 0 cs) else pos (value_of 0 (c ∷ cs))

abbrev not_minus : ℕ → Bool
not_minus c = not (c == b'-')

digits_no_minus : (fuel n : ℕ) → all not_minus (digits fuel n) ≡ true
unfolding digits
digits_no_minus zero n = ground arith
digits_no_minus (suc fuel) n = ground (
  arith,
  digits_no_minus fuel (n / 10),
  all-append not_minus (digits fuel (n / 10)) (digit (n % 10) ∷ []),
)

read_unsigned : (ds : Bytes) → all not_minus ds ≡ true → read_int ds ≡ pos (value_of 0 ds)
unfolding read_int value_of
read_unsigned [] h = refl
read_unsigned (c ∷ ds) h = ground (arith, h)

pub read_int-print_int : (n : ℤ) → fits_int64 n ≡ true → read_int (print_int n) ≡ n
unfolding print_int
read_int-print_int (pos n) h =
    read_unsigned (print_uint n) (unfold print_uint in digits_no_minus 19 n)
    ∙ ap pos (value_of-print_uint n (ground arith))
read_int-print_int (negsuc n) h =
    unfold read_int in ap neg (value_of-print_uint (suc n) (ground arith))

pub record Store : Type 0 where
  pub keys : Bytes → Option Bytes
  pub counter : ℕ
  pub rows : List Row
  pub fit : All (λ row. fits_int64 row.id ≡ true) rows

unfoldable pub fill : ℕ → ℕ → Bytes
fill zero x = []
fill (suc n) x = x ∷ fill n x

length-fill : (n x : ℕ) → length (fill n x) ≡ n
unfolding fill
length-fill zero x = refl
length-fill (suc n) x = ap suc (length-fill n x)

pub fill-IsByte : (n x : ℕ) → x < 256 → All IsByte (fill n x)
unfolding fill
fill-IsByte zero x h = tt
fill-IsByte (suc n) x h = (h, fill-IsByte n x h)

abbrev pub draw : ℕ → Store → Option Bytes × Store
draw n w = (some (fill n (w.counter % 256)), record w { counter = w.counter + 1 })

abbrev pub set_if_absent :
    Bytes → Bytes → Store → Option Bytes → Result ErrorCode (Adapted (Option Bytes)) × Store
set_if_absent key val w none = (
  ok (value (some (codes "OK"))),
  record w { keys = λ k. if str_eq key k then some val else w.keys k },
)
set_if_absent key val w (some old) = (ok (value none), w)

-- SET key val NX ..., and GET key.
abbrev pub exec_string : List Bytes → Store → Result ErrorCode (Adapted (Option Bytes)) × Store
exec_string (set ∷ key ∷ val ∷ options) w = set_if_absent key val w (w.keys key)
exec_string _ w = (ok (redis_error []), w)

abbrev pub number_of : Option Bytes → Option ℤ
number_of none = none
number_of (some text) = some (read_int text)

abbrev pub exec_int : List Bytes → Store → Result ErrorCode (Adapted (Option ℤ)) × Store
exec_int (get ∷ key ∷ []) w = (ok (value (number_of (w.keys key))), w)
exec_int _ w = (ok (redis_error []), w)

pub drawn_size :
    (w : Store) (bs : Bytes) → (draw session_id_size w).0 ≡ some bs → length bs ≡ session_id_size
drawn_size w bs e =
    let same : fill session_id_size (w.counter % 256) ≡ bs = cc e in
    subst (λ x. length x ≡ session_id_size) same (length-fill session_id_size (w.counter % 256))

pub drawn_bytes : (w : Store) (bs : Bytes) → (draw session_id_size w).0 ≡ some bs → All IsByte bs
drawn_bytes w bs e =
    let same : fill session_id_size (w.counter % 256) ≡ bs = cc e in
    subst (All IsByte) same (fill-IsByte session_id_size (w.counter % 256) (omega arith))
