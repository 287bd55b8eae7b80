-- ===== src/Error.antt =====
-- server/include/error.hpp and server/src/error.cpp: error codes and the results that carry them.
pub mod Category
use servertech_chat.Prelude.{ℕ, Bool, true, false, Bytes, [], ◌≡◌, refl, ◌⊎◌, inl, inr}

-- enum class errc
pub data Errc : Type 0 where
  redis_parse_error redis_command_failed websocket_parse_error username_exists email_exists : Errc
  not_found invalid_password_hash already_exists requires_auth invalid_base64 : Errc
  uncaught_exception invalid_content_type : Errc

-- A failing boost::system::error_code: one of this program's category (`make_error_code`), or a
-- value of another category. The source never inspects the source location that
-- CHAT_RETURN_ERROR attaches.
pub data ErrorCode : Type 0 where
  chat : Errc → ErrorCode
  invalid_argument result_out_of_range operation_aborted : ErrorCode
  foreign : ℕ → ErrorCode

-- A failing error_with_message.
pub record ErrorWithMessage : Type 0 where
  pub ec : ErrorCode
  pub msg : Bytes

-- boost::system::result<T, E>, with the two other ways in which a C++ call can end: `throws` is a
-- std::exception with its `what()`, and `undefined` is an access outside an object, which the
-- language gives no meaning.
pub data Result {ℓ κ} (E : Type ℓ) (A : Type κ) : Type (ℓ ⊔ κ) where
  ok : A → Result E A
  err : E → Result E A
  throws : Bytes → Result E A
  undefined : Result E A

-- `if (!b) CHAT_RETURN_ERROR(e)`
abbrev pub guard {ℓ} : {E : Type ℓ} → Bool → E → Result E (Unit {0})
guard false failure = err failure
guard true failure = ok tt

-- What comes after a result that must be there.
infixl 5 ◌>>◌ ◌>>=◌
abbrev pub ◌>>=◌ {ℓ κ ι} :
    {E : Type ℓ} {A : Type κ} {B : Type ι} → Result E A → (A → Result E B) → Result E B
undefined >>= next = undefined
throws what >>= next = throws what
err failure >>= next = err failure
ok a >>= next = next a

abbrev pub ◌>>◌ {ℓ κ} : {E : Type ℓ} {B : Type κ} → Result E (Unit {0}) → Result E B → Result E B
first >> second = first >>= λ _. second

-- `if (r.has_error()) CHAT_RETURN_ERROR(e)`
abbrev pub with_error {ℓ κ ι} : {E : Type ℓ} {D : Type ι} {A : Type κ} → D → Result E A → Result D A
with_error d (ok a) = ok a
with_error d (err e) = err d
with_error d (throws w) = throws w
with_error d undefined = undefined

-- `error_with_message{ec}`
abbrev pub no_message : ErrorCode → ErrorWithMessage
no_message e = record { ec = e; msg = [] }

-- Inversion of a successful chain.
pub >>=-eq-ok {ℓ κ ι} :
    {E : Type ℓ} {A : Type κ} {B : Type ι} (before : Result E A) (next : A → Result E B) {out : B}
    → (before >>= next) ≡ ok out
    → (mid : A) × (before ≡ ok mid) × (next mid ≡ ok out)
>>=-eq-ok undefined next done = cc
>>=-eq-ok (throws what) next done = cc
>>=-eq-ok (err failure) next done = cc
>>=-eq-ok (ok mid) next done = (mid, refl, done)

-- Inversion of a chain that reaches undefined behaviour.
pub >>=-eq-undefined {ℓ κ ι} :
    {E : Type ℓ} {A : Type κ} {B : Type ι} (m : Result E A) (f : A → Result E B)
    → (m >>= f) ≡ undefined
    → (m ≡ undefined) ⊎ ((a : A) × (m ≡ ok a) × (f a ≡ undefined))
>>=-eq-undefined (ok a) f h = inr (a, refl, h)
>>=-eq-undefined (err e) f h = cc
>>=-eq-undefined (throws w) f h = cc
>>=-eq-undefined undefined f h = inl refl
