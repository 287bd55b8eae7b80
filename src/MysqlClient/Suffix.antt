-- ===== src/MysqlClient/Suffix.antt =====
-- std::string_view::ends_with.
use servertech_chat.Prelude.{
  ◌-◌, ◌&&◌, Bool, true, Bytes, List, [], ◌∷◌, ◌++◌, length, length-append, drop, leb, str_eq, ◌≡◌,
  refl, arith,
}

unfoldable pub ends_with : Bytes → Bytes → Bool
unfolding str_eq
ends_with s suffix =
    leb (length suffix) (length s) && str_eq (drop (length s - length suffix) s) suffix

drop-length-append {ℓ} : {A : Type ℓ} (xs ys : List A) → drop (length xs) (xs ++ ys) ≡ ys
drop-length-append [] [] = refl
drop-length-append [] (y ∷ ys) = refl
drop-length-append (x ∷ xs) ys = drop-length-append xs ys

-- Behind any text, a suffix of its length is compared as a whole.
pub ends_with-append :
    (xs ys suffix : Bytes)
    → length ys ≡ length suffix
    → ends_with (xs ++ ys) suffix ≡ str_eq ys suffix
unfolding ends_with
ends_with-append xs ys suffix h =
    let size : length (xs ++ ys) - length suffix ≡ length xs =
      omega (arith, length-append xs ys, h) in
    let fits : leb (length suffix) (length (xs ++ ys)) ≡ true =
      ground (arith, length-append xs ys, h) in
    rw (fits, size, drop-length-append xs ys) refl
