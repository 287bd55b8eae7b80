-- ===== src/Scrypt/Fields.antt =====
-- Parameter lists.
use servertech_chat.Prelude.{
  ℕ, ◌+◌, ◌≤◌, ◌≡◌, Bool, true, false, ◌&&◌, ◌==◌, leb, ==_iff, all, all_below, all_below_sound,
  Bytes, refl, arith, subst, sym, List, [], ◌∷◌, Option, none, some, codes, if◌then◌else◌, ◌-◌,
  str_eq,
}
use servertech_chat.Prelude.Decimal.{print_uint, digits}
use servertech_chat.Error.{
  ErrorCode, Result, ok, err, throws, undefined, guard, with_error, >>=-eq-ok, ◌>>◌,
}
use servertech_chat.Scrypt.Numbers.{digit_run, value_of}
use servertech_chat.Scrypt.Split.{split, pieces, differs}
use servertech_chat.Scrypt.{
  malformed, set_named, ScryptParams, default_params, parse_int, set_ln, set_r, set_p, set_param,
  set_params, parse_phc_params, print_params,
}

-- What the parser lets through: 1 << ln fits an int.
pub record IsSane (params : ScryptParams) : Type 0 where
  pub ln_low : 2 ≤ params.ln
  pub ln_high : params.ln ≤ 20
  pub r_low : 1 ≤ params.r
  pub r_high : params.r ≤ 20
  pub p_one : params.p ≡ 1

abbrev same_params : ScryptParams → Result ErrorCode ScryptParams → Bool
same_params a (ok b) = a.ln == b.ln && (a.r == b.r && a.p == b.p)
same_params a (err e) = false
same_params a (throws what) = false
same_params a undefined = false

same_params-eq :
    (a : ScryptParams) (m : Result ErrorCode ScryptParams) → same_params a m ≡ true → m ≡ ok a
same_params-eq a (ok b) h =
    let ln : b.ln ≡ a.ln = ground (arith, ==_iff a.ln b.ln) in
    let r : b.r ≡ a.r = ground (arith, ==_iff a.r b.r) in
    let p : b.p ≡ a.p = ground (arith, ==_iff a.p b.p) in cc (ln, r, p)
same_params-eq a (err e) h = cc h
same_params-eq a (throws what) h = cc h
same_params-eq a undefined h = cc h

abbrev good : ℕ → ℕ → Bool
good ln r =
    let params : ScryptParams = record { ln = ln; r = r; p = 1 } in
    same_params params (parse_phc_params (print_params params))
    && all (differs b'$') (print_params params)

table : all_below 19 (λ a. all_below 20 (λ b. good (2 + a) (1 + b))) ≡ true
unfolding all_below parse_phc_params print_params split pieces set_param set_params set_ln set_r
    set_p parse_int digit_run value_of print_uint digits str_eq
table = refl

print_params_table : (ln r : ℕ) → 2 ≤ ln → ln ≤ 20 → 1 ≤ r → r ≤ 20 → good ln r ≡ true
print_params_table ln r a b c d =
    subst (λ x. good x r ≡ true) (omega arith)
      (subst (λ y. good (2 + (ln - 2)) y ≡ true) (omega arith)
        (all_below_sound 20 (λ y. good (2 + (ln - 2)) (1 + y)) (r - 1)
          (all_below_sound 19 (λ x. all_below 20 (λ y. good (2 + x) (1 + y))) (ln - 2) table
            (omega arith))
          (omega arith)))

-- Printed parameters that are in bounds are read back,
pub parse_phc_params-print_params :
    (params : ScryptParams) → IsSane params → parse_phc_params (print_params params) ≡ ok params
parse_phc_params-print_params params s =
    subst
      (λ p.
        let q : ScryptParams = record { ln = params.ln; r = params.r; p = p } in
        parse_phc_params (print_params q) ≡ ok q)
      (sym s.p_one)
      (same_params-eq (record { ln = params.ln; r = params.r; p = 1 }) _
        (ground (arith, print_params_table params.ln params.r s.ln_low s.ln_high s.r_low s.r_high)))

-- and hold no dollar sign.
pub print_params_no_dollar :
    (params : ScryptParams) → IsSane params → all (differs b'$') (print_params params) ≡ true
print_params_no_dollar params s =
    subst
      (λ p.
        all (differs b'$') (print_params (record { ln = params.ln; r = params.r; p = p })) ≡ true)
      (sym s.p_one)
      (ground (arith, print_params_table params.ln params.r s.ln_low s.ln_high s.r_low s.r_high))

guarded :
    {A : Type 0} (b : Bool) (e : ErrorCode) (m : Result ErrorCode A) {a : A}
    → (guard b e >> m) ≡ ok a
    → (b ≡ true) × (m ≡ ok a)
guarded true e m h = (refl, h)
guarded false e m h = cc h

set_ln-IsSane :
    (res next : ScryptParams) (v : Bytes) → IsSane res → set_ln res v ≡ ok next → IsSane next
unfolding set_ln
set_ln-IsSane res next v s e =
    let (value, _, h) =
      >>=-eq-ok (with_error malformed (parse_int v))
        (λ value. guard (leb 2 value && leb value 20) malformed >> ok (record res { ln = value }))
        e in
    let (b, k) =
      guarded (leb 2 value && leb value 20) malformed (ok (record res { ln = value })) h in
    let same : record res { ln = value } ≡ next = cc k in
    subst IsSane same (record {
      ln_low = ground arith;
      ln_high = ground arith;
      r_low = s.r_low;
      r_high = s.r_high;
      p_one = s.p_one;
    })

set_r-IsSane :
    (res next : ScryptParams) (v : Bytes) → IsSane res → set_r res v ≡ ok next → IsSane next
unfolding set_r
set_r-IsSane res next v s e =
    let (value, _, h) =
      >>=-eq-ok (parse_int v)
        (λ value. guard (leb 1 value && leb value 20) malformed >> ok (record res { r = value }))
        e in
    let (b, k) =
      guarded (leb 1 value && leb value 20) malformed (ok (record res { r = value })) h in
    let same : record res { r = value } ≡ next = cc k in
    subst IsSane same (record {
      ln_low = s.ln_low;
      ln_high = s.ln_high;
      r_low = ground arith;
      r_high = ground arith;
      p_one = s.p_one;
    })

set_p-IsSane :
    (res next : ScryptParams) (v : Bytes) → IsSane res → set_p res v ≡ ok next → IsSane next
unfolding set_p
set_p-IsSane res next v s e =
    let (value, _, h) =
      >>=-eq-ok (with_error malformed (parse_int v))
        (λ value. guard (value == 1) malformed >> ok (record res { p = value })) e in
    let (b, k) = guarded (value == 1) malformed (ok (record res { p = value })) h in
    let same : record res { p = value } ≡ next = cc k in
    subst IsSane same (record {
      ln_low = s.ln_low;
      ln_high = s.ln_high;
      r_low = s.r_low;
      r_high = s.r_high;
      p_one = (==_iff value 1).0 b;
    })

set_named-IsSane :
    (res next : ScryptParams) (o : Option (Bytes × Bytes))
    → IsSane res
    → set_named res o ≡ ok next
    → IsSane next
set_named-IsSane res next none s e = cc e
set_named-IsSane res next (some (name, v)) s e =
    which (str_eq name (codes "ln")) (str_eq name (codes "r")) (str_eq name (codes "p")) e
  where
    which :
        (a b c : Bool)
        → (if a then set_ln res v else if b then set_r res v else if c then set_p res v else ok res)
          ≡ ok next
        → IsSane next
    which true b c h = set_ln-IsSane res next v s h
    which false true c h = set_r-IsSane res next v s h
    which false false true h = set_p-IsSane res next v s h
    which false false false h = let same : res ≡ next = cc h in subst IsSane same s

set_params-IsSane :
    (res next : ScryptParams) (params : List Bytes)
    → IsSane res
    → set_params res params ≡ ok next
    → IsSane next
unfolding set_params
set_params-IsSane res next [] s e = let same : res ≡ next = cc e in subst IsSane same s
set_params-IsSane res next (param ∷ params) s e =
    let (mid, h, k) = >>=-eq-ok (set_param res param) (λ mid. set_params mid params) e in
    set_params-IsSane mid next params
      (unfold set_param in set_named-IsSane res mid (split b'=' param) s h) k

-- What parse_phc_params accepts is in bounds, whatever parameters the text names or leaves out.
pub parse_phc_params-IsSane :
    (from : Bytes) (params : ScryptParams) → parse_phc_params from ≡ ok params → IsSane params
unfolding parse_phc_params
parse_phc_params-IsSane from params e =
    set_params-IsSane default_params params (pieces b',' from)
      (record {
        ln_low = omega arith;
        ln_high = omega arith;
        r_low = omega arith;
        r_high = omega arith;
        p_one = refl;
      })
      e
