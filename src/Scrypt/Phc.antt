-- ===== src/Scrypt/Phc.antt =====
-- PHC strings: what is written is read back.
use servertech_chat.Prelude.{
  ◌≡◌, true, false, all, All, IsByte, all_below, Bytes, codes, ◌∷◌, ◌++◌, str_eq, refl, ◌∙◌, ap,
  subst,
}
use servertech_chat.Error.{ok, guard, with_error, >>=-eq-ok, ◌>>=◌, ◌>>◌}
use servertech_chat.Base64.{base64_encode, base64_decode}
use servertech_chat.Base64.Tables.{forward}
use servertech_chat.Base64.Encoded.{all-base64_encode}
use servertech_chat.Base64.RoundTrip.{decode-base64_encode}
use servertech_chat.Scrypt.Split.{split, differs, split-append}
use servertech_chat.Scrypt.Fields.{
  IsSane, parse_phc_params-print_params, print_params_no_dollar, parse_phc_params-IsSane,
}
use servertech_chat.Scrypt.{
  ScryptParams, ScryptData, malformed, field, first_identifier, parse_phc_params, print_params,
  with_salt, with_params, with_algorithm, with_identifier, scrypt_phc_parse, scrypt_phc_serialize,
}

no_dollar_table : all_below 64 (λ v. differs b'$' (forward v)) ≡ true
unfolding all_below forward
no_dollar_table = refl

-- The first field of what is written.
field_lem : (xs ys : Bytes) → all (differs b'$') xs ≡ true → field (xs ++ (b'$' ∷ ys)) ≡ ok (xs, ys)
unfolding field
field_lem xs ys h = rw (split-append b'$' xs ys h) refl

base64_no_dollar : (bs : Bytes) → All IsByte bs → all (differs b'$') (base64_encode bs false) ≡ true
base64_no_dollar bs h = all-base64_encode (differs b'$') no_dollar_table refl bs false h

-- One stage after the other.
with_salt_lem :
    (params : ScryptParams) (salt hash : Bytes)
    → All IsByte hash
    → with_salt params salt (base64_encode hash false)
      ≡ ok (record { params = params; salt = salt; hash = hash })
unfolding with_salt
with_salt_lem params salt hash h = rw (decode-base64_encode hash false h) refl

with_params_lem :
    (params : ScryptParams) (salt behind : Bytes)
    → All IsByte salt
    → with_params params (base64_encode salt false ++ (b'$' ∷ behind))
      ≡ with_salt params salt behind
unfolding with_params
with_params_lem params salt behind h =
    rw
      (
        field_lem (base64_encode salt false) behind (base64_no_dollar salt h),
        decode-base64_encode salt false h,
      )
      refl

with_algorithm_lem :
    (params : ScryptParams) (behind : Bytes)
    → IsSane params
    → with_algorithm (print_params params ++ (b'$' ∷ behind)) ≡ with_params params behind
unfolding with_algorithm
with_algorithm_lem params behind s =
    rw
      (
        field_lem (print_params params) behind (print_params_no_dollar params s),
        parse_phc_params-print_params params s,
      )
      refl

with_identifier_lem :
    (behind : Bytes) → with_identifier (codes "scrypt" ++ (b'$' ∷ behind)) ≡ with_algorithm behind
unfolding with_identifier field split str_eq
with_identifier_lem behind = refl

-- A PHC string of parameters in the parser's bounds, and of any salt and hash made of bytes, is
-- parsed back.
pub scrypt_phc_parse-serialize :
    (params : ScryptParams) (salt hash : Bytes)
    → IsSane params
    → All IsByte salt
    → All IsByte hash
    → scrypt_phc_parse (scrypt_phc_serialize params salt hash)
      ≡ ok (record { params = params; salt = salt; hash = hash })
unfolding scrypt_phc_parse scrypt_phc_serialize
scrypt_phc_parse-serialize params salt hash s hs hh =
    let hash_field = base64_encode hash false in
    let salt_field = base64_encode salt false ++ (b'$' ∷ hash_field) in
    with_identifier_lem (print_params params ++ (b'$' ∷ salt_field))
    ∙ (with_algorithm_lem params salt_field s
        ∙ (with_params_lem params salt hash_field hs ∙ with_salt_lem params salt hash hh))

-- A PHC string that is parsed has parameters in bounds: ln from 2 to 20, r from 1 to 20, and p 1.
scrypt_phc_parse-IsSane :
    (from : Bytes) (d : ScryptData) → scrypt_phc_parse from ≡ ok d → IsSane d.params
unfolding scrypt_phc_parse with_identifier with_algorithm with_params with_salt
scrypt_phc_parse-IsSane from d e =
    let (inside, _, e1) = >>=-eq-ok (first_identifier from) with_identifier e in
    let ((algo, from1), _, e2) =
      >>=-eq-ok (field inside)
        (λ (a, b). guard (str_eq a (codes "scrypt")) malformed >> with_algorithm b) e1 in
    let (_, _, e3) =
      >>=-eq-ok (guard (str_eq algo (codes "scrypt")) malformed) (λ _. with_algorithm from1) e2 in
    let ((ps, from2), _, e4) =
      >>=-eq-ok (field from1) (λ (ps, b). parse_phc_params ps >>= λ params. with_params params b)
        e3 in
    let (params, parsed, e5) =
      >>=-eq-ok (parse_phc_params ps) (λ params. with_params params from2) e4 in
    subst IsSane (kept params from2 e5) (parse_phc_params-IsSane ps params parsed)
  where
    kept :
        (params : ScryptParams) (from2 : Bytes)
        → with_params params from2 ≡ ok d
        → params ≡ d.params
    kept params from2 h =
        let ((b64_salt, behind), _, h1) =
          >>=-eq-ok (field from2)
            (λ (s, b).
              with_error malformed (base64_decode s false) >>= λ salt. with_salt params salt b)
            h in
        let (salt, _, h2) =
          >>=-eq-ok (with_error malformed (base64_decode b64_salt false))
            (λ salt. with_salt params salt behind) h1 in
        let (hash, _, h3) =
          >>=-eq-ok (with_error malformed (base64_decode behind false))
            (λ hash. ok (record { params = params; salt = salt; hash = hash })) h2 in
        let same : record { params = params; salt = salt; hash = hash } ≡ d = cc h3 in
        ap (λ x. x.params) same
