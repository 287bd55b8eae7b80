-- ===== src/Scrypt/Verify.antt =====
-- Checking passwords.
use servertech_chat.Prelude.{
  ℕ, ◌≡◌, ◌↔◌, true, ◌^◌, ==_iff, All, IsByte, length, Bytes, [], ◌∷◌, Option, none, some, refl,
  arith, subst,
}
use servertech_chat.Error.{ErrorCode, Result, ok, err, throws, undefined, >>=-eq-ok}
use servertech_chat.Scrypt.OpenSsl.{Ssl}
use servertech_chat.Scrypt.Fields.{IsSane}
use servertech_chat.Scrypt.Phc.{scrypt_phc_parse-serialize}
use servertech_chat.Scrypt.{
  ScryptParams, ScryptData, default_params, hash_size, max_memory, same_bytes, time_safe_equals,
  scrypt_generate_hash, hash_password, hashed, checked, check_password, verify_password,
  scrypt_phc_parse, scrypt_phc_serialize,
}

same_bytes_eq : (s1 s2 : Bytes) → same_bytes s1 s2 ≡ true → length s1 ≡ length s2 → s1 ≡ s2
unfolding same_bytes
same_bytes_eq [] [] h l = refl
same_bytes_eq [] (y ∷ s2) h l = absurd (omega (arith, l))
same_bytes_eq (x ∷ s1) [] h l = absurd (omega (arith, l))
same_bytes_eq (x ∷ s1) (y ∷ s2) h l =
    let tails : s1 ≡ s2 = same_bytes_eq s1 s2 (ground arith) (omega (arith, l)) in
    let heads : x ≡ y = (==_iff x y).0 (ground arith) in cc (heads, tails)

same_bytes_refl : (s : Bytes) → same_bytes s s ≡ true
unfolding same_bytes
same_bytes_refl [] = refl
same_bytes_refl (x ∷ s) = ground (arith, same_bytes_refl s)

-- time_safe_equals tells whether two blobs are equal, of whatever sizes they are.
time_safe_equals_iff : (s1 s2 : Bytes) → (time_safe_equals s1 s2 ≡ true) ↔ (s1 ≡ s2)
unfolding time_safe_equals
time_safe_equals_iff s1 s2 = (
  λ h. same_bytes_eq s1 s2 (ground arith) ((==_iff (length s1) (length s2)).0 (ground arith)),
  λ e. subst (λ s. time_safe_equals s1 s ≡ true) e (ground (arith, same_bytes_refl s1)),
)

module _ (ssl : Ssl) where
  -- What OpenSSL writes is a buffer of bytes.
  abbrev pub WritesBytes : Type 0
  WritesBytes =
      (passwd salt : Bytes) (n r p memory size : ℕ) (key : Bytes)
      → ssl.evp_pbe_scrypt passwd salt n r p memory size ≡ some key
      → All IsByte key

  generate-IsByte :
      WritesBytes
      → (passwd : Bytes) (params : ScryptParams) (salt hash : Bytes)
      → scrypt_generate_hash ssl passwd params salt ≡ ok hash
      → All IsByte hash
  unfolding scrypt_generate_hash
  generate-IsByte writes passwd params salt hash e =
      writer (ssl.evp_pbe_scrypt passwd salt (2 ^ params.ln) params.r params.p max_memory hash_size)
        refl e
    where
      writer :
          (out : Option Bytes)
          → ssl.evp_pbe_scrypt passwd salt (2 ^ params.ln) params.r params.p max_memory hash_size
            ≡ out
          → hashed out ≡ ok hash
          → All IsByte hash
      writer none w h = cc h
      writer (some key) w h =
          let same : key ≡ hash = cc h in
          subst (All IsByte) same (writes passwd salt _ _ _ _ _ key w)

  check_equal :
      (passwd hash : Bytes) (d : ScryptData)
      → scrypt_generate_hash ssl passwd d.params d.salt ≡ ok hash
      → d.hash ≡ hash
      → check_password ssl passwd d ≡ ok true
  check_equal passwd hash d e same = rw e (rw ((time_safe_equals_iff d.hash hash).1 same) refl)

  -- If OpenSSL writes bytes and the salt is made of bytes, a password is verified against the text
  -- that hash_password has made of it.
  pub verify_password-hash_password :
      WritesBytes
      → (salt passwd hashed_passwd : Bytes) → All IsByte salt
      → hash_password ssl (some salt) passwd ≡ ok hashed_passwd
      → verify_password ssl passwd hashed_passwd ≡ ok true
  unfolding verify_password hash_password
  verify_password-hash_password writes salt passwd hashed_passwd hs e =
      let (hash, made, out) =
        >>=-eq-ok (scrypt_generate_hash ssl passwd default_params salt)
          (λ hash. ok (scrypt_phc_serialize default_params salt hash)) e in
      let text : scrypt_phc_serialize default_params salt hash ≡ hashed_passwd = cc out in
      let parsed =
        scrypt_phc_parse-serialize default_params salt hash sane hs
          (generate-IsByte writes passwd default_params salt hash made) in
      subst (λ s. checked ssl passwd (scrypt_phc_parse s) ≡ ok true) text
        (rw parsed (
          check_equal passwd hash (record { params = default_params; salt = salt; hash = hash })
            made refl))
    where
      sane : IsSane default_params
      sane = record {
        ln_low = omega arith;
        ln_high = omega arith;
        r_low = omega arith;
        r_high = omega arith;
        p_one = refl;
      }

  -- A password is verified exactly if the stored text is a PHC string that scrypt_phc_parse reads,
  -- and its hash is what the password hashes to with its parameters and salt.
  pub verify_password_iff :
      (passwd hashed_passwd : Bytes)
      → (verify_password ssl passwd hashed_passwd ≡ ok true) ↔ (
          (d : ScryptData) × (scrypt_phc_parse hashed_passwd ≡ ok d)
          × (scrypt_generate_hash ssl passwd d.params d.salt ≡ ok d.hash))
  unfolding verify_password
  verify_password_iff passwd hashed_passwd = (
    only (scrypt_phc_parse hashed_passwd) refl,
    λ (d, parsed, made). rw parsed (check_equal passwd d.hash d made refl),
  )
    where
      only :
          (res : Result ErrorCode ScryptData)
          → scrypt_phc_parse hashed_passwd ≡ res
          → checked ssl passwd res ≡ ok true
          → (d : ScryptData) × (scrypt_phc_parse hashed_passwd ≡ ok d)
            × (scrypt_generate_hash ssl passwd d.params d.salt ≡ ok d.hash)
      only (ok d) e h =
          let (hash, made, out) =
            >>=-eq-ok (scrypt_generate_hash ssl passwd d.params d.salt)
              (λ hash. ok (time_safe_equals d.hash hash)) h in
          let equal : time_safe_equals d.hash hash ≡ true = cc out in
          let same = (time_safe_equals_iff d.hash hash).0 equal in (d, e, rw same made)
      only (err x) e h = cc h
      only (throws x) e h = cc h
      only undefined e h = cc h
