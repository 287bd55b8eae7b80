-- ===== src/Scrypt/OpenSsl.antt =====
-- EVP_PBE_scrypt: the password, the salt, N, r, p, the memory limit and the size of the key; `none`
-- is a result that is not positive.
use servertech_chat.Prelude.{ℕ, Bytes, Option}

pub record Ssl : Type 0 where
  pub evp_pbe_scrypt : Bytes → Bytes → ℕ → ℕ → ℕ → ℕ → ℕ → Option Bytes
