-- ===== src/Exec.antt =====
-- Operations that talk to the outside: the state of the outside goes in and comes out, also of an
-- operation that fails.
use servertech_chat.Error.{Result, ok, err, throws, undefined, ErrorWithMessage}

abbrev pub Exec {ℓ κ} : Type ℓ → Type κ → Type (ℓ ⊔ κ)
Exec W A = W → Result ErrorWithMessage A × W

module _ {ℓ κ ι} {W : Type ℓ} {A : Type κ} {B : Type ι} where
  abbrev pub continue : Result ErrorWithMessage A → (A → Exec W B) → Exec W B
  continue (ok a) f w = f a w
  continue (err e) f w = (err e, w)
  continue (throws e) f w = (throws e, w)
  continue undefined f w = (undefined, w)

  infixl 5 ◌>>=◌
  abbrev pub ◌>>=◌ : Exec W A → (A → Exec W B) → Exec W B
  ◌>>=◌ m f w = continue (m w).0 f (m w).1

abbrev pub pure {ℓ κ} : {W : Type ℓ} {A : Type κ} → A → Exec W A
pure a w = (ok a, w)

abbrev pub lift {ℓ κ} : {W : Type ℓ} {A : Type κ} → Result ErrorWithMessage A → Exec W A
lift r w = (r, w)
