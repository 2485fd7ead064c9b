-- ===== src/Base/Throwing.antt =====
-- What a C++ function does: it returns, throws `Err` with a text, or runs into undefined behaviour.
use device.Base.Text.{Bytes}

pub data Result {ℓ} (A : Type ℓ) : Type ℓ where
  ok : A → Result A
  err : Bytes → Result A
  crash : Result A

-- A method that changes the object `S` keeps what it wrote before a throw.
abbrev pub Exec : Type 0 → Type 0 → Type 0
Exec S A = S → Result A × S

module _ {S A : Type 0} where
  abbrev pub pure : A → Exec S A
  pure a s = (ok a, s)

  abbrev pub throw : Bytes → Exec S A
  throw e s = (err e, s)

module _ {S A B : Type 0} where
  abbrev pub continue : Result A × S → (A → Exec S B) → Result B × S
  continue (ok a, s) f = f a s
  continue (err e, s) f = (err e, s)
  continue (crash, s) f = (crash, s)

  infixl 5 ◌>>=◌ ◌>>◌
  abbrev pub ◌>>=◌ : Exec S A → (A → Exec S B) → Exec S B
  ◌>>=◌ m f s = continue (m s) f

  abbrev pub ◌>>◌ : Exec S A → Exec S B → Exec S B
  ◌>>◌ m k s = continue (m s) (λ _. k)
