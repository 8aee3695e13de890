-- ===== src/Base/Action.antt =====
-- Operations on a state that may fail. What was written before a failure stays written, since
-- only a transaction undoes it.
use mathlib.Core.Bool.{Bool, true, false}

module _ {ℓ} where
  pub data Result (E : Type ℓ) (A : Type ℓ) : Type ℓ where
    ok : A → Result E A
    err : E → Result E A

abbrev pub Action : Type 0 → Type 0 → Type 0 → Type 0
Action E S A = S → Result E A × S

module _ {E S A : Type 0} where
  abbrev pub pure : A → Action E S A
  pure a s = (ok a, s)

  abbrev pub fail : E → Action E S A
  fail e s = (err e, s)

  abbrev pub lift : Result E A → Action E S A
  lift r s = (r, s)

module _ {E S A B : Type 0} where
  abbrev pub continue : Result E A → (A → Action E S B) → Action E S B
  continue (ok a) f s = f a s
  continue (err e) f s = (err e, s)

  infixl 5 ◌>>=◌ ◌>>◌
  abbrev pub ◌>>=◌ : Action E S A → (A → Action E S B) → Action E S B
  ◌>>=◌ m f s = continue (m s).0 f (m s).1

  abbrev pub ◌>>◌ : Action E S A → Action E S B → Action E S B
  m >> k = m >>= λ _. k

-- `if test { return err }`
abbrev pub fail_if : {E S : Type 0} → Bool → E → Action E S (Unit {0})
fail_if true e s = (err e, s)
fail_if false e s = (ok tt, s)
