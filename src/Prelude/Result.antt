-- ===== src/Prelude/Result.antt =====
-- A value or the error with which the source throws or returns.
use mathlib.Core.Bool.{Bool, true, false}

pub data Result {ε α} (E : Type ε) (A : Type α) : Type (ε ⊔ α) where
  err : E → Result E A
  ok : A → Result E A

infixl 5 ◌>>=◌ ◌>>◌
abbrev pub ◌>>=◌ {ε α β} :
    {E : Type ε} {A : Type α} {B : Type β} → Result E A → (A → Result E B) → Result E B
err e >>= next = err e
ok a >>= next = next a

-- What follows a check that returns nothing.
abbrev pub ◌>>◌ {ε β} : {E : Type ε} {B : Type β} → Result E (Unit {0}) → Result E B → Result E B
checked >> next = checked >>= λ u. next

-- The error unless the test holds.
abbrev pub check {ε} : {E : Type ε} → Bool → E → Result E (Unit {0})
check false e = err e
check true e = ok tt
