-- ===== src/Base/Effects.antt =====
-- C code that calls out: a computation makes effects in order and then returns a value or ends
-- the process. What the calls answer is an argument of the code that makes them.
pub mod Laws
use Prim.Native.Nat.{ℕ}
use mathlib.Core.Bool.{Bool, true, false}
use mathlib.Core.List.{List, [], ◌∷◌}

-- `exits` is a call of `exit`, `aborts` a failed `assert`, `undefined` what C leaves undefined.
pub data Halt : Type 0 where
  exits : ℕ → Halt
  aborts undefined : Halt

pub data Exec (E A : Type 0) : Type 0 where
  ret : A → Exec E A
  stop : Halt → Exec E A
  emit : E → Exec E A → Exec E A

pub data Result (A : Type 0) : Type 0 where
  returns : A → Result A
  halts : Halt → Result A

module _ {E A : Type 0} where
  abbrev pub effects : Exec E A → List E
  effects (ret a) = []
  effects (stop h) = []
  effects (emit e m) = e ∷ effects m

  abbrev pub result : Exec E A → Result A
  result (ret a) = returns a
  result (stop h) = halts h
  result (emit e m) = result m

infixl 5 ◌>>=◌ ◌>>◌
abbrev pub ◌>>=◌ : {E A B : Type 0} → Exec E A → (A → Exec E B) → Exec E B
ret a >>= f = f a
stop h >>= f = stop h
emit e m >>= f = emit e (m >>= f)

abbrev pub ◌>>◌ : {E B : Type 0} → Exec E (Unit {0}) → Exec E B → Exec E B
m >> k = m >>= λ _. k

abbrev pub perform : {E : Type 0} → E → Exec E (Unit {0})
perform e = emit e (ret tt)

-- `guard b h` goes on if `b` holds and ends with `h` otherwise.
abbrev pub guard : {E : Type 0} → Bool → Halt → Exec E (Unit {0})
guard true h = ret tt
guard false h = stop h

-- The effects of a part, as effects of the whole.
abbrev pub lift : {E F A : Type 0} → (E → F) → Exec E A → Exec F A
lift f (ret a) = ret a
lift f (stop h) = stop h
lift f (emit e m) = emit (f e) (lift f m)
