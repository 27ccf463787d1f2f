-- ===== src/Base/Effects/Laws.antt =====
-- The effects and the result of one computation after another.
use mathlib.Core.Path.{◌≡◌, ap}
use mathlib.Core.List.{◌∷◌, ◌++◌}
use qemu_hdl_sim.Base.Effects.{
  Exec, ret, stop, emit, Result, returns, halts, effects, result, ◌>>=◌,
}

value_or : {A : Type 0} → A → Result A → A
value_or d (returns a) = a
value_or d (halts h) = d

module _ {E A B : Type 0} where
  -- A computation that returns is followed by the next.
  pub >>=-returns :
      (m : Exec E A) (f : A → Exec E B) (a : A)
      → result m ≡ returns a
      → (effects (m >>= f) ≡ effects m ++ effects (f a)) × (result (m >>= f) ≡ result (f a))
  unfolding value_or
  >>=-returns (ret b) f a h =
      let e : b ≡ a = ap (value_or b) h in (ap (λ x. effects (f x)) e, ap (λ x. result (f x)) e)
  >>=-returns (stop s) f a h = cc
  >>=-returns (emit e m) f a h = let rest = >>=-returns m f a h in (ap (◌∷◌ e) rest.0, rest.1)
