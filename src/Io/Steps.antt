-- ===== src/Io/Steps.antt =====
-- Reading a run backwards: a body that goes on to its end went on at each statement.
use esio.Prelude.{◌≡◌, refl, arith}
use esio.Io.State.{Machine}
use esio.Io.Monad.{Outcome, Proc, continue, next, exit, aborted, fault, exhausted, ◌>>=◌}

module _ {R A B : Type 0} where
  continue_next :
      (o : Outcome R A) (f : A → Proc R B) (s : Machine) (b : B)
      → (continue o f s).0 ≡ next b
      → (a : A) × (o ≡ next a) × (continue o f s ≡ f a s)
  continue_next (next a) f s b e = (a, refl, refl)
  continue_next (exit r) f s b e = absurd (ground arith)
  continue_next aborted f s b e = absurd (ground arith)
  continue_next fault f s b e = absurd (ground arith)
  continue_next exhausted f s b e = absurd (ground arith)

  -- The first statement went on with some value, and the rest ran on what it left.
  pub bind_next :
      (m : Proc R A) (f : A → Proc R B) (s : Machine) (b : B)
      → ((m >>= f) s).0 ≡ next b
      → (a : A) × ((m s).0 ≡ next a) × ((m >>= f) s ≡ f a (m s).1)
  bind_next m f s b e = continue_next (m s).0 f (m s).1 b e
