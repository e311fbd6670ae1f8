-- ===== src/Error/Fails.antt =====
-- A failed test never goes on.
use esio.Prelude.{refl, true, false}
use esio.Prelude.{ℤ, ◌≢◌, true, arith, Bool, ◌≡◌}
use esio.Io.{Machine, Proc, ◌>>=◌, exhausted, next}
use esio.Error.{stream_printf, error, fail_val, fail, fail_if}

module _ {A : Type 0} where
  -- What `fail_if` leads to: with a failed test never more fuel is needed, and otherwise nothing changes.
  pub fail_if-exhausted :
      (code : ℤ) (f : Unit → Proc ℤ A) (s : Machine) → ((fail_if true code >>= f) s).0 ≢ exhausted
  unfolding fail_if fail fail_val error stream_printf
  fail_if-exhausted code f s = ground arith

module _ {R A B : Type 0} where
  pub fail_val-next :
      (code : ℤ) (r : R) (f : A → Proc R B) (s : Machine) (b : B)
      → ((fail_val code r >>= f) s).0 ≢ next b
  unfolding fail_val error stream_printf
  fail_val-next code r f s b = ground arith

-- A test that goes on has changed nothing.
pub fail_if_next :
    (test : Bool) (code : ℤ) (s : Machine)
    → (fail_if test code s).0 ≡ next tt
    → (fail_if test code s).1 ≡ s
unfolding fail_if fail fail_val error stream_printf
fail_if_next true code s e = absurd (ground arith)
fail_if_next false code s e = refl

pub fail_next : {A : Type 0} (code : ℤ) (s : Machine) (a : A) → (fail {A = A} code s).0 ≢ next a
unfolding fail fail_val error stream_printf
fail_next code s a = ground arith
