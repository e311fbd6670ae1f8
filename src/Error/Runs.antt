-- ===== src/Error/Runs.antt =====
-- Running the error macros of esio/error.h from a given handle: an error ends the body.
use esio.Prelude.{ℤ, pos, eq_ℤ, ◌≡◌, refl, Bool, true, false, not, Option, none, some}
use esio.Io.{Handle, mpi_error_string, Proc, return, ignore, ◌>>=◌, ◌>>◌, invoke}
use esio.Error.{efailed, error, fail_val, fail, fail_if, fail_val_if, require, mpichk_result}
use esio.Error.Keeps.{Keeps-error}
use esio.Io.Runs.{
  Runs, body_rules, Runs-pure, Runs-return, Runs-undefined, Runs-if, Runs-pure_bind, Runs-gets_bind,
  Runs-invoke_bind, Runs-return_bind, Runs-undefined_bind, Runs-if_bind, Runs-assoc, Runs-when_bind,
  Runs-get_handle_bind, Runs-modify_handle_bind, Runs-external_bind, Runs-ignore_bind,
  Runs-external_text_bind, Runs-external_stored_bind, Runs-external_received_bind,
}

-- Reporting an error, which ends the body with the value that is given.
module _ {R A : Type 0} {Q : A → Handle → Type 0} {X : R → Handle → Type 0} {h : Handle} where
  pub Runs-fail_val : (code : ℤ) (r : R) → X r h → Runs h (fail_val code r) Q X
  unfolding fail_val
  Runs-fail_val code r x =
      Runs-invoke_bind (error code) (λ _. return r) (Keeps-error code) (λ _. Runs-return r x)

module _ {R A B : Type 0} {Q : B → Handle → Type 0} {X : R → Handle → Type 0} {h : Handle} where
  pub Runs-fail_val_bind :
      (code : ℤ) (r : R) (f : A → Proc R B) → X r h → Runs h (fail_val code r >>= f) Q X
  unfolding fail_val
  Runs-fail_val_bind code r f x =
      Runs-assoc (invoke (error code)) (λ _. return r) f
        (Runs-invoke_bind (error code) (λ _. return r >>= f) (Keeps-error code)
          (λ _. Runs-return_bind r f x))

  pub Runs-require_bind :
      (o : Option A) (code : ℤ) (r : R) (f : A → Proc R B)
      → (o ≡ none → X r h)
      → ((a : A) → o ≡ some a → Runs h (f a) Q X)
      → Runs h (require o code r >>= f) Q X
  unfolding require
  Runs-require_bind none code r f x k = Runs-fail_val_bind code r f (x refl)
  Runs-require_bind (some a) code r f x k = record { at = λ s e. (k a refl).at s e }

module _ {B : Type 0} {Q : B → Handle → Type 0} {h : Handle} where
  pub Runs-fail_bind :
      {A : Type 0} {X : ℤ → Handle → Type 0} (code : ℤ) (f : A → Proc ℤ B)
      → X code h
      → Runs h (fail code >>= f) Q X
  unfolding fail
  Runs-fail_bind code f x = Runs-fail_val_bind code code f x

  pub Runs-fail_val_if_bind :
      {R : Type 0} {X : R → Handle → Type 0} (test : Bool) (code : ℤ) (r : R) (f : Unit → Proc R B)
      → (test ≡ true → X r h)
      → (test ≡ false → Runs h (f tt) Q X)
      → Runs h (fail_val_if test code r >>= f) Q X
  unfolding fail_val_if
  Runs-fail_val_if_bind test code r f x k =
      Runs-when_bind test (fail_val code r) f (λ e. Runs-fail_val_bind code r f (x e)) k

  pub Runs-fail_if_bind :
      {X : ℤ → Handle → Type 0} (test : Bool) (code : ℤ) (f : Unit → Proc ℤ B)
      → (test ≡ true → X code h)
      → (test ≡ false → Runs h (f tt) Q X)
      → Runs h (fail_if test code >>= f) Q X
  unfolding fail_if
  Runs-fail_if_bind test code f x k =
      Runs-when_bind test (fail code) f (λ e. Runs-fail_bind code f (x e)) k

  pub Runs-mpichk_result_bind :
      {R : Type 0} {X : R → Handle → Type 0} (status : ℤ) (r : R) (f : Unit → Proc R B)
      → X r h
      → Runs h (f tt) Q X
      → Runs h (mpichk_result status r >>= f) Q X
  unfolding mpichk_result
  Runs-mpichk_result_bind status r f x k =
      Runs-when_bind (not (eq_ℤ status (pos 0))) (ignore mpi_error_string >> fail_val efailed r) f
        (λ _.
          Runs-assoc (ignore mpi_error_string) (λ _. fail_val efailed r) f
            (Runs-ignore_bind mpi_error_string (λ _. fail_val efailed r >>= f)
              (Runs-fail_val_bind efailed r f x)))
        (λ _. k)

pub ruleset runs_rules = (
  body_rules, Runs-fail_val, Runs-fail_val_bind, Runs-require_bind, Runs-fail_bind,
  Runs-fail_val_if_bind, Runs-fail_if_bind, Runs-mpichk_result_bind,
)
