-- ===== src/Error/Keeps.antt =====
-- Reporting an error keeps every property of the handle.
use esio.Prelude.{ℤ, Bool, Option, none, some, arith}
use esio.Io.{Call, Handle}
use esio.Error.{
  stream_printf, error, fail_val, fail, fail_if, fail_val_if, require, mpichkr_result, mpichkr,
  mpichk_result, mpichk,
}
use esio.Io.Keeps.{Keeps, keeps_rules}

module _ {P : Handle → Type 0} where
  Keeps-stream_printf : Keeps P stream_printf
  unfolding stream_printf
  Keeps-stream_printf = record { at = λ s h. ground arith }

  pub Keeps-error : (code : ℤ) → Keeps P (error code)
  unfolding error stream_printf
  Keeps-error code = record { at = λ s h. ground arith }

module _ {R A : Type 0} {P : Handle → Type 0} where
  pub Keeps-fail_val : (code : ℤ) (value : R) → Keeps P (fail_val {A = A} code value)
  unfolding fail_val
  Keeps-fail_val code value = search (keeps_rules, Keeps-error)

  pub Keeps-require : (o : Option A) (code : ℤ) (value : R) → Keeps P (require o code value)
  unfolding require
  Keeps-require none code value = Keeps-fail_val code value
  Keeps-require (some a) code value = search keeps_rules

module _ {A : Type 0} {P : Handle → Type 0} where
  pub Keeps-fail : (code : ℤ) → Keeps P (fail {A = A} code)
  unfolding fail
  Keeps-fail code = Keeps-fail_val code code

module _ {R : Type 0} {P : Handle → Type 0} where
  pub Keeps-fail_val_if :
      (test : Bool) (code : ℤ) (value : R) → Keeps P (fail_val_if test code value)
  unfolding fail_val_if
  Keeps-fail_val_if test code value = search (keeps_rules, Keeps-fail_val)

  pub Keeps-mpichkr_result : (status : ℤ) → Keeps P (mpichkr_result {R = R} status)
  unfolding mpichkr_result
  Keeps-mpichkr_result status = search (keeps_rules, Keeps-error)

  pub Keeps-mpichkr : (c : Call) → Keeps P (mpichkr {R = R} c)
  unfolding mpichkr
  Keeps-mpichkr c = search (keeps_rules, Keeps-mpichkr_result)

  pub Keeps-mpichk_result : (status : ℤ) (value : R) → Keeps P (mpichk_result status value)
  unfolding mpichk_result
  Keeps-mpichk_result status value = search (keeps_rules, Keeps-fail_val)

  pub Keeps-mpichk : (c : Call) (value : R) → Keeps P (mpichk c value)
  unfolding mpichk
  Keeps-mpichk c value = search (keeps_rules, Keeps-mpichk_result)

module _ {P : Handle → Type 0} where
  pub Keeps-fail_if : (test : Bool) (code : ℤ) → Keeps P (fail_if test code)
  unfolding fail_if
  Keeps-fail_if test code = search (keeps_rules, Keeps-fail)

pub ruleset error_rules = (
  keeps_rules, Keeps-error, Keeps-fail_val, Keeps-require, Keeps-fail, Keeps-fail_val_if,
  Keeps-mpichkr_result, Keeps-mpichkr, Keeps-mpichk_result, Keeps-mpichk, Keeps-fail_if,
)
